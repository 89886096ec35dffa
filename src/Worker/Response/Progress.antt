-- ===== src/Worker/Response/Progress.antt =====
-- On a stopped response, and on the response that follows the end of a playback.
use realtime_voice_agent.Common.{
  ℕ, ◌≡◌, ◌∙◌, true, false, inl, inr, Option, none, List, arith, Text, text_key, nat_key, is_ok, ok,
}
use realtime_voice_agent.Worker.VoiceSession.{
  Session, PlaybackRef, begin_playback, cancel_playback, accepts_callback,
}
use realtime_voice_agent.Worker.VoiceSession.Fence.{IsPast, IsOwned, accepted_reached}
use realtime_voice_agent.Worker.Response.{
  Coordinator, ResponseRecord, ResponseOutcome, PlaybackOutcome, is_applied, is_object,
  fenced_record, begin, accepts, fence, write,
}
use realtime_voice_agent.Worker.Response.Playback.{playback_ended, settle_end}
use realtime_voice_agent.Worker.Response.Phases.{
  Phase, idle, streaming, playing_out, stopping, remember_terminal-SameCore,
}
use realtime_voice_agent.Worker.Response.Outcomes.{fence_cases, fenced_state}
use realtime_voice_agent.Worker.Response.Views.{find_record_cases, end_record_cases}
use realtime_voice_agent.Worker.Response.Coherence.{playback_ended-Phase}
use realtime_voice_agent.Worker.Response.Lifecycle.{
  Call, run, run-IsPast, SessionStep-closed, playback_ended-SessionStep,
}

cancel_playback-IsPast :
    (p : PlaybackRef) (s : Session)
    → IsOwned s
    → is_applied (cancel_playback p s).1 ≡ true
    → IsPast p (cancel_playback p s).0
unfolding cancel_playback
cancel_playback-IsPast p s v h =
    let active : accepts_callback p s ≡ true = unfold accepts_callback in ground arith in
    record { reached = ground (arith, accepted_reached p s v active); inactive = ground arith }

-- After a fence that goes through, no media is accepted for the record again, whatever calls follow,
-- new responses included.
pub fenced_response_is_silent :
    (i : ℕ) (r : ResponseRecord) (outcome : ResponseOutcome) (code : Option Text)
    (c c' : Coordinator) (generation : ℕ) (xs : List Call)
    → IsOwned c.session
    → fence i r outcome code c ≡ (c', ok generation)
    → accepts i r (run xs c') ≡ false
unfolding accepts accepts_callback
fenced_response_is_silent i r outcome code c c' generation xs v h =
    elim (fence_cases i r outcome code c) [
      | inl (x, e) ↦ absurd (ground arith)
      | inr (f, e) ↦
          let same =
            (remember_terminal-SameCore (fenced_record r (is_object i c.active) outcome code)
              (fenced_state i r outcome code c)).session in
          let here : c'.session ≡ (cancel_playback r.target c.session).0 = ground (arith, same) in
          let past =
            run-IsPast r.target xs c' (rw here (cancel_playback-IsPast r.target c.session v f)) in
          ground (arith, past.inactive)
    ]

ended_is_idle :
    (id : Text) (generation : ℕ) (outcome : PlaybackOutcome) (samples : ℕ) (last : Option ℕ)
    (c : Coordinator)
    → is_ok (playback_ended id generation outcome samples last c).1 ≡ true
    → (playback_ended id generation outcome samples last c).0.playback ≡ none
unfolding playback_ended
ended_is_idle id generation outcome samples last c h = elim (find_record_cases id generation c) [
  | inl e ↦ absurd (ground (arith, e))
  | inr (i, r, e, g) ↦ elim (end_record_cases i r outcome samples last c) [
    | inl (x, f) ↦ absurd (ground (arith, e, f))
    | inr (p, o, f) ↦ unfold settle_end write in ground (arith, e, f)
  ]
]

idle_begins :
    (c : Coordinator) (id : Text) (epoch : ℕ)
    → c.session.closed ≡ false
    → Phase c
    → c.playback ≡ none
    → (begin id epoch c).1 ≡ ok (c.next_object, true)
unfolding begin begin_playback
idle_begins c id epoch live (idle a p s) h = ground (arith, a, p, s)
idle_begins c id epoch live (streaming j x a p f o st en s) h = absurd (cc)
idle_begins c id epoch live (playing_out j x a p f o st en s) h = absurd (cc)
idle_begins c id epoch live (stopping j x a p f o st en s) h = absurd (cc)

playback_ended-closed :
    (id : Text) (generation : ℕ) (outcome : PlaybackOutcome) (samples : ℕ) (last : Option ℕ)
    (c : Coordinator)
    → (playback_ended id generation outcome samples last c).0.session.closed ≡ c.session.closed
playback_ended-closed id generation outcome samples last c =
    SessionStep-closed (playback_ended-SessionStep id generation outcome samples last c)

-- In a phase and with the session open, once the end of a playback is accepted the next response can
-- begin: `begin` returns a new record.
pub begin_after_end :
    (id : Text) (generation : ℕ) (outcome : PlaybackOutcome) (samples : ℕ) (last : Option ℕ)
    (c : Coordinator) (next_id : Text) (epoch : ℕ)
    → c.session.closed ≡ false
    → Phase c
    → is_ok (playback_ended id generation outcome samples last c).1 ≡ true
    → let c' = (playback_ended id generation outcome samples last c).0 in
      (begin next_id epoch c').1 ≡ ok (c'.next_object, true)
begin_after_end id generation outcome samples last c next_id epoch live v h =
    idle_begins _ next_id epoch (playback_ended-closed id generation outcome samples last c ∙ live)
      (playback_ended-Phase c live id generation outcome samples last v)
      (ended_is_idle id generation outcome samples last c h)
