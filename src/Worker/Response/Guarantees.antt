-- ===== src/Worker/Response/Guarantees.antt =====
-- On the calls of the binding that are refused.
use realtime_voice_agent.Common.{
  ℕ, ◌≡◌, Bool, true, false, inl, inr, Option, none, some, arith, Text, text_key, nat_key, is_some,
  Bool-cases, Option-cases, is_ok, Result, ok,
}
use realtime_voice_agent.Common.Dict.{get}
use realtime_voice_agent.Worker.VoiceSession.{begin_playback}
use realtime_voice_agent.Worker.Response.{
  Coordinator, ResponseRecord, ResponseOutcome, PlaybackOutcome, ResponseError, begin, note_media,
  complete, fence,
}
use realtime_voice_agent.Worker.Response.Playback.{
  playback_started, start_record, playback_ended, settle_end, needs_finish,
}
use realtime_voice_agent.Worker.Response.Phases.{Phase}
use realtime_voice_agent.Worker.Response.Outcomes.{complete_cases, fence_cases}
use realtime_voice_agent.Worker.Response.Views.{
  find_record_cases, end_record_cases, finish_playback-active, Phase-Plays, unstopped_completed,
}
use realtime_voice_agent.Worker.Response.Lifecycle
use realtime_voice_agent.Worker.Response.Lifecycle.{
  Call, begins, notes, completes, fences, starts, ends, run, run-IsPast,
}

abbrev succeeds_on {ℓ} :
    {A : Type ℓ} → ℕ → Coordinator → (ResponseRecord → Result ResponseError A) → Bool
succeeds_on i c result = elim (get i c.objects) [ none ↦ false | some r ↦ is_ok (result r) ]

-- Whether a call returns; otherwise it raises `RvaBindingError`, or there is no such record.
unfoldable pub succeeds : Call → Coordinator → Bool
succeeds (begins id epoch) c = is_ok (begin id epoch c).1
succeeds (notes i n) c = succeeds_on i c (λ r. (note_media i r n c).1)
succeeds (completes i) c = succeeds_on i c (λ r. (complete i r c).1)
succeeds (fences i outcome code) c = succeeds_on i c (λ r. (fence i r outcome code c).1)
succeeds (starts id generation n) c = is_ok (playback_started id generation n c).1
succeeds (ends id generation outcome samples last) c =
    is_ok (playback_ended id generation outcome samples last c).1

begin_refused :
    (id : Text) (epoch : ℕ) (c : Coordinator)
    → is_ok (begin id epoch c).1 ≡ false
    → (begin id epoch c).0 ≡ c
unfolding begin begin_playback
begin_refused id epoch c h = ground arith

note_media_refused :
    (i : ℕ) (r : ResponseRecord) (n : ℕ) (c : Coordinator)
    → is_ok (note_media i r n c).1 ≡ false
    → (note_media i r n c).0 ≡ c
unfolding note_media
note_media_refused i r n c h = ground arith

complete_refused :
    (i : ℕ) (r : ResponseRecord) (c : Coordinator)
    → is_ok (complete i r c).1 ≡ false
    → (complete i r c).0 ≡ c
complete_refused i r c h = elim (complete_cases i r c) [
  | inl (x, e) ↦ rw e
  | inr e ↦ absurd (ground arith)
]

fence_refused :
    (i : ℕ) (r : ResponseRecord) (outcome : ResponseOutcome) (code : Option Text) (c : Coordinator)
    → is_ok (fence i r outcome code c).1 ≡ false
    → (fence i r outcome code c).0 ≡ c
fence_refused i r outcome code c h = elim (fence_cases i r outcome code c) [
  | inl (x, e) ↦ rw e
  | inr (_, e) ↦ absurd (ground arith)
]

playback_started_refused :
    (id : Text) (generation n : ℕ) (c : Coordinator)
    → is_ok (playback_started id generation n c).1 ≡ false
    → (playback_started id generation n c).0 ≡ c
unfolding playback_started start_record
playback_started_refused id generation n c h = ground arith

-- In a phase, the end that is settled goes through.
settle_end_ok :
    (i : ℕ) (r : ResponseRecord) (c : Coordinator)
    → c.session.closed ≡ false
    → Phase c
    → c.playback ≡ some i
    → get i c.objects ≡ some r
    → is_some r.outcome ≡ true
    → (settle_end i r c).1 ≡ ok i
unfolding settle_end needs_finish
settle_end_ok i r c live v p g o = elim (Bool-cases r.stop_sent) [
  | inl e ↦ ground (arith, e)
  | inr e ↦
      let x = Phase-Plays c i r v p g e in
      ground (
        arith,
        e,
        unstopped_completed c i r v p g o e,
        finish_playback-active c.session r.target live x.session,
      )
]

playback_ended_refused :
    (id : Text) (generation : ℕ) (outcome : PlaybackOutcome) (samples : ℕ) (last : Option ℕ)
    (c : Coordinator)
    → c.session.closed ≡ false
    → Phase c
    → is_ok (playback_ended id generation outcome samples last c).1 ≡ false
    → (playback_ended id generation outcome samples last c).0 ≡ c
unfolding playback_ended
playback_ended_refused id generation outcome samples last c live v h =
    elim (find_record_cases id generation c) [
      | inl e ↦ ground (arith, e)
      | inr (i, r, e, g) ↦ elim (end_record_cases i r outcome samples last c) [
        | inl (x, f) ↦ ground (arith, e, f)
        | inr (p, o, f) ↦ absurd (ground (arith, e, f, settle_end_ok i r c live v p g o))
      ]
    ]

on_record_refused {ℓ} :
    {A : Type ℓ} (i : ℕ) (c : Coordinator)
    (act : ResponseRecord → Coordinator × Result ResponseError A)
    → succeeds_on i c (λ r. (act r).1) ≡ false
    → ((r : ResponseRecord) → is_ok (act r).1 ≡ false → (act r).0 ≡ c)
    → Lifecycle.on_record i c (λ r. (act r).0) ≡ c
on_record_refused i c act h k = elim (Option-cases (get i c.objects)) [
  | inl e ↦ rw (e, Lifecycle.on_record)
  | inr (r, e) ↦ rw (e, Lifecycle.on_record) (k r (rw (e, succeeds_on) at h))
]

-- In a phase and with the session open, a call that raises leaves the coordinator exactly as it was.
pub refused_calls_change_nothing :
    (x : Call) (c : Coordinator)
    → c.session.closed ≡ false
    → Phase c
    → succeeds x c ≡ false
    → Lifecycle.step x c ≡ c
unfolding Lifecycle.step succeeds
refused_calls_change_nothing (begins id epoch) c live v h = begin_refused id epoch c h
refused_calls_change_nothing (notes i n) c live v h =
    on_record_refused i c _ h λ r. note_media_refused i r n c
refused_calls_change_nothing (completes i) c live v h =
    on_record_refused i c _ h λ r. complete_refused i r c
refused_calls_change_nothing (fences i outcome code) c live v h =
    on_record_refused i c _ h λ r. fence_refused i r outcome code c
refused_calls_change_nothing (starts id generation n) c live v h =
    playback_started_refused id generation n c h
refused_calls_change_nothing (ends id generation outcome samples last) c live v h =
    playback_ended_refused id generation outcome samples last c live v h
