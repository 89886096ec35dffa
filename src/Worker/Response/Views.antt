-- ===== src/Worker/Response/Views.antt =====
-- What a phase says of the playback at hand, and what the session then answers.
use realtime_voice_agent.Common.{
  ℕ, ◌+◌, ◌≡◌, true, false, ◌⊎◌, inl, inr, Option, none, some, arith, Text, text_key, nat_key,
  eq_refl, is_some, Bool-cases, Option-cases, err,
}
use realtime_voice_agent.Common.Dict.{get}
use realtime_voice_agent.Worker.VoiceSession.{
  Session, PlaybackRef, cancel_playback, finish_playback, applied, ref_eq,
}
use realtime_voice_agent.Worker.Response.{
  Coordinator, ResponseRecord, ResponseOutcome, PlaybackOutcome, ResponseError,
  duplicate_playback_ended, stale_generation, response_key, is_object,
}
use realtime_voice_agent.Worker.Response.Playback.{
  find_record, check_end, is_expected, settle_end, end_record,
}
use realtime_voice_agent.Worker.Response.Phases.{
  Phase, idle, streaming, playing_out, stopping, is_object-some,
}

-- A playback that has not been stopped is the session's, and has not ended.
pub record Plays (c : Coordinator) (i : ℕ) (r : ResponseRecord) : Type 0 where
  pub unended : r.playback_ended ≡ false
  pub session : c.session.active_playback ≡ some r.target
  pub status : (c.active ≡ some i) ⊎ ((c.active ≡ none) × (is_some r.outcome ≡ true))

pub Phase-Plays :
    (c : Coordinator) (i : ℕ) (r : ResponseRecord)
    → Phase c
    → c.playback ≡ some i
    → get i c.objects ≡ some r
    → r.stop_sent ≡ false
    → Plays c i r
Phase-Plays c i r (idle a p s) h g u = absurd (cc)
Phase-Plays c i r (streaming j x a p f o st en s) h g u =
    let same : j ≡ i = ground arith in
    let equal : x ≡ r = ground (arith, same) in
    record {
      unended = ground (arith, equal);
      session = ground (arith, equal);
      status = inl (ground (arith, same));
    }
Phase-Plays c i r (playing_out j x a p f o st en s) h g u =
    let same : j ≡ i = ground arith in
    let equal : x ≡ r = ground (arith, same) in
    record {
      unended = ground (arith, equal);
      session = ground (arith, equal);
      status = inr (a, ground (arith, equal));
    }
Phase-Plays c i r (stopping j x a p f o st en s) h g u =
    let same : j ≡ i = ground arith in
    let equal : x ≡ r = ground (arith, same) in absurd (ground (arith, equal))

pub ref_eq_self : (p : PlaybackRef) → ref_eq p p ≡ true
ref_eq_self p = ground (arith, eq_refl p.connection_epoch, eq_refl p.generation)

-- The session after a cancellation that applies.
abbrev pub cancelled : Session → Session
cancelled s = record s { generation = s.generation + 1; active_playback = none }

pub cancel_playback-active :
    (s : Session) (p : PlaybackRef)
    → s.closed ≡ false
    → s.active_playback ≡ some p
    → cancel_playback p s ≡ (cancelled s, applied)
unfolding cancel_playback
cancel_playback-active s p live h = ground (arith, ref_eq_self p)

pub finish_playback-active :
    (s : Session) (p : PlaybackRef)
    → s.closed ≡ false
    → s.active_playback ≡ some p
    → finish_playback p s ≡ (record s { active_playback = none }, true)
unfolding finish_playback
finish_playback-active s p live h = ground (arith, ref_eq_self p)

pub find_record_cases :
    (id : Text) (generation : ℕ) (c : Coordinator)
    → (find_record id generation c ≡ none)
      ⊎ ((i : ℕ) × (r : ResponseRecord) × (find_record id generation c ≡ some (i, r))
          × (get i c.objects ≡ some r))
unfolding find_record
find_record_cases id generation c = elim (Option-cases (get (id, generation) c.records)) [
  | inl e ↦ inl (ground (arith, e))
  | inr (i, e) ↦ elim (Option-cases (get i c.objects)) [
    | inl f ↦ inl (ground (arith, e, f))
    | inr (r, f) ↦ inr (i, r, ground (arith, e, f), f)
  ]
]

-- A playback whose response has an outcome is no longer active.
pub ended_active :
    (c : Coordinator) (i : ℕ) (r : ResponseRecord)
    → Phase c
    → c.playback ≡ some i
    → get i c.objects ≡ some r
    → is_some r.outcome ≡ true
    → c.active ≡ none
ended_active c i r (idle a p s) h g o = a
ended_active c i r (streaming j x a p f n st en s) h g o =
    let same : j ≡ i = ground arith in
    let equal : x ≡ r = ground (arith, same) in absurd (ground (arith, equal))
ended_active c i r (playing_out j x a p f n st en s) h g o = a
ended_active c i r (stopping j x a p f n st en s) h g o = a

pub stopped_session :
    (c : Coordinator) (i : ℕ) (r : ResponseRecord)
    → Phase c
    → c.playback ≡ some i
    → get i c.objects ≡ some r
    → r.stop_sent ≡ true
    → c.session.active_playback ≡ none
stopped_session c i r (idle a p s) h g o = s
stopped_session c i r (streaming j x a p f n st en s) h g o =
    let same : j ≡ i = ground arith in
    let equal : x ≡ r = ground (arith, same) in absurd (ground (arith, equal))
stopped_session c i r (playing_out j x a p f n st en s) h g o =
    let same : j ≡ i = ground arith in
    let equal : x ≡ r = ground (arith, same) in absurd (ground (arith, equal))
stopped_session c i r (stopping j x a p f n st en s) h g o = s

pub unstopped_completed :
    (c : Coordinator) (i : ℕ) (r : ResponseRecord)
    → Phase c
    → c.playback ≡ some i
    → get i c.objects ≡ some r
    → is_some r.outcome ≡ true
    → r.stop_sent ≡ false
    → r.outcome ≡ some ResponseOutcome.completed
unstopped_completed c i r (idle a p s) h g o u = absurd (cc)
unstopped_completed c i r (streaming j x a p f n st en s) h g o u =
    let same : j ≡ i = ground arith in
    let equal : x ≡ r = ground (arith, same) in absurd (ground (arith, equal))
unstopped_completed c i r (playing_out j x a p f n st en s) h g o u =
    let same : j ≡ i = ground arith in
    let equal : x ≡ r = ground (arith, same) in ground (arith, equal)
unstopped_completed c i r (stopping j x a p f n st en s) h g o u =
    let same : j ≡ i = ground arith in
    let equal : x ≡ r = ground (arith, same) in absurd (ground (arith, equal))

is_expected_some :
    (r : ResponseRecord) (outcome : PlaybackOutcome)
    → is_expected r outcome ≡ true
    → is_some r.outcome ≡ true
unfolding is_expected
is_expected_some r outcome h = ground arith

-- The end of a playback is refused with the coordinator as it was, or is settled for the record that
-- plays, whose response has an outcome.
pub end_record_cases :
    (i : ℕ) (r : ResponseRecord) (outcome : PlaybackOutcome) (samples : ℕ) (last : Option ℕ)
    (c : Coordinator)
    → ((x : ResponseError) × (end_record i r outcome samples last c ≡ (c, err x)))
      ⊎ ((c.playback ≡ some i)
          × (is_some r.outcome ≡ true)
          × (end_record i r outcome samples last c ≡ settle_end i r c))
unfolding end_record
end_record_cases i r outcome samples last c = elim (Bool-cases r.playback_ended) [
  | inl e ↦ inl (duplicate_playback_ended, ground (arith, e))
  | inr e ↦ elim (Bool-cases (is_object i c.playback)) [
    | inr f ↦ inl (stale_generation, ground (arith, e, f))
    | inl f ↦ elim (Option-cases (check_end r outcome samples last)) [
      | inr (x, g) ↦ inl (x, ground (arith, e, f, g))
      | inl g ↦ inr (
        is_object-some i c.playback f,
        is_expected_some r outcome (unfold check_end in ground arith),
        ground (arith, e, f, g),
      )
    ]
  ]
]
