-- ===== src/Worker/Response/Outcomes.antt =====
-- How a completion and a fence can come out, with the coordinator that each leaves.
use realtime_voice_agent.Common.{
  ℕ, ◌≡◌, true, false, not, ◌&&◌, ◌||◌, ◌⊎◌, inl, inr, Option, none, some, arith, Text, is_some,
  Bool-cases, ok, err, if◌then◌else◌,
}
use realtime_voice_agent.Worker.VoiceSession.{Session, PlaybackRef, cancel_playback}
use realtime_voice_agent.Worker.Response.{
  Coordinator, ResponseRecord, ResponseOutcome, ResponseError, stale_generation,
  response_has_no_media, is_object, write, complete, fenced_record, fence, remember_terminal,
  is_applied,
}

abbrev pub completed_record : ResponseRecord → ResponseRecord
completed_record r = record r { outcome = some ResponseOutcome.completed }

abbrev pub completed_state : ℕ → ResponseRecord → Coordinator → Coordinator
completed_state i r c = record (write i (completed_record r) c) { active = none }

pub complete_cases :
    (i : ℕ) (r : ResponseRecord) (c : Coordinator)
    → ((x : ResponseError) × (complete i r c ≡ (c, err x)))
      ⊎ (complete i r c ≡ (remember_terminal (completed_record r) (completed_state i r c), ok tt))
unfolding complete
complete_cases i r c =
    elim (Bool-cases (is_some r.first_media_sequence && is_some r.last_media_sequence)) [
      | inr e ↦ inl (response_has_no_media, ground (arith, e))
      | inl e ↦ elim (Bool-cases (is_object i c.active && is_object i c.playback)) [
        | inr f ↦ inl (stale_generation, ground (arith, e, f))
        | inl f ↦ inr (rw (e, f))
      ]
    ]

-- A cancellation that does not apply leaves the session as it is.
cancel_playback_cases :
    (p : PlaybackRef) (s : Session)
    → ((is_applied (cancel_playback p s).1 ≡ false) × ((cancel_playback p s).0 ≡ s))
      ⊎ (is_applied (cancel_playback p s).1 ≡ true)
unfolding cancel_playback
cancel_playback_cases p s = ground arith

abbrev pub fenced_state :
    ℕ → ResponseRecord → ResponseOutcome → Option Text → Coordinator → Coordinator
fenced_state i r outcome code c =
    record (write i (fenced_record r (is_object i c.active) outcome code) c) {
      session = (cancel_playback r.target c.session).0;
      active = if is_object i c.active then none else c.active;
    }

pub fence_cases :
    (i : ℕ) (r : ResponseRecord) (outcome : ResponseOutcome) (code : Option Text) (c : Coordinator)
    → ((x : ResponseError) × (fence i r outcome code c ≡ (c, err x)))
      ⊎ ((is_applied (cancel_playback r.target c.session).1 ≡ true)
          × (fence i r outcome code c ≡ (
            remember_terminal
                (fenced_record r (is_object i c.active) outcome code)
                (fenced_state i r outcome code c),
            ok (cancel_playback r.target c.session).0.generation,
          )))
unfolding fence
fence_cases i r outcome code c = elim (Bool-cases (not (is_object i c.playback) || r.stop_sent)) [
  | inl e ↦ inl (stale_generation, ground (arith, e))
  | inr e ↦ elim (cancel_playback_cases r.target c.session) [
    | inl (f, same) ↦ inl (stale_generation, ground (arith, e, f, same))
    | inr f ↦ inr (f, rw (e, f))
  ]
]
