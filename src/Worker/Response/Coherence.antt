-- ===== src/Worker/Response/Coherence.antt =====
-- The phases over the calls that stop and end a playback.
use realtime_voice_agent.Common.{
  ℕ, ◌≡◌, refl, ◌∙◌, true, false, not, ◌||◌, inl, inr, Option, none, some, arith, Text, text_key,
  nat_key, nat_eq, nat_eq_iff, eq_refl, is_some, Bool-cases, is_ok, if◌then◌else◌,
}
use realtime_voice_agent.Common.Dict.{get, get-put}
use realtime_voice_agent.Worker.VoiceSession.{Session}
use realtime_voice_agent.Worker.Response.{
  Coordinator, ResponseRecord, ResponseOutcome, PlaybackOutcome, is_object, write, fenced_record,
  fence,
}
use realtime_voice_agent.Worker.Response.Playback.{
  start_record, playback_started, needs_finish, settle_end, end_record, playback_ended,
}
use realtime_voice_agent.Worker.Response.Phases.{
  Phase, idle, streaming, playing_out, stopping, SameCore-Phase, remember_terminal-SameCore,
  unchanged-Phase, is_object-some,
}
use realtime_voice_agent.Worker.Response.Views.{
  Plays, Phase-Plays, cancelled, cancel_playback-active, finish_playback-active, find_record_cases,
  ended_active, stopped_session, unstopped_completed, end_record_cases,
}

abbrev started_at : ℕ → ResponseRecord → Coordinator → Coordinator
started_at i r c = write i (record r { playback_started = true }) c

module _ (c : Coordinator) (i : ℕ) (r : ResponseRecord) (g : get i c.objects ≡ some r) where
  abbrev at_object : ℕ → ResponseRecord → ResponseRecord
  at_object j x = if nat_eq i j then record r { playback_started = true } else x

  started_at-get :
      (j : ℕ) (x : ResponseRecord)
      → get j c.objects ≡ some x
      → get j (started_at i r c).objects ≡ some (at_object j x)
  unfolding write
  started_at-get j x f =
      ground (arith, f, get-put i j (record r { playback_started = true }) c.objects)

  -- The record in question, or one with the same fields but for `playback_started`.
  record SameFields (y x : ResponseRecord) : Type 0 where
    outcome : y.outcome ≡ x.outcome
    stop : y.stop_sent ≡ x.stop_sent
    ended : y.playback_ended ≡ x.playback_ended
    target : y.target ≡ x.target

  at_object-same :
      (j : ℕ) (x : ResponseRecord) → get j c.objects ≡ some x → SameFields (at_object j x) x
  at_object-same j x f = elim (Bool-cases (nat_eq i j)) [
    | inl e ↦
        let equal : r ≡ x = ground (arith, e, nat_eq_iff i j) in
        rw e (record {
          outcome = ground (arith, equal);
          stop = ground (arith, equal);
          ended = ground (arith, equal);
          target = ground (arith, equal);
        })
    | inr e ↦ rw e (record { outcome = refl; stop = refl; ended = refl; target = refl })
  ]

  started_at-Phase : Phase c → Phase (started_at i r c)
  started_at-Phase (idle a p s) = unfold write in idle a p s
  started_at-Phase (streaming j x a p f o st en s) =
      let y = at_object-same j x f in
      streaming j (at_object j x) (unfold write in a) (unfold write in p) (started_at-get j x f)
        (y.outcome ∙ o) (y.stop ∙ st) (y.ended ∙ en) (unfold write in ground (arith, s, y.target))
  started_at-Phase (playing_out j x a p f o st en s) =
      let y = at_object-same j x f in
      playing_out j (at_object j x) (unfold write in a) (unfold write in p) (started_at-get j x f)
        (y.outcome ∙ o) (y.stop ∙ st) (y.ended ∙ en) (unfold write in ground (arith, s, y.target))
  started_at-Phase (stopping j x a p f o st en s) =
      let y = at_object-same j x f in
      stopping j (at_object j x) (unfold write in a) (unfold write in p) (started_at-get j x f)
        (ground (arith, o, y.outcome)) (y.stop ∙ st) (y.ended ∙ en) (unfold write in s)

module _ (c : Coordinator) (live : c.session.closed ≡ false) where
  -- The state in which a fence that goes through leaves the coordinator, before the queue is trimmed.
  fence-stopping :
      (i : ℕ) (r : ResponseRecord) (outcome : ResponseOutcome) (code : Option Text)
      → Plays c i r
      → c.playback ≡ some i
      → (r' : ResponseRecord) → r' ≡ fenced_record r (is_object i c.active) outcome code
      → (session : Session) → session.active_playback ≡ none
      → Phase (record (write i r' c) {
        session = session;
        active = if is_object i c.active then none else c.active;
      })
  unfolding write fenced_record
  fence-stopping i r outcome code v p r' e session none_active =
      stopping i r' (ground (arith, v.status, eq_refl i)) p
        (ground (arith, eq_refl i, get-put i i r' c.objects))
        (ground (arith, v.status, eq_refl i, e)) (ground (arith, e)) (ground (arith, v.unended, e))
        none_active

  pub fence-Phase :
      (i : ℕ) (r : ResponseRecord) (outcome : ResponseOutcome) (code : Option Text)
      → get i c.objects ≡ some r
      → Phase c
      → Phase (fence i r outcome code c).0
  unfolding fence
  fence-Phase i r outcome code g v =
      elim (Bool-cases (not (is_object i c.playback) || r.stop_sent)) [
        | inl e ↦ unchanged-Phase c _ (ground (arith, e)) v
        | inr e ↦
            let p = is_object-some i c.playback (ground arith) in
            let x = Phase-Plays c i r v p g (ground arith) in
            let r' = fenced_record r (is_object i c.active) outcome code in
            let session = cancelled c.session in
            let d : Coordinator = record (write i r' c) {
              session = session;
              active = if is_object i c.active then none else c.active;
            } in
            rw (e, cancel_playback-active c.session r.target live x.session)
              (SameCore-Phase d _ (remember_terminal-SameCore r' d)
                (fence-stopping i r outcome code x p r' refl session refl))
      ]

  start_record-Phase :
      (i : ℕ) (r : ResponseRecord) (n : ℕ)
      → get i c.objects ≡ some r
      → Phase c
      → Phase (start_record i r n c).0
  unfolding start_record
  start_record-Phase i r n g v = elim (Bool-cases (is_ok (start_record i r n c).1)) [
    | inl e ↦ unchanged-Phase (started_at i r c) _ (ground (arith, e)) (started_at-Phase c i r g v)
    | inr e ↦ unchanged-Phase c _ (ground (arith, e)) v
  ]

  pub playback_started-Phase :
      (id : Text) (generation n : ℕ) → Phase c → Phase (playback_started id generation n c).0
  unfolding playback_started
  playback_started-Phase id generation n v = elim (find_record_cases id generation c) [
    | inl e ↦ unchanged-Phase c _ (ground (arith, e)) v
    | inr (i, r, e, g) ↦ rw (e, playback_started) (start_record-Phase i r n g v)
  ]

  pub settle_end-Phase :
      (i : ℕ) (r : ResponseRecord)
      → c.playback ≡ some i
      → get i c.objects ≡ some r
      → is_some r.outcome ≡ true
      → Phase c
      → Phase (settle_end i r c).0
  unfolding settle_end needs_finish write
  settle_end-Phase i r p g o v = elim (Bool-cases r.stop_sent) [
    | inl e ↦
        idle (ground (arith, e, ended_active c i r v p g o)) (ground (arith, e))
          (ground (arith, e, stopped_session c i r v p g e))
    | inr e ↦
        let x = Phase-Plays c i r v p g e in
        let f = finish_playback-active c.session r.target live x.session in
        let done = unstopped_completed c i r v p g o e in
        idle (ground (arith, f, e, ended_active c i r v p g o)) (ground (arith, f, e, done))
          (ground (arith, f, e, done))
  ]

  end_record-Phase :
      (i : ℕ) (r : ResponseRecord) (outcome : PlaybackOutcome) (samples : ℕ) (last : Option ℕ)
      → get i c.objects ≡ some r
      → Phase c
      → Phase (end_record i r outcome samples last c).0
  end_record-Phase i r outcome samples last g v =
      elim (end_record_cases i r outcome samples last c) [
        | inl (x, e) ↦ unchanged-Phase c _ (rw e) v
        | inr (p, o, e) ↦ rw e (settle_end-Phase i r p g o v)
      ]

  pub playback_ended-Phase :
      (id : Text) (generation : ℕ) (outcome : PlaybackOutcome) (samples : ℕ) (last : Option ℕ)
      → Phase c
      → Phase (playback_ended id generation outcome samples last c).0
  unfolding playback_ended
  playback_ended-Phase id generation outcome samples last v =
      elim (find_record_cases id generation c) [
        | inl e ↦ unchanged-Phase c _ (ground (arith, e)) v
        | inr (i, r, e, g) ↦ rw (e, playback_ended) (end_record-Phase i r outcome samples last g v)
      ]
