-- ===== src/Media/Gateway/Traces.antt =====
-- The events of a session, as moves.
use realtime_voice_agent.Common.{
  ℕ, ◌≡◌, refl, true, Option, none, some, List, [], ◌∷◌, arith, Bool-cases, inl, inr, Text, ok, err,
}
use realtime_voice_agent.Common.Dict.{get}
use realtime_voice_agent.Media.Gateway.Reorder.{expire_reorder_gap}
use realtime_voice_agent.Media.Gateway.{
  Cipher, Session, UdpGrant, Address, Timer, pending, new_session,
}
use realtime_voice_agent.Media.Gateway.Handle.{Handled, Moment, handle}
use realtime_voice_agent.Media.Gateway.Events.{
  count_received, push_dropping, enqueue, after_handle, expire, close, Event, arrives, works,
  gap_ends, expires, closes, sends, work, step, run,
}
use realtime_voice_agent.Media.Gateway.Moves.{View, view, Move, moves_keep, IsDrained}
use realtime_voice_agent.Media.Gateway.Drained.{Keeps, view-Keeps}
use realtime_voice_agent.Media.Gateway.Keeps.{Keeps-trans, expire_reorder_gap-Keeps}
use realtime_voice_agent.Media.Gateway.Sending.{send_audio-Keeps}
use realtime_voice_agent.Media.Gateway.Handling.{handle-Keeps}

view-push_dropping :
    (datagram : Text) (addr : Address) (s : Session) → view (push_dropping datagram addr s) ≡ view s
unfolding push_dropping
view-push_dropping datagram addr s = go s.queue refl
  where
    go :
        (q : List (Option (Text × Address)))
        → s.queue ≡ q
        → view (push_dropping datagram addr s) ≡ view s
    go [] e = ground arith
    go (none ∷ rest) e = ground arith
    go (some d ∷ rest) e = ground arith

pub view-enqueue :
    (datagram : Text) (addr : Address) (s : Session) → view (enqueue datagram addr s) ≡ view s
unfolding enqueue
view-enqueue datagram addr s = ground (arith, view-push_dropping datagram addr (count_received s))

view-after_handle : (r : Handled) → view (after_handle r) ≡ view r.0
view-after_handle (s, ok done) = refl
view-after_handle (s, err e) = refl

pub new_session-IsDrained :
    (g : UdpGrant) (queue_size : ℕ) → IsDrained (view (new_session g queue_size))
unfolding new_session get
new_session-IsDrained g queue_size = record { cursor = λ e h. refl; idle = λ h. refl }

module _ (cipher : Cipher) where
  work-Keeps : (m : Moment) (s : Session) → IsDrained (view s) → Keeps cipher s (work cipher m s)
  unfolding work
  work-Keeps m s d = elim (Bool-cases s.running) [
    | inr b ↦ view-Keeps cipher s _ (ground arith) d
    | inl b ↦ go b s.queue refl
  ]
    where
      go :
          s.running ≡ true
          → (q : List (Option (Text × Address))) → s.queue ≡ q
          → Keeps cipher s (work cipher m s)
      go b [] e = view-Keeps cipher s _ (ground arith) d
      go b (none ∷ rest) e = view-Keeps cipher s _ (ground arith) d
      go b (some (datagram, addr) ∷ rest) e =
          let v = handle-Keeps cipher datagram addr m (record s { queue = rest }) d in
          let worked : work cipher m s
              ≡ after_handle (handle cipher datagram addr m (record s { queue = rest })) =
            ground arith in
          rw worked (record {
            moves =
                rw (view-after_handle (handle cipher datagram addr m (record s { queue = rest })))
                  v.moves;
            drained =
                rw (view-after_handle (handle cipher datagram addr m (record s { queue = rest })))
                  v.drained;
          })

  gap-Keeps :
      (t : Timer) (s : Session)
      → IsDrained (view s)
      → Keeps cipher s (elim t [ pending ↦ expire_reorder_gap s | other ↦ s ])
  gap-Keeps pending s d = expire_reorder_gap-Keeps cipher s d
  gap-Keeps _ s d = view-Keeps cipher s s refl d

  pub step-Keeps : (e : Event) (s : Session) → IsDrained (view s) → Keeps cipher s (step cipher e s)
  unfolding step expire close
  step-Keeps (arrives datagram addr) s d = view-Keeps cipher s _ (view-enqueue datagram addr s) d
  step-Keeps (works m) s d = work-Keeps m s d
  step-Keeps gap_ends s d = gap-Keeps s.reorder_timer s d
  step-Keeps expires s d = view-Keeps cipher s _ (ground arith) d
  step-Keeps closes s d = view-Keeps cipher s _ (ground arith) d
  step-Keeps (sends now sending_now transport payload timestamp generation) s d =
      send_audio-Keeps cipher now sending_now transport payload timestamp generation s d

  pub run-Keeps :
      (es : List Event) (s : Session) → IsDrained (view s) → Keeps cipher s (run cipher es s)
  unfolding run
  run-Keeps [] s d = view-Keeps cipher s s refl d
  run-Keeps (e ∷ es) s d =
      Keeps-trans cipher s (step cipher e s) _ (step-Keeps e s d) (run-Keeps es (step cipher e s))

  -- What every move keeps holds of a session after any events, if it holds of a new one.
  pub run_keeps {ℓ} :
      (P : View → Type ℓ)
      → ((v w : View) → Move cipher v w → P v → P w)
      → (g : UdpGrant) (queue_size : ℕ) (es : List Event) → P (view (new_session g queue_size))
      → P (view (run cipher es (new_session g queue_size)))
  run_keeps P keep g queue_size es h =
      moves_keep cipher P keep (run-Keeps es _ (new_session-IsDrained g queue_size)).moves h
