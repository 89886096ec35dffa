-- ===== src/Media/Gateway/Drained.antt =====
-- The loop of `_drain_reorder`, and the operations on the buffer, as moves.
use realtime_voice_agent.Common.{
  ℕ, zero, suc, ◌+◌, ◌≤◌, ◌<◌, ◌≡◌, refl, sym, some, [], ◌∷◌, nat_key, nat_eq, leb, length, arith,
  Option-cases, Bool-cases, inl, inr,
}
use realtime_voice_agent.Common.Dict.{Dict, get, remove, length-remove-le}
use realtime_voice_agent.Media.Gateway.{Cipher, Session, Packet}
use realtime_voice_agent.Media.Gateway.Reorder.{
  hear, take_next, drain_loop, drain_reorder, settle_timer, buffer_at,
}
use realtime_voice_agent.Media.Gateway.Moves.{
  view, IsGenuine, Move, Moves, here, next, hears, takes, puts, IsDrained,
}

length-remove-lt :
    (k : ℕ) (p : Packet) (d : Dict ℕ Packet) → get k d ≡ some p → length (remove k d) < length d
unfolding get remove
length-remove-lt k p [] h = absurd (ground arith)
length-remove-lt k p ((j, q) ∷ d) h = ground (arith, length-remove-lt k p d, length-remove-le k d)

-- Nothing under the number that the loop stopped at, given as many rounds as packets and one more.
drain_loop-IsDrained :
    (rounds e : ℕ) (s : Session)
    → length s.reorder < rounds
    → s.next_audio_sequence ≡ some e
    → IsDrained (view (drain_loop rounds e s))
unfolding drain_loop take_next hear
drain_loop-IsDrained zero e s l c = absurd (omega arith)
drain_loop-IsDrained (suc rounds) e s l c = elim (Option-cases (get e s.reorder)) [
  | inl f ↦
      rw (f, drain_loop)
        (record { cursor = λ i g. ground (arith, f); idle = λ g. absurd (ground arith) })
  | inr (p, f) ↦
      rw (f, drain_loop)
        (drain_loop-IsDrained rounds (e + 1) (take_next e p s)
          (unfold take_next hear in omega (arith, length-remove-lt e p s.reorder f))
          (unfold take_next hear in refl))
]

view-settle_timer : (s : Session) → view (settle_timer s) ≡ view s
unfolding settle_timer
view-settle_timer s = ground arith

drain_cursor :
    (s : Session) (e : ℕ)
    → s.next_audio_sequence ≡ some e
    → drain_reorder s ≡ settle_timer (drain_loop (length s.reorder + 1) e s)
unfolding drain_reorder
drain_cursor s e c = ground arith

-- With a cursor, `_drain_reorder` comes to an end: no packet waits under the number that it stops at.
pub drain_reorder-IsDrained :
    (s : Session) (e : ℕ) → s.next_audio_sequence ≡ some e → IsDrained (view (drain_reorder s))
drain_reorder-IsDrained s e c =
    rw (drain_cursor s e c, view-settle_timer)
      (drain_loop-IsDrained (length s.reorder + 1) e s (omega arith) c)

module _ (cipher : Cipher) where
  take_next-Move :
      (e : ℕ) (p : Packet) (s : Session)
      → s.next_audio_sequence ≡ some e
      → get e s.reorder ≡ some p
      → Move cipher (view s) (view (take_next e p s))
  unfolding take_next hear
  take_next-Move e p s c f = takes e p c f

  drain_loop-Moves :
      (rounds e : ℕ) (s : Session)
      → s.next_audio_sequence ≡ some e
      → Moves cipher (view s) (view (drain_loop rounds e s))
  unfolding drain_loop
  drain_loop-Moves zero e s c = here
  drain_loop-Moves (suc rounds) e s c = elim (Option-cases (get e s.reorder)) [
    | inl f ↦ rw (f, drain_loop) here
    | inr (p, f) ↦
        rw (f, drain_loop)
          (next (take_next-Move e p s c f)
            (drain_loop-Moves rounds (e + 1) (take_next e p s) (unfold take_next hear in refl)))
  ]

  pub drain_reorder-Moves :
      (s : Session) (e : ℕ)
      → s.next_audio_sequence ≡ some e
      → Moves cipher (view s) (view (drain_reorder s))
  drain_reorder-Moves s e c =
      rw (drain_cursor s e c, view-settle_timer) (drain_loop-Moves (length s.reorder + 1) e s c)

  -- An operation on a drained session is made of moves and leaves it drained.
  pub record Keeps (s t : Session) : Type 0 where
    pub moves : Moves cipher (view s) (view t)
    pub drained : IsDrained (view t)

  -- An operation that changes nothing the view shows.
  pub view-Keeps : (s t : Session) → view t ≡ view s → IsDrained (view s) → Keeps s t
  view-Keeps s t e d = record { moves = rw e here; drained = rw e d }

  pub buffer_at-Keeps :
      (e k : ℕ) (p : Packet) (s : Session)
      → s.next_audio_sequence ≡ some e
      → e ≤ k
      → k < e + 4
      → IsGenuine cipher s.grant k p
      → IsDrained (view s)
      → Keeps s (buffer_at k p e s)
  unfolding buffer_at hear
  buffer_at-Keeps e k p s c l u g d = elim (Bool-cases (leb 4 (length s.reorder))) [
    | inr f ↦ rw f (record {
      moves = next (puts e k p c l u g) (drain_reorder-Moves _ e c);
      drained = drain_reorder-IsDrained _ e c;
    })
    | inl f ↦ elim (Bool-cases (nat_eq k e)) [
      | inr h ↦ rw (f, h) (record { moves = here; drained = d })
      | inl h ↦
          let same : e ≡ k = sym (ground arith) in
          rw (f, h)
            (record {
              moves =
                  next (hears e p c (d.cursor e c) (rw same g))
                    (drain_reorder-Moves _ (e + 1) refl);
              drained = drain_reorder-IsDrained _ (e + 1) refl;
            })
    ]
  ]
