-- ===== src/Media/Gateway/Keeps.antt =====
-- The operations on the buffer and the sending of packets, as moves of a drained session.
use realtime_voice_agent.Common.{
  ℕ, ◌+◌, ◌≤◌, ◌<◌, ◌≡◌, refl, none, some, [], ◌∷◌, nat_key, ltb, leb, arith, Option-cases,
  Bool-cases, inl, inr,
}
use realtime_voice_agent.Common.Dict.{Dict, get}
use realtime_voice_agent.Media.Gateway.{Cipher, Session, Packet, no_timer}
use realtime_voice_agent.Media.Gateway.Send.{}
use realtime_voice_agent.Media.Gateway.Reorder.{
  resync, resync_media_cursor, buffer_at, buffer_media, first_key, skip_gap, expire_reorder_gap,
  drain_reorder,
}
use realtime_voice_agent.Media.Gateway.Moves.{
  view, IsGenuine, Moves, here, only, Moves-trans, resyncs, skips, IsDrained,
}
use realtime_voice_agent.Media.Gateway.Drained.{
  Keeps, view-Keeps, buffer_at-Keeps, drain_reorder-Moves, drain_reorder-IsDrained,
}

resync_media_cursor_lem :
    (e k : ℕ) (s : Session)
    → s.next_audio_sequence ≡ some e
    → e + 4 ≤ k
    → resync_media_cursor k s ≡ resync k e s
unfolding resync_media_cursor
resync_media_cursor_lem e k s c l = ground arith

first_key_least :
    (d : Dict ℕ Packet) (k j : ℕ) (p : Packet) → first_key d ≡ some k → get j d ≡ some p → k ≤ j
unfolding first_key get
first_key_least [] k j p f g = absurd (ground arith)
first_key_least ((i, q) ∷ d) k j p f g = elim (Option-cases (first_key d)) [
  | inl e ↦ ground (arith, e, first_key_none d j)
  | inr (m, e) ↦ ground (arith, e, first_key_least d m j p e)
]
  where
    first_key_none : (d : Dict ℕ Packet) (j : ℕ) → first_key d ≡ none → get j d ≡ none
    first_key_none [] j e = refl
    first_key_none ((i, q) ∷ d) j e = absurd (ground arith)

data BufferOutcome (k : ℕ) (p : Packet) (s t : Session) : Type 0 where
  counted : view t ≡ view s → BufferOutcome k p s t
  inside :
      (e : ℕ)
      → s.next_audio_sequence ≡ some e
      → e ≤ k
      → k < e + 4
      → t ≡ buffer_at k p e s
      → BufferOutcome k p s t
  beyond :
      (e : ℕ)
      → s.next_audio_sequence ≡ some e
      → e + 4 ≤ k
      → t ≡ buffer_at k p k (resync_media_cursor k s)
      → BufferOutcome k p s t

buffer_media-BufferOutcome :
    (k : ℕ) (p : Packet) (s : Session) → BufferOutcome k p s (buffer_media k p s)
unfolding buffer_media
buffer_media-BufferOutcome k p s = elim (Option-cases s.next_audio_sequence) [
  | inl c ↦ counted (ground arith)
  | inr (e, c) ↦ elim (Bool-cases (ltb k e)) [
    | inl f ↦ counted (ground arith)
    | inr f ↦ elim (Bool-cases (leb (e + 4) k)) [
      | inr h ↦ inside e c (ground arith) (ground arith) (ground arith)
      | inl h ↦ beyond e c (ground arith) (ground arith)
    ]
  ]
]

module _ (cipher : Cipher) where
  pub resync-Keeps :
      (e k : ℕ) (s : Session)
      → s.next_audio_sequence ≡ some e
      → e + 4 ≤ k
      → Keeps cipher s (resync k e s)
  unfolding resync get
  resync-Keeps e k s c l = record {
    moves = only cipher (resyncs e k c (omega arith));
    drained = record { cursor = λ i g. refl; idle = λ g. refl };
  }

  pub Keeps-trans :
      (s t u : Session)
      → Keeps cipher s t
      → (IsDrained (view t) → Keeps cipher t u)
      → Keeps cipher s u
  Keeps-trans s t u a b = record {
    moves = Moves-trans cipher a.moves (b a.drained).moves;
    drained = (b a.drained).drained;
  }

  pub buffer_media-Keeps :
      (k : ℕ) (p : Packet) (s : Session)
      → IsGenuine cipher s.grant k p
      → IsDrained (view s)
      → Keeps cipher s (buffer_media k p s)
  buffer_media-Keeps k p s g d = elim (buffer_media-BufferOutcome k p s) [
    | counted e ↦ view-Keeps cipher s _ e d
    | inside e c l u h ↦ rw h (buffer_at-Keeps cipher e k p s c l u g d)
    | beyond e c l h ↦
        rw (h, resync_media_cursor_lem e k s c l)
          (Keeps-trans s (resync k e s) _ (resync-Keeps e k s c l) (
            unfold resync in
            buffer_at-Keeps cipher k k p (resync k e s) refl (omega arith) (omega arith) g))
  ]

  skip_gap-Moves :
      (k : ℕ) (s : Session)
      → first_key s.reorder ≡ some k
      → Moves cipher (view s) (view (skip_gap k s))
  unfolding skip_gap
  skip_gap-Moves k s f = elim (Option-cases s.next_audio_sequence) [
    | inl c ↦ let same : view (skip_gap k s) ≡ view s = ground arith in rw same here
    | inr (e, c) ↦ elim (Bool-cases (ltb e k)) [
      | inr l ↦ let same : view (skip_gap k s) ≡ view s = ground arith in rw same here
      | inl l ↦
          let moved : view (skip_gap k s) ≡ record (view s) { cursor = some k } = ground arith in
          rw moved
            (only cipher (skips e k c (ground arith) (λ j p. first_key_least s.reorder k j p f)))
    ]
  ]

  skip_gap_cursor :
      (k : ℕ) (s : Session)
      → first_key s.reorder ≡ some k
      → IsDrained (view s)
      → (e : ℕ) × ((skip_gap k s).next_audio_sequence ≡ some e)
  unfolding skip_gap first_key
  skip_gap_cursor k s f d = elim (Option-cases s.next_audio_sequence) [
    | inl c ↦ absurd (ground (arith, d.idle c))
    | inr (e, c) ↦ elim (Bool-cases (ltb e k)) [
      | inl l ↦ (k, ground arith)
      | inr l ↦ (e, ground arith)
    ]
  ]

  pub expire_reorder_gap-Keeps :
      (s : Session) → IsDrained (view s) → Keeps cipher s (expire_reorder_gap s)
  unfolding expire_reorder_gap
  expire_reorder_gap-Keeps s d = elim (Option-cases (first_key s.reorder)) [
    | inl f ↦ view-Keeps cipher s _ (ground arith) d
    | inr (k, f) ↦ elim (Bool-cases s.closed) [
      | inl h ↦ view-Keeps cipher s _ (ground arith) d
      | inr h ↦
          let after : Session = record (skip_gap k s) { reorder_timer = no_timer } in
          let same : expire_reorder_gap s ≡ drain_reorder after = ground arith in
          let (e, c) = skip_gap_cursor k s f d in
          rw same (record {
            moves =
                Moves-trans cipher {v = view after} (skip_gap-Moves k s f)
                  (drain_reorder-Moves cipher after e c);
            drained = drain_reorder-IsDrained after e c;
          })
    ]
  ]
