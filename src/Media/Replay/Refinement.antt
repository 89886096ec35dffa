-- ===== src/Media/Replay/Refinement.antt =====
-- The 64-bit window against the list of all that was admitted.
use realtime_voice_agent.Common.{
  ℕ, zero, suc, ◌+◌, ◌-◌, ◌≤◌, ◌<◌, ◌≡◌, refl, subst, sym, ap, ◌∙◌, Bool, true, false, not, ◌&&◌,
  ◌||◌, inl, inr, Option, none, some, List, [], ◌∷◌, nat_key, nat_eq, nat_eq_iff, arith, ltb, leb,
  max, if◌then◌else◌, Option-cases, Bool-cases,
}
use realtime_voice_agent.Common
use realtime_voice_agent.Common.Bits.{
  test_bit, set_bit, shift_left, test_bit-set_bit, test_bit-shift_left, test_bit-shift_left_lt,
  test_bit-low_bits, one-test_bit,
}
use realtime_voice_agent.Media.Replay.{Window, init, above, can_accept, commit, advance, slide}
use realtime_voice_agent.Media.Replay.History.{max_of, admits, contains_above, contains-none}

-- The window stands for the sequences seen: its highest is theirs, and bit `d` tells whether the
-- sequence `d` below the highest is among them, for `d` below 64.
pub record Represents (w : Window) (seen : List ℕ) : Type 0 where
  pub top : w.highest ≡ max_of seen
  pub bits :
      (h d : ℕ)
      → max_of seen ≡ some h
      → d < 64
      → d ≤ h
      → test_bit w.bitmap d ≡ Common.contains seen (h - d)

pub init-Represents : Represents init []
unfolding init
init-Represents = record { top = refl; bits = λ h d e l m. absurd (cc) }

-- A window admits a sequence exactly when the rule on all that it has seen does.
pub can_accept-admits :
    (w : Window) (seen : List ℕ) (s : ℕ) → Represents w seen → can_accept s w ≡ admits seen s
unfolding can_accept admits
can_accept-admits w seen s v = elim (Option-cases (max_of seen)) [
  | inl e ↦ ground (arith, v.top, e)
  | inr (h, e) ↦ elim (Bool-cases (ltb h s)) [
    | inl f ↦ ground (arith, v.top, e, f)
    | inr f ↦ elim (Bool-cases (ltb (h - s) 64)) [
      | inr g ↦ ground (arith, v.top, e, f, g)
      | inl g ↦
          let b = v.bits h (h - s) e (ground arith) (omega arith) in
          let i : h - (h - s) ≡ s = ground (arith, f) in ground (arith, v.top, e, f, g, b, i)
    ]
  ]
]

slide_zero : (b k : ℕ) → test_bit (slide b k) 0 ≡ true
unfolding slide
slide_zero b k = ground (
  arith,
  test_bit-low_bits 64 (set_bit (shift_left b k) 0) 0,
  test_bit-set_bit (shift_left b k) 0 0,
)

slide_new : (b k d : ℕ) → 0 < d → d < k → test_bit (slide b k) d ≡ false
unfolding slide
slide_new b k d p l = ground (
  arith,
  test_bit-low_bits 64 (set_bit (shift_left b k) 0) d,
  test_bit-set_bit (shift_left b k) 0 d,
  test_bit-shift_left_lt b k d l,
)

slide_old : (b k d : ℕ) → 0 < k → k + d < 64 → test_bit (slide b k) (k + d) ≡ test_bit b d
unfolding slide
slide_old b k d p l = ground (
  arith,
  test_bit-low_bits 64 (set_bit (shift_left b k) 0) (k + d),
  test_bit-set_bit (shift_left b k) 0 (k + d),
  test_bit-shift_left b k d,
)

module _ (w : Window) (seen : List ℕ) (v : Represents w seen) (s : ℕ) where
  -- The bits after a slide up from `h` to `s`, against the sequences seen and `s`.
  pub slide_bits :
      (h d : ℕ)
      → max_of seen ≡ some h
      → h < s
      → d < 64
      → d ≤ s
      → test_bit (slide w.bitmap (s - h)) d ≡ Common.contains (s ∷ seen) (s - d)
  slide_bits h zero e l m n = ground (arith, slide_zero w.bitmap (s - h))
  slide_bits h (suc d) e l m n = elim (Bool-cases (ltb (suc d) (s - h))) [
    | inl f ↦ ground (
      arith,
      slide_new w.bitmap (s - h) (suc d) (omega arith) (ground (arith, f)),
      contains_above seen h (s - suc d) e (ground (arith, f)),
    )
    | inr f ↦
        let k = suc d - (s - h) in
        let old : test_bit (slide w.bitmap (s - h)) (s - h + k) ≡ test_bit w.bitmap k =
          slide_old w.bitmap (s - h) k (omega arith) (ground (arith, f)) in
        let place : s - h + k ≡ suc d = ground (arith, f) in
        let same : h - k ≡ s - suc d = ground (arith, f) in
        ground (arith, old, place, same, v.bits h k e (omega arith) (ground (arith, f)))
  ]

  -- A jump of 64 or more leaves nothing of the old window in sight.
  jump_bits :
      (h d : ℕ)
      → max_of seen ≡ some h
      → h + 64 ≤ s
      → d < 64
      → test_bit 1 d ≡ Common.contains (s ∷ seen) (s - d)
  jump_bits h d e l m = elim (Bool-cases (nat_eq 0 d)) [
    | inl f ↦ ground (arith, f, one-test_bit d)
    | inr f ↦ ground (arith, f, one-test_bit d, contains_above seen h (s - d) e (ground (arith, f)))
  ]

  first_bits : (b d : ℕ) → max_of seen ≡ none → d ≤ s → test_bit (slide b (s + 1)) d ≡ nat_eq 0 d
  first_bits b zero e l = ground (arith, slide_zero b (s + 1))
  first_bits b (suc d) e l = ground (arith, slide_new b (s + 1) (suc d) (omega arith) (omega arith))

  pub first_contains :
      (d : ℕ) → max_of seen ≡ none → d ≤ s → Common.contains (s ∷ seen) (s - d) ≡ nat_eq 0 d
  first_contains d e l = elim (Bool-cases (nat_eq 0 d)) [
    | inl f ↦ ground (arith, f)
    | inr f ↦ ground (arith, f, contains-none seen (s - d) e)
  ]

  -- The bits that either end leaves when it moves up to a new highest sequence.
  advance_bits :
      (d : ℕ)
      → above s w.highest ≡ true
      → d < 64
      → d ≤ s
      → test_bit (advance s w) d ≡ Common.contains (s ∷ seen) (s - d)
  unfolding advance
  advance_bits d u m n = elim (Option-cases (max_of seen)) [
    | inl e ↦
        ground (arith, v.top, e, first_bits w.bitmap d e n, first_contains d e n, one-test_bit d)
    | inr (h, e) ↦ elim (Bool-cases (leb 64 (s - h))) [
      | inl f ↦ ground (arith, v.top, e, f, jump_bits h d e (ground (arith, f)) m)
      | inr f ↦ ground (arith, v.top, e, f, slide_bits h d e (ground (arith, v.top, e, u)) m n)
    ]
  ]

  behind_bits :
      (h d : ℕ)
      → max_of seen ≡ some h
      → s ≤ h
      → d < 64
      → d ≤ h
      → test_bit (set_bit w.bitmap (h - s)) d ≡ Common.contains (s ∷ seen) (h - d)
  behind_bits h d e l m n = ground (arith, test_bit-set_bit w.bitmap (h - s) d, v.bits h d e m n)

  pub raised-Represents :
      (b : ℕ)
      → above s w.highest ≡ true
      → ((d : ℕ) → d < 64 → d ≤ s → test_bit b d ≡ Common.contains (s ∷ seen) (s - d))
      → Represents (record { highest = some s; bitmap = b }) (s ∷ seen)
  raised-Represents b u k = record {
    top = elim (Option-cases (max_of seen)) [
      | inl e ↦ ground (arith, v.top, e)
      | inr (h, e) ↦ ground (arith, v.top, e, u)
    ];
    bits = λ h d e m n.
        let top : h ≡ s = elim (Option-cases (max_of seen)) [
          | inl f ↦ ground (arith, v.top, f)
          | inr (g, f) ↦ ground (arith, v.top, f, u)
        ] in
        rw top (k d m (omega arith));
  }

  pub behind-Represents :
      (h : ℕ)
      → w.highest ≡ some h
      → s ≤ h
      → Represents (record w { bitmap = set_bit w.bitmap (h - s) }) (s ∷ seen)
  behind-Represents h e l =
      let f : max_of seen ≡ some h = ground (arith, v.top, e) in
      record {
        top = ground (arith, f, e);
        bits = λ g d i m n.
            let top : g ≡ h = ground (arith, f) in rw top (behind_bits h d f l m (omega arith));
      }

  pub commit-Represents : (w' : Window) → commit s w ≡ some w' → Represents w' (s ∷ seen)
  unfolding commit
  commit-Represents w' c = elim (Bool-cases (above s w.highest)) [
    | inl u ↦
        let same : record { highest = some s; bitmap = advance s w } ≡ w' = ground (arith, u) in
        subst (λ x. Represents x (s ∷ seen)) same
          (raised-Represents (advance s w) u (λ d m n. advance_bits d u m n))
    | inr u ↦ elim (Option-cases w.highest) [
      | inl e ↦ absurd (ground (arith, e))
      | inr (h, e) ↦
          let same : record w { bitmap = set_bit w.bitmap (h - s) } ≡ w' = ground (arith, u, e) in
          subst (λ x. Represents x (s ∷ seen)) same (behind-Represents h e (ground (arith, e)))
    ]
  ]
