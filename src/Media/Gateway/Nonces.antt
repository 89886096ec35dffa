-- ===== src/Media/Gateway/Nonces.antt =====
-- The nonces under the downlink key.
use realtime_voice_agent.Common.{
  ℕ, ◌+◌, ◌≤◌, ◌<◌, ◌≡◌, ◌∙◌, refl, sym, true, false, List, [], ◌∷◌, ◌++◌, arith, Text, nat_key,
  text_key, contains, is_unique, eq_iff, ◌==◌, Bool-cases, inl, inr,
}
use realtime_voice_agent.Media.Frame.{pack_word}
use realtime_voice_agent.Media.Gateway.{Cipher, UdpGrant, new_session}
use realtime_voice_agent.Media.Gateway.Events.{Event, run}
use realtime_voice_agent.Media.Gateway.Moves.{
  View, Move, pins, numbers, seals, transmits, starts, hears, takes, puts, resyncs, skips,
}
use realtime_voice_agent.Media.Gateway.Traces.{run_keeps}

-- Each nonce is the salt and a number below those of the later ones.
abbrev IsNumbered : Text → ℕ → List (Text × Text) → Type 0
IsNumbered salt n [] = Unit {0}
IsNumbered salt n ((nonce, payload) ∷ rest) =
    (k : ℕ) × (k < n) × (nonce ≡ salt ++ pack_word k) × IsNumbered salt k rest

IsNumbered-mono :
    (salt : Text) (m n : ℕ) (xs : List (Text × Text))
    → m ≤ n
    → IsNumbered salt m xs
    → IsNumbered salt n xs
IsNumbered-mono salt m n [] l h = tt
IsNumbered-mono salt m n ((nonce, payload) ∷ rest) l (k, b, e, h) = (k, omega arith, e, h)

record IsFresh (v : View) : Type 0 where
  pub numbered : IsNumbered v.grant.downlink_salt v.number v.sealed
  pub bounded : v.number ≤ 0xFFFFFFFF

-- The nonces of the calls of `encrypt`.
abbrev pub nonces : List (Text × Text) → List Text
nonces [] = []
nonces ((nonce, payload) ∷ rest) = nonce ∷ nonces rest

append_cancel_left : (s a b : Text) → s ++ a ≡ s ++ b → a ≡ b
append_cancel_left [] a b e = e
append_cancel_left (x ∷ s) a b e = append_cancel_left s a b (ground arith)

pack_word_injective :
    (a b : ℕ) → a ≤ 0xFFFFFFFF → b ≤ 0xFFFFFFFF → pack_word a ≡ pack_word b → a ≡ b
unfolding pack_word
pack_word_injective a b la lb e = ground arith

nonces_lack :
    (salt : Text) (k n : ℕ) (xs : List (Text × Text))
    → n ≤ k
    → k ≤ 0xFFFFFFFF
    → IsNumbered salt n xs
    → contains (nonces xs) (salt ++ pack_word k) ≡ false
nonces_lack salt k n [] l u h = refl
nonces_lack salt k n ((nonce, payload) ∷ rest) l u (j, b, e, h) =
    elim (Bool-cases (nonce == (salt ++ pack_word k))) [
      | inl same ↦
          let words : pack_word j ≡ pack_word k =
            append_cancel_left salt (pack_word j) (pack_word k)
              (sym e ∙ (eq_iff nonce (salt ++ pack_word k)).0 same) in
          absurd (omega (arith, pack_word_injective j k (omega arith) u words))
      | inr other ↦ rw (other, contains) (nonces_lack salt k j rest (omega arith) u h)
    ]

nonces-is_unique :
    (salt : Text) (n : ℕ) (xs : List (Text × Text))
    → n ≤ 0xFFFFFFFF
    → IsNumbered salt n xs
    → is_unique (nonces xs) ≡ true
nonces-is_unique salt n [] u h = refl
nonces-is_unique salt n ((nonce, payload) ∷ rest) u (k, b, e, h) =
    rw (e, nonces_lack salt k k rest (omega arith) (omega arith) h, is_unique)
      (nonces-is_unique salt k rest (omega arith) h)

module _ (cipher : Cipher) where
  Move-IsFresh : (v w : View) → Move cipher v w → IsFresh v → IsFresh w
  Move-IsFresh v w (pins a c) h = record { numbered = h.numbered; bounded = h.bounded }
  Move-IsFresh v w (numbers c) h = record {
    numbered =
        IsNumbered-mono v.grant.downlink_salt v.number (v.number + 1) v.sealed (omega arith)
          h.numbered;
    bounded = omega arith;
  }
  Move-IsFresh v w (seals p c) h = record {
    numbered = (v.number, omega arith, refl, h.numbered);
    bounded = omega arith;
  }
  Move-IsFresh v w (transmits a d c) h = record { numbered = h.numbered; bounded = h.bounded }
  Move-IsFresh v w (starts k c b) h = record { numbered = h.numbered; bounded = h.bounded }
  Move-IsFresh v w (hears e p c b g) h = record { numbered = h.numbered; bounded = h.bounded }
  Move-IsFresh v w (takes e p c b) h = record { numbered = h.numbered; bounded = h.bounded }
  Move-IsFresh v w (puts e k p c l u g) h = record { numbered = h.numbered; bounded = h.bounded }
  Move-IsFresh v w (resyncs e k c l) h = record { numbered = h.numbered; bounded = h.bounded }
  Move-IsFresh v w (skips e k c l b) h = record { numbered = h.numbered; bounded = h.bounded }

-- Whatever events a new session sees, no two of its calls of `encrypt`, which all use the downlink key,
-- have the same nonce.
pub nonces_never_repeat :
    (cipher : Cipher) (g : UdpGrant) (queue_size : ℕ) (es : List Event)
    → is_unique (nonces (run cipher es (new_session g queue_size)).sealed) ≡ true
nonces_never_repeat cipher g queue_size es =
    let fresh =
      run_keeps cipher IsFresh (Move-IsFresh cipher) g queue_size es
        (unfold new_session in record { numbered = tt; bounded = omega arith }) in
    nonces-is_unique _ _ _ fresh.bounded fresh.numbered
