-- ===== src/Media/Gateway/Genuine.antt =====
-- What reaches the receiver of a session.
use realtime_voice_agent.Common.{
  ℕ, ◌≡◌, refl, ◌∙◌, subst, some, List, [], ◌∷◌, nat_eq, nat_key, eq_iff, ◌==◌, arith, Bool-cases,
  inl, inr,
}
use realtime_voice_agent.Common.Dict.{get, put, get-put, get-remove}
use realtime_voice_agent.Media.Frame.{flag_audio}
use realtime_voice_agent.Media.Gateway.{Cipher, UdpGrant, Packet, new_session}
use realtime_voice_agent.Media.Gateway.Events.{Event, run}
use realtime_voice_agent.Media.Gateway.Sending.{Moves-grant}
use realtime_voice_agent.Media.Gateway.Moves.{
  View, IsGenuine, Move, pins, numbers, seals, transmits, starts, hears, takes, puts, resyncs,
  skips, hear_also,
}
use realtime_voice_agent.Media.Gateway.Traces.{run_keeps, run-Keeps, new_session-IsDrained}

module _ (cipher : Cipher) where
  abbrev pub AllGenuine : UdpGrant → List (ℕ × Packet) → Type 0
  AllGenuine g [] = Unit {0}
  AllGenuine g ((k, p) ∷ rest) = IsGenuine cipher g k p × AllGenuine g rest

  record IsAuthentic (v : View) : Type 0 where
    pub buffered : (k : ℕ) (p : Packet) → get k v.buffer ≡ some p → IsGenuine cipher v.grant k p
    pub heard : AllGenuine v.grant v.heard

  AllGenuine-hear_also :
      (g : UdpGrant) (k : ℕ) (p : Packet) (xs : List (ℕ × Packet))
      → IsGenuine cipher g k p
      → AllGenuine g xs
      → AllGenuine g (hear_also k p xs)
  AllGenuine-hear_also g k p xs e h = elim (Bool-cases (nat_eq p.flags flag_audio)) [
    | inl f ↦ rw f (e, h)
    | inr f ↦ rw f h
  ]

  buffered_put :
      (v : View) (k j : ℕ) (p q : Packet)
      → IsAuthentic v
      → IsGenuine cipher v.grant k p
      → get j (put k p v.buffer) ≡ some q
      → IsGenuine cipher v.grant j q
  buffered_put v k j p q h g f = elim (Bool-cases (k == j)) [
    | inl e ↦
        let same_key : k ≡ j = (eq_iff k j).0 e in
        let same : p ≡ q = ground (arith, get-put k j p v.buffer) in
        subst (λ x. IsGenuine cipher v.grant j x) same
          (subst (λ x. IsGenuine cipher v.grant x p) same_key g)
    | inr e ↦ h.buffered j q (ground (arith, get-put k j p v.buffer))
  ]

  Move-IsAuthentic : (v w : View) → Move cipher v w → IsAuthentic v → IsAuthentic w
  unfolding get
  Move-IsAuthentic v w (pins a c) h = record { buffered = h.buffered; heard = h.heard }
  Move-IsAuthentic v w (numbers c) h = record { buffered = h.buffered; heard = h.heard }
  Move-IsAuthentic v w (seals p c) h = record { buffered = h.buffered; heard = h.heard }
  Move-IsAuthentic v w (transmits a d c) h = record { buffered = h.buffered; heard = h.heard }
  Move-IsAuthentic v w (starts k c b) h = record { buffered = h.buffered; heard = h.heard }
  Move-IsAuthentic v w (hears e p c b g) h = record {
    buffered = h.buffered;
    heard = AllGenuine-hear_also v.grant e p v.heard g h.heard;
  }
  Move-IsAuthentic v w (takes e p c b) h = record {
    buffered = λ k q f. h.buffered k q (ground (arith, get-remove e k v.buffer));
    heard = AllGenuine-hear_also v.grant e p v.heard (h.buffered e p b) h.heard;
  }
  Move-IsAuthentic v w (puts e k p c l u g) h = record {
    buffered = λ j q f. buffered_put v k j p q h g f;
    heard = h.heard;
  }
  Move-IsAuthentic v w (resyncs e k c l) h = record {
    buffered = λ j q f. absurd (ground arith);
    heard = h.heard;
  }
  Move-IsAuthentic v w (skips e k c l b) h = record { buffered = h.buffered; heard = h.heard }

-- Whatever events a new session sees, every packet that it gives to the receiver, under a number, has the
-- payload of a datagram with the session's media id and epoch and that number in its header, which decrypts
-- under the uplink key, the nonce of that number, and that header as associated data; timestamp and
-- generation are that header's too.
pub heard_is_genuine :
    (cipher : Cipher) (g : UdpGrant) (queue_size : ℕ) (es : List Event)
    → AllGenuine cipher g (run cipher es (new_session g queue_size)).heard
heard_is_genuine cipher g queue_size es =
    let authentic =
      run_keeps cipher (IsAuthentic cipher) (Move-IsAuthentic cipher) g queue_size es
        (unfold new_session in record { buffered = λ k p f. absurd (nothing k p f); heard = tt }) in
    subst (λ x. AllGenuine cipher x (run cipher es (new_session g queue_size)).heard) granted
      authentic.heard
  where
    nothing : (j : ℕ) (p : Packet) → get j [] ≡ some p → ⊥
    nothing j p h = unfold get in ground arith

    granted : (run cipher es (new_session g queue_size)).grant ≡ g
    granted =
        Moves-grant cipher (run-Keeps cipher es _ (new_session-IsDrained g queue_size)).moves
        ∙ (unfold new_session in refl)
