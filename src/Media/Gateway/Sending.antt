-- ===== src/Media/Gateway/Sending.antt =====
-- `_send`, as moves.
use realtime_voice_agent.Common.{
  ℕ, ◌<◌, ◌≡◌, ◌∙◌, refl, sym, Bool, true, false, not, ◌&&◌, ◌||◌, some, leb, ltb, length, arith,
  Option-cases, Bool-cases, inl, inr, Text, is_some, is_ok,
}
use realtime_voice_agent.Media.Frame.{max_payload_bytes}
use realtime_voice_agent.Media.Gateway.{Cipher, Session, Address, max_datagram_bytes}
use realtime_voice_agent.Media.Gateway.Send.{
  Outgoing, send, send_numbered, send_audio, sent_to, take_number, note_sealed, nonce_for,
  datagram_for,
}
use realtime_voice_agent.Media.Gateway.Moves.{
  View, view, Move, Moves, here, next, only, moves_keep, pins, numbers, seals, transmits, starts,
  hears, takes, puts, resyncs, skips, IsDrained,
}
use realtime_voice_agent.Media.Gateway.Drained.{Keeps}

module _ (cipher : Cipher) where
  abbrev can_send : ℕ → Bool → Outgoing → Session → Bool
  can_send now transport o s =
      not (s.expired || leb s.grant.expires_at now)
      && leb (length o.payload) max_payload_bytes
      && is_some s.source
      && transport
      && ltb s.downlink_sequence 0xFFFFFFFF

  send_refused :
      (now : ℕ) (transport : Bool) (o : Outgoing) (s : Session)
      → can_send now transport o s ≡ false
      → ((send cipher now transport o s).0 ≡ s) × (is_ok (send cipher now transport o s).1 ≡ false)
  unfolding send
  send_refused now transport o s h = ground arith

  send_goes :
      (now : ℕ) (transport : Bool) (o : Outgoing) (s : Session) (a : Address)
      → s.source ≡ some a
      → can_send now transport o s ≡ true
      → send cipher now transport o s ≡ send_numbered cipher a o s
  unfolding send
  send_goes now transport o s a c h = ground arith

  send_numbered-Moves :
      (a : Address) (o : Outgoing) (s : Session)
      → s.source ≡ some a
      → s.downlink_sequence < 0xFFFFFFFF
      → Moves cipher (view s) (view (send_numbered cipher a o s).0)
  unfolding send_numbered take_number note_sealed sent_to nonce_for
  send_numbered-Moves a o s c l = elim (Bool-cases (ltb 0xFFFFFFFF o.generation)) [
    | inl e ↦ rw e (only cipher (numbers l))
    | inr e ↦ elim (Bool-cases (ltb max_datagram_bytes (length (datagram_for cipher o s)))) [
      | inl f ↦ rw (e, f) (only cipher (seals o.payload l))
      | inr f ↦ rw (e, f) (next (seals o.payload l) (only cipher (transmits a _ c)))
    ]
  ]

  send_numbered_waiting :
      (a : Address) (o : Outgoing) (s : Session)
      → ((send_numbered cipher a o s).0.next_audio_sequence ≡ s.next_audio_sequence)
        × ((send_numbered cipher a o s).0.reorder ≡ s.reorder)
  unfolding send_numbered take_number note_sealed sent_to
  send_numbered_waiting a o s = ground arith

  pub send-Keeps :
      (now : ℕ) (transport : Bool) (o : Outgoing) (s : Session)
      → IsDrained (view s)
      → Keeps cipher s (send cipher now transport o s).0
  send-Keeps now transport o s d = elim (Bool-cases (can_send now transport o s)) [
    | inr h ↦ rw (send_refused now transport o s h).0 (record { moves = here; drained = d })
    | inl h ↦ elim (Option-cases s.source) [
      | inl c ↦ absurd (ground arith)
      | inr (a, c) ↦
          let (same_cursor, same_buffer) = send_numbered_waiting a o s in
          rw (send_goes now transport o s a c h) (record {
            moves = send_numbered-Moves a o s c (ground arith);
            drained = record {
              cursor = λ e g. rw same_buffer (d.cursor e (sym same_cursor ∙ g));
              idle = λ g. same_buffer ∙ d.idle (sym same_cursor ∙ g);
            };
          })
    ]
  ]

  pub send_audio-Keeps :
      (now sending_now : ℕ) (transport : Bool) (payload : Text) (timestamp generation : ℕ)
      (s : Session)
      → IsDrained (view s)
      → Keeps cipher s
          (send_audio cipher now sending_now transport payload timestamp generation s).0
  unfolding send_audio
  send_audio-Keeps now sending_now transport payload timestamp generation s d =
      elim (Bool-cases (s.expired || leb s.grant.expires_at now)) [
        | inl e ↦ rw e (record { moves = here; drained = d })
        | inr e ↦ elim (Bool-cases (s.closed || not (is_some s.source) || not s.ready)) [
          | inl f ↦ rw (e, f) (record { moves = here; drained = d })
          | inr f ↦ rw (e, f) (send-Keeps sending_now transport _ s d)
        ]
      ]

pub Moves-grant : (cipher : Cipher) {v w : View} → Moves cipher v w → w.grant ≡ v.grant
Moves-grant cipher {v} ms = moves_keep cipher (λ u. u.grant ≡ v.grant) keeps ms refl
  where
    keeps : (u w : View) → Move cipher u w → u.grant ≡ v.grant → w.grant ≡ v.grant
    keeps u w (pins a c) h = h
    keeps u w (numbers c) h = h
    keeps u w (seals p c) h = h
    keeps u w (transmits a d c) h = h
    keeps u w (starts k c b) h = h
    keeps u w (hears e p c b g) h = h
    keeps u w (takes e p c b) h = h
    keeps u w (puts e k p c l b g) h = h
    keeps u w (resyncs e k c l) h = h
    keeps u w (skips e k c l b) h = h
