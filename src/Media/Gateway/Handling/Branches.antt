-- ===== src/Media/Gateway/Handling/Branches.antt =====
-- The small steps of `_handle`, as moves of a drained session.
use realtime_voice_agent.Common.{
  ℕ, ◌+◌, ◌≡◌, refl, not, some, [], ◌∷◌, leb, nat_eq, arith, Option-cases, Bool-cases, inl, inr,
  Text, is_empty, Result, ok, err, text_key, nat_key, pair_key,
}
use realtime_voice_agent.Common.Dict.{get}
use realtime_voice_agent.Media.Frame.{Header}
use realtime_voice_agent.Media.Gateway.{Cipher, Session, Address, UdpMediaError, flag_keepalive}
use realtime_voice_agent.Media.Gateway.Send.{send}
use realtime_voice_agent.Media.Gateway.Reorder.{resync, resync_media_cursor}
use realtime_voice_agent.Media.Gateway.Handle.{
  Moment, packet_of, reacknowledge, resend, probe_refusal, pin_source, start_cursor, open_reack,
  probe_acknowledged, after_acknowledgement, acknowledgement, echo, jump_cursor, media_refusal,
  acknowledge, keep_alive, discard,
}
use realtime_voice_agent.Media.Gateway.Moves.{
  view, IsGenuine, here, only, pins, starts, transmits, IsDrained,
}
use realtime_voice_agent.Media.Gateway.Drained.{Keeps, view-Keeps}
use realtime_voice_agent.Media.Gateway.Keeps.{buffer_media-Keeps, Keeps-trans, resync-Keeps}
use realtime_voice_agent.Media.Gateway.Sending.{send-Keeps, Moves-grant}

module _ (cipher : Cipher) where
  pub same-Keeps : (s : Session) → IsDrained (view s) → Keeps cipher s s
  same-Keeps s d = record { moves = here; drained = d }

  pub reacknowledge-Keeps :
      (payload : Text) (m : Moment) (s : Session)
      → IsDrained (view s)
      → Keeps cipher s (reacknowledge payload m s)
  unfolding reacknowledge resend
  reacknowledge-Keeps payload m s d = elim (Bool-cases (not (is_empty payload))) [
    | inl e ↦ rw e (record { moves = here; drained = d })
    | inr e ↦ elim (Option-cases s.source) [
      | inl c ↦ view-Keeps cipher s _ (ground arith) d
      | inr (a, c) ↦ elim (Option-cases s.probe_ack_datagram) [
        | inl f ↦ view-Keeps cipher s _ (ground arith) d
        | inr (datagram, f) ↦ elim (Bool-cases m.transport) [
          | inr t ↦ view-Keeps cipher s _ (ground arith) d
          | inl t ↦
              let sent : view (reacknowledge payload m s)
                  ≡ record (view s) { datagrams = (a, datagram) ∷ s.datagrams } =
                ground arith in
              record {
                moves = rw sent (only cipher (transmits a datagram c));
                drained = rw sent (record { cursor = d.cursor; idle = d.idle });
              }
        ]
      ]
    ]
  ]

  pub pin_source-Keeps :
      (addr : Address) (s : Session) → IsDrained (view s) → Keeps cipher s (pin_source addr s)
  unfolding pin_source
  pin_source-Keeps addr s d = elim (Option-cases s.source) [
    | inr (a, c) ↦ view-Keeps cipher s _ (ground arith) d
    | inl c ↦
        let pinned : view (pin_source addr s) ≡ record (view s) { source = some addr } =
          ground arith in
        record {
          moves = rw pinned (only cipher (pins addr c));
          drained = rw pinned (record { cursor = d.cursor; idle = d.idle });
        }
  ]

  start_cursor-Keeps :
      (k : ℕ) (s : Session) → IsDrained (view s) → Keeps cipher s (start_cursor k s)
  unfolding start_cursor
  start_cursor-Keeps k s d = elim (Option-cases s.next_audio_sequence) [
    | inr (e, c) ↦ view-Keeps cipher s _ (ground arith) d
    | inl c ↦
        let started : view (start_cursor k s) ≡ record (view s) { cursor = some k } =
          ground arith in
        record {
          moves = rw started (only cipher (starts k c (d.idle c)));
          drained = rw started (record {
            cursor = λ e g. rw (d.idle c) (unfold get in refl);
            idle = λ g. absurd (ground arith);
          });
        }
  ]

  pub jump_cursor-Keeps :
      (k : ℕ) (s : Session) → IsDrained (view s) → Keeps cipher s (jump_cursor k s)
  unfolding jump_cursor resync_media_cursor
  jump_cursor-Keeps k s d = elim (Option-cases s.next_audio_sequence) [
    | inl c ↦ view-Keeps cipher s _ (ground arith) d
    | inr (e, c) ↦ elim (Bool-cases (leb (e + 4) k)) [
      | inr f ↦ view-Keeps cipher s _ (ground arith) d
      | inl f ↦
          let jumps : jump_cursor k s ≡ resync k e s = ground arith in
          rw jumps (resync-Keeps cipher e k s c (ground arith))
    ]
  ]

  -- The evidence of a packet is about the grant, which no operation changes.
  pub still-IsGenuine :
      (k : ℕ) (h : Header) (payload : Text) (s t : Session)
      → IsGenuine cipher s.grant k (packet_of h payload)
      → Keeps cipher s t
      → IsGenuine cipher t.grant k (packet_of h payload)
  still-IsGenuine k h payload s t g v = rw (Moves-grant cipher v.moves) g

  probe_acknowledged-Keeps :
      (h : Header) (m : Moment) (s : Session)
      → IsGenuine cipher s.grant h.sequence (packet_of h [])
      → IsDrained (view s)
      → Keeps cipher s (probe_acknowledged h m s)
  unfolding probe_acknowledged open_reack
  probe_acknowledged-Keeps h m s g d =
      let first = start_cursor-Keeps h.sequence s d in
      let then_buffer = Keeps-trans cipher s (start_cursor h.sequence s) _ first (
        buffer_media-Keeps cipher h.sequence (packet_of h []) (start_cursor h.sequence s)
          (still-IsGenuine h.sequence h [] s _ g first)) in
      record { moves = then_buffer.moves; drained = then_buffer.drained }

  after_acknowledgement-Keeps :
      (h : Header) (m : Moment) (r : Session × Result UdpMediaError ℕ)
      → IsGenuine cipher r.0.grant h.sequence (packet_of h [])
      → IsDrained (view r.0)
      → Keeps cipher r.0 (after_acknowledgement h m r).0
  after_acknowledgement-Keeps h m (s, ok n) g d = probe_acknowledged-Keeps h m s g d
  after_acknowledgement-Keeps h m (s, err e) g d = same-Keeps s d

  pub acknowledge-Keeps :
      (h : Header) (m : Moment) (s : Session)
      → IsGenuine cipher s.grant h.sequence (packet_of h [])
      → IsDrained (view s)
      → Keeps cipher s (acknowledge cipher h m s).0
  unfolding acknowledge
  acknowledge-Keeps h m s g d =
      let sending = send-Keeps cipher m.sending_now m.transport acknowledgement s d in
      Keeps-trans cipher s _ _ sending
        (after_acknowledgement-Keeps h m _ (still-IsGenuine h.sequence h [] s _ g sending))

  pub keep_alive-Keeps :
      (h : Header) (m : Moment) (s : Session)
      → IsDrained (view s)
      → Keeps cipher s (keep_alive cipher h m s).0
  unfolding keep_alive
  keep_alive-Keeps h m s d = elim (Bool-cases (nat_eq h.flags flag_keepalive)) [
    | inr e ↦ rw e (same-Keeps s d)
    | inl e ↦
        rw (e, discard_lem (send cipher m.sending_now m.transport (echo h) s))
          (send-Keeps cipher m.sending_now m.transport (echo h) s d)
  ]
    where
      discard_lem : (r : Session × Result UdpMediaError ℕ) → (discard r).0 ≡ r.0
      discard_lem (s, ok n) = refl
      discard_lem (s, err e) = refl

  pub probe_refusal-Keeps :
      (k : ℕ) (s t : Session) → probe_refusal k s ≡ some t → IsDrained (view s) → Keeps cipher s t
  unfolding probe_refusal
  probe_refusal-Keeps k s t e d =
      view-Keeps cipher s t
        (elim (Option-cases s.next_audio_sequence) [
          | inl c ↦ absurd (ground arith)
          | inr (n, c) ↦ ground arith
        ])
        d

  pub media_refusal-Keeps :
      (k : ℕ) (s t : Session) → media_refusal k s ≡ some t → IsDrained (view s) → Keeps cipher s t
  unfolding media_refusal
  media_refusal-Keeps k s t e d =
      view-Keeps cipher s t
        (elim (Option-cases s.next_audio_sequence) [
          | inl c ↦ absurd (ground arith)
          | inr (n, c) ↦ ground arith
        ])
        d
