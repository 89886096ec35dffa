-- ===== src/Media/Gateway/Handling.antt =====
-- `_handle`, as moves of a drained session.
mod Branches
use realtime_voice_agent.Common.{
  ℕ, ◌+◌, ◌≡◌, refl, sym, subst, Bool, true, false, not, ◌&&◌, ◌||◌, some, [], ◌∷◌, leb, ltb,
  nat_eq, length, arith, Option-cases, Bool-cases, inl, inr, Text, is_some, is_empty, Result, ok,
  err, text_key, eq_iff, option_eq, nat_key, pair_key,
}
use realtime_voice_agent.Common.Dict.{get}
use realtime_voice_agent.Media.Frame.{Header}
use realtime_voice_agent.Media.Wire.{UdpError, decode_udp}
use realtime_voice_agent.Media.Replay.{can_accept, commit, exceeds_forward_window}
use realtime_voice_agent.Media.Gateway.{
  Cipher, Session, Address, UdpMediaError, max_datagram_bytes, flag_probe, flag_keepalive,
}
use realtime_voice_agent.Media.Gateway.Send.{send}
use realtime_voice_agent.Media.Gateway.Reorder.{buffer_media, resync, resync_media_cursor}
use realtime_voice_agent.Media.Gateway.Handle.{
  Moment, packet_of, ready_flags, is_repeated_probe, reacknowledge, resend, probe_refusal,
  pin_source, start_cursor, open_reack, probe_acknowledged, after_acknowledgement, acknowledgement,
  echo, media_invalid, jump_cursor, media_refusal, commit_media, acknowledge, handle_probe,
  keep_alive, handle_media, handle_fresh, decrypted, authenticate, handle_packet, handle_decoded,
  handle, discard, count_attempted, count_authenticated, for_session,
}
use realtime_voice_agent.Media.Gateway.Moves.{
  view, IsGenuine, here, only, pins, starts, transmits, IsDrained,
}
use realtime_voice_agent.Media.Gateway.Drained.{Keeps, view-Keeps}
use realtime_voice_agent.Media.Gateway.Keeps.{buffer_media-Keeps, Keeps-trans, resync-Keeps}
use realtime_voice_agent.Media.Gateway.Sending.{send-Keeps, Moves-grant}
use realtime_voice_agent.Media.Gateway.Handling.Branches.{
  reacknowledge-Keeps, pin_source-Keeps, jump_cursor-Keeps, still-IsGenuine, acknowledge-Keeps,
  keep_alive-Keeps, probe_refusal-Keeps, media_refusal-Keeps, same-Keeps,
}

empty_payload : (payload : Text) → not (is_empty payload) ≡ false → payload ≡ []
empty_payload [] e = refl
empty_payload (x ∷ xs) e = absurd (ground arith)

module _ (cipher : Cipher) where
  handle_probe-Keeps :
      (h : Header) (payload : Text) (addr : Address) (m : Moment) (s : Session)
      → IsGenuine cipher s.grant h.sequence (packet_of h payload)
      → IsDrained (view s)
      → Keeps cipher s (handle_probe cipher h payload addr m s).0
  unfolding handle_probe
  handle_probe-Keeps h payload addr m s g d = elim (Bool-cases (not (is_empty payload))) [
    | inl e ↦ rw e (view-Keeps cipher s _ refl d)
    | inr e ↦ elim (Bool-cases (not (is_some s.source) && not (nat_eq h.sequence 0))) [
      | inl f ↦ rw (e, f) (view-Keeps cipher s _ refl d)
      | inr f ↦ elim (Option-cases (probe_refusal h.sequence s)) [
        | inr (t, r) ↦ rw (e, f, r) (probe_refusal-Keeps cipher h.sequence s t r d)
        | inl r ↦ elim (Option-cases (commit h.sequence s.replay)) [
          | inl c ↦ rw (e, f, r, c) (same-Keeps cipher s d)
          | inr (w, c) ↦
              rw (e, f, r, c)
                (let pinned = pin_source-Keeps cipher addr (record s { replay = w }) d in
                  let whole =
                    Keeps-trans cipher (record s { replay = w }) _ _ pinned
                      (acknowledge-Keeps cipher h m _ (
                        still-IsGenuine cipher h.sequence h [] (record s { replay = w }) _
                          (subst (λ p. IsGenuine cipher s.grant h.sequence (packet_of h p))
                            (empty_payload payload e) g)
                          pinned)) in
                  record { moves = whole.moves; drained = whole.drained })
        ]
      ]
    ]
  ]

  commit_media-Keeps :
      (k : ℕ) (s t : Session) → commit_media k s ≡ some t → IsDrained (view s) → Keeps cipher s t
  unfolding commit_media
  commit_media-Keeps k s t e d =
      view-Keeps cipher s t
        (elim (Option-cases (commit k s.replay)) [
          | inl c ↦ absurd (ground arith)
          | inr (w, c) ↦ ground arith
        ])
        d

  handle_media-Keeps :
      (h : Header) (payload : Text) (m : Moment) (s : Session)
      → IsGenuine cipher s.grant h.sequence (packet_of h payload)
      → IsDrained (view s)
      → Keeps cipher s (handle_media cipher h payload m s).0
  unfolding handle_media
  handle_media-Keeps h payload m s g d = elim (Bool-cases (media_invalid h payload s)) [
    | inl e ↦ rw e (view-Keeps cipher s _ refl d)
    | inr e ↦ elim (Option-cases (media_refusal h.sequence s)) [
      | inr (t, r) ↦ rw (e, r) (media_refusal-Keeps cipher h.sequence s t r d)
      | inl r ↦ elim (Option-cases (commit_media h.sequence (jump_cursor h.sequence s))) [
        | inl c ↦
            rw (e, r, c)
              (Keeps-trans cipher s (jump_cursor h.sequence s) _
                (jump_cursor-Keeps cipher h.sequence s d) (view-Keeps cipher _ _ refl))
        | inr (t, c) ↦
            rw (e, r, c)
              (let to_t =
                  Keeps-trans cipher s (jump_cursor h.sequence s) t
                    (jump_cursor-Keeps cipher h.sequence s d)
                    (commit_media-Keeps h.sequence _ t c) in
                Keeps-trans cipher s (buffer_media h.sequence (packet_of h payload) t) _
                  (Keeps-trans cipher s t _ to_t (
                    buffer_media-Keeps cipher h.sequence (packet_of h payload) t
                      (still-IsGenuine cipher h.sequence h payload s t g to_t)))
                  (keep_alive-Keeps cipher h m _))
      ]
    ]
  ]

  handle_fresh-Keeps :
      (h : Header) (payload : Text) (addr : Address) (m : Moment) (s : Session)
      → IsGenuine cipher s.grant h.sequence (packet_of h payload)
      → IsDrained (view s)
      → Keeps cipher s (handle_fresh cipher h payload addr m s).0
  unfolding handle_fresh
  handle_fresh-Keeps h payload addr m s g d =
      elim (Bool-cases (is_some s.source && not (option_eq s.source (some addr)))) [
        | inl e ↦ rw e (view-Keeps cipher s _ refl d)
        | inr e ↦ elim (Bool-cases (nat_eq h.flags flag_probe)) [
          | inl f ↦ rw (e, f) (handle_probe-Keeps h payload addr m s g d)
          | inr f ↦ rw (e, f) (handle_media-Keeps h payload m s g d)
        ]
      ]

  reach : (s t u : Session) → view t ≡ view s → Keeps cipher t u → Keeps cipher s u
  reach s t u e v = record { moves = rw (sym e) v.moves; drained = v.drained }

  authenticate-Keeps :
      (repeated : Bool) (h : Header) (encrypted datagram : Text) (addr : Address) (m : Moment)
      (s : Session)
      → decode_udp datagram ≡ ok (h, encrypted)
      → for_session h s ≡ true
      → IsDrained (view s)
      → Keeps cipher s (authenticate cipher repeated h encrypted datagram addr m s).0
  unfolding authenticate
  authenticate-Keeps repeated h encrypted datagram addr m s e f d =
      elim (Option-cases (decrypted cipher h encrypted datagram s)) [
        | inl c ↦ rw (c, authenticate) (view-Keeps cipher s _ refl d)
        | inr (payload, c) ↦ elim (Bool-cases repeated) [
          | inl b ↦
              rw (c, authenticate, b)
                (reach s (count_authenticated (count_attempted s)) _ refl
                  (reacknowledge-Keeps cipher payload m _ d))
          | inr b ↦
              rw (c, authenticate, b)
                (reach s (count_authenticated (count_attempted s)) _ refl (
                  handle_fresh-Keeps h payload addr m _
                    (record {
                      datagram = datagram;
                      header = h;
                      encrypted = encrypted;
                      decodes = e;
                      media_id = ground (arith, eq_iff h.media_id s.grant.media_id);
                      media_epoch = ground arith;
                      sequence = refl;
                      decrypts = unfold decrypted in c;
                      packet = refl;
                    })
                    d))
        ]
      ]

  handle_packet-Keeps :
      (h : Header) (encrypted datagram : Text) (addr : Address) (m : Moment) (s : Session)
      → decode_udp datagram ≡ ok (h, encrypted)
      → for_session h s ≡ true
      → IsDrained (view s)
      → Keeps cipher s (handle_packet cipher h encrypted datagram addr m s).0
  unfolding handle_packet
  handle_packet-Keeps h encrypted datagram addr m s e f d =
      elim (Bool-cases (can_accept h.sequence s.replay || is_repeated_probe h addr m s)) [
        | inl b ↦ rw b (authenticate-Keeps _ h encrypted datagram addr m s e f d)
        | inr b ↦ elim (Bool-cases (exceeds_forward_window h.sequence s.replay)) [
          | inl c ↦ rw (b, c) (view-Keeps cipher s _ refl d)
          | inr c ↦ rw (b, c) (view-Keeps cipher s _ refl d)
        ]
      ]

  handle_decoded-Keeps :
      (datagram : Text) (addr : Address) (m : Moment) (s : Session)
      (r : Result UdpError (Header × Text))
      → decode_udp datagram ≡ r
      → IsDrained (view s)
      → Keeps cipher s (handle_decoded cipher datagram addr m s r).0
  unfolding handle_decoded
  handle_decoded-Keeps datagram addr m s (err e) _ d = view-Keeps cipher s _ refl d
  handle_decoded-Keeps datagram addr m s (ok (h, encrypted)) e d =
      elim (Bool-cases (for_session h s && ready_flags h.flags)) [
        | inr b ↦ rw b (view-Keeps cipher s _ refl d)
        | inl b ↦ rw b (handle_packet-Keeps h encrypted datagram addr m s e (ground arith) d)
      ]

  pub handle-Keeps :
      (datagram : Text) (addr : Address) (m : Moment) (s : Session)
      → IsDrained (view s)
      → Keeps cipher s (handle cipher datagram addr m s).0
  unfolding handle
  handle-Keeps datagram addr m s d =
      elim (Bool-cases
        (ltb max_datagram_bytes (length datagram) || s.expired || leb s.grant.expires_at m.now)) [
          | inl b ↦ rw b (view-Keeps cipher s _ refl d)
          | inr b ↦ rw b (handle_decoded-Keeps datagram addr m s (decode_udp datagram) refl d)
        ]
