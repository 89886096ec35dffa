-- ===== src/Worker/Handshake/Opening/Answers.antt =====
-- What the client reads in an answer of the Worker.
use realtime_voice_agent.Common.{
  ℕ, ◌≤◌, ◌≡◌, refl, sym, ap, subst, true, false, not, ◌&&◌, Option, none, some, length, leb,
  nat_eq, arith, Text, text_key, text_eq, eq_refl, ◌==◌, ok, is_some,
}
use realtime_voice_agent.Common.Json.{
  str, at, has, has_all, within, is_text, is_identifier, equals_number,
}
use realtime_voice_agent.Contracts.RouteKey.{IsBytes}
use realtime_voice_agent.Client.Messages.{
  MediaProfile, wss_opus_v1, udp_opus_gcm_v1, media_profile_key, profile_value, ClientConfig,
  is_valid_config, session_open, exact, uint32, bounded_int,
}
use realtime_voice_agent.Client.Messages
use realtime_voice_agent.Client.Messages.Server.{
  validate_server_message, message_kind, kind_of, validate_kind, validate_opened,
}
use realtime_voice_agent.Client.Messages.Opened
use realtime_voice_agent.Client.Messages.Opened.{
  Base64, SessionOpened, parse_session_opened, read_opened, parse_udp_grant, parse_grant_fields,
  parse_media_id, profile_of, from_hex, has_upper,
}
use realtime_voice_agent.Media.Gateway.{UdpGrant}
use realtime_voice_agent.Worker.Protocol.{wss_profile, udp_profile}
use realtime_voice_agent.Worker.Binding.{
  Binding, Identity, is_valid_identity, init, opened_message, grant_field, to_hex,
}
use realtime_voice_agent.Worker.Handshake.{audio_profile_lem}
use realtime_voice_agent.Worker.Handshake.Grant.{
  rva_udp_grant, IsUsable, IsLawful, granted, parse_grant_fields-rva_udp_grant, from_hex-to_hex,
  has_upper-to_hex,
}

parse_media_id-to_hex :
    (t : Text) → IsBytes t → length t ≡ 8 → parse_media_id (str (to_hex t)) ≡ ok t
unfolding parse_media_id
parse_media_id-to_hex t v e =
    let sized : nat_eq (length t) 8 ≡ true = ground arith in
    rw (from_hex-to_hex t v, parse_media_id, sized, has_upper-to_hex t v) refl

-- What the client makes of the answer for each profile.
abbrev pub opened_with : Binding → Text → MediaProfile → Option Opened.UdpGrant → SessionOpened
opened_with b request_id p grant = record {
  request_id = request_id;
  session_id = b.session_id;
  session_epoch = b.session_epoch;
  media_id = b.media_id;
  media_epoch = b.media_epoch;
  selected_profile = p;
  heartbeat_interval_ms = 15000;
  idle_timeout_ms = 45000;
  udp_grant = grant;
}

-- A binding of valid identifiers.
pub record IsNamed (b : Binding) : Type 0 where
  pub session_id : is_identifier b.session_id ≡ true
  pub session_epoch : is_identifier b.session_epoch ≡ true
  pub media_id : IsBytes b.media_id
  pub media_id_length : length b.media_id ≡ 8
  pub media_epoch : (1 ≤ b.media_epoch) × (b.media_epoch ≤ 0xFFFFFFFF)

module _ (base64 : Base64) (b : Binding) (request_id : Text) (v : IsNamed b)
    (request : is_identifier request_id ≡ true) where
  media_epoch_lem : (leb 1 b.media_epoch && leb b.media_epoch 0xFFFFFFFF) ≡ true
  media_epoch_lem = ground (arith, v.media_epoch)

  parse_wss :
      parse_session_opened base64 (opened_message request_id wss_profile b) request_id
      ≡ ok (opened_with b request_id wss_opus_v1 none)
  unfolding parse_session_opened opened_message grant_field validate_server_message message_kind
      kind_of validate_kind validate_opened exact has_all has within at is_text text_eq
      equals_number Messages.require_identifier profile_of parse_udp_grant read_opened uint32
      bounded_int
  parse_wss =
      rw
        (
          request,
          audio_profile_lem,
          eq_refl request_id,
          v.session_id,
          v.session_epoch,
          parse_media_id-to_hex b.media_id v.media_id v.media_id_length,
          media_epoch_lem,
        )
        refl

-- The Worker's identity with what `_rva_udp_grant` gives for its UDP session, if it has one.
unfoldable pub with_udp : Base64 → Option UdpGrant → ℕ → Identity → Identity
with_udp base64 none now_ms i = record i { udp_grant = none }
with_udp base64 (some g) now_ms i = record i { udp_grant = some (rva_udp_grant base64 g now_ms) }

-- The arguments that a binding was made with.
abbrev pub identity_of : Binding → Identity
identity_of b = record {
  expected_device_id = b.expected_device_id;
  session_id = b.session_id;
  session_epoch = b.session_epoch;
  media_id = b.media_id;
  media_epoch = b.media_epoch;
  allowed_profiles = b.allowed_profiles;
  udp_grant = b.udp_grant;
}

abbrev pub IsUsableOffer : Option UdpGrant → Type 0
IsUsableOffer none = Unit {0}
IsUsableOffer (some g) = IsUsable g

abbrev pub offered_grant : MediaProfile → Option UdpGrant → ℕ → Option Opened.UdpGrant
offered_grant udp_opus_gcm_v1 (some g) now_ms = some (granted g now_ms)
offered_grant _ _ now_ms = none

module _ (base64 : Base64) (law : IsLawful base64) (request_id : Text)
    (request : is_identifier request_id ≡ true) where
  parse_udp_field :
      (b : Binding) (g : UdpGrant) (now_ms : ℕ)
      → IsNamed b
      → IsUsable g
      → parse_session_opened base64
          (opened_message request_id udp_profile
            (record b { udp_grant = some (rva_udp_grant base64 g now_ms) }))
          request_id
        ≡ ok (opened_with b request_id udp_opus_gcm_v1 (some (granted g now_ms)))
  unfolding parse_session_opened opened_message grant_field validate_server_message message_kind
      kind_of validate_kind validate_opened exact has_all has within at is_text text_eq
      equals_number Messages.require_identifier profile_of parse_udp_grant read_opened uint32
      bounded_int
  parse_udp_field b g now_ms v u =
      rw
        (
          request,
          audio_profile_lem,
          eq_refl request_id,
          v.session_id,
          v.session_epoch,
          parse_media_id-to_hex b.media_id v.media_id v.media_id_length,
          media_epoch_lem base64 b request_id v request,
          parse_grant_fields-rva_udp_grant base64 law g now_ms u,
        )
        refl

  parse_udp :
      (b : Binding) (g : UdpGrant) (now_ms : ℕ)
      → IsNamed b
      → IsUsable g
      → b.udp_grant ≡ some (rva_udp_grant base64 g now_ms)
      → parse_session_opened base64 (opened_message request_id udp_profile b) request_id
        ≡ ok (opened_with b request_id udp_opus_gcm_v1 (some (granted g now_ms)))
  parse_udp b g now_ms v u e =
      let same : b ≡ record b { udp_grant = some (rva_udp_grant base64 g now_ms) } =
        ap (λ x. record b { udp_grant = x }) e in
      subst
        (λ x.
          parse_session_opened base64 (opened_message request_id udp_profile x) request_id
          ≡ ok (opened_with b request_id udp_opus_gcm_v1 (some (granted g now_ms))))
        (sym same) (parse_udp_field b g now_ms v u)

  -- The answer for a profile that the Worker can serve.
  pub parse_answer :
      (b : Binding) (p : MediaProfile) (offer : Option UdpGrant) (now_ms : ℕ)
      → IsNamed b
      → IsUsableOffer offer
      → b.udp_grant ≡ (with_udp base64 offer now_ms (identity_of b)).udp_grant
      → ((profile_value p == udp_profile) && not (is_some b.udp_grant)) ≡ false
      → parse_session_opened base64 (opened_message request_id (profile_value p) b) request_id
        ≡ ok (opened_with b request_id p (offered_grant p offer now_ms))
  unfolding with_udp text_eq
  parse_answer b wss_opus_v1 none now_ms v u e f = parse_wss base64 b request_id v request
  parse_answer b wss_opus_v1 (some g) now_ms v u e f = parse_wss base64 b request_id v request
  parse_answer b udp_opus_gcm_v1 (some g) now_ms v u e f = parse_udp b g now_ms v u e
  parse_answer b udp_opus_gcm_v1 none now_ms v u e f = absurd (ground arith)

pub init-IsNamed :
    (i : Identity) → is_valid_identity i ≡ true → IsBytes i.media_id → IsNamed (init i)
unfolding is_valid_identity init
init-IsNamed i h bytes = record {
  session_id = ground arith;
  session_epoch = ground arith;
  media_id = bytes;
  media_id_length = ground arith;
  media_epoch = ground arith;
}
