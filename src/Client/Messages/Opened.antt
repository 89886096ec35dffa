-- ===== src/Client/Messages/Opened.antt =====
-- `parse_session_opened` of protocol/control.py.
use realtime_voice_agent.Common.{
  ℕ, ◌+◌, ◌*◌, ◌-◌, Bool, true, false, not, ◌&&◌, ◌||◌, Option, none, some, List, [], ◌∷◌, length,
  if◌then◌else◌, ltb, leb, nat_eq, Text, codes, text_key, Result, ok, err, ◌>>=◌, ◌>>◌, is_empty,
  is_some, any,
}
use realtime_voice_agent.Common.Json.{Json, Fields, at, as_text, as_object, is_null, is_text}
use realtime_voice_agent.Client.Messages.{
  MessageError, value_error, refuse, expect, MediaProfile, wss_opus_v1, udp_opus_gcm_v1,
  require_identifier, bounded_int, uint32, exact,
}
use realtime_voice_agent.Client.Messages.Server.{validate_server_message}

pub record UdpGrant : Type 0 where
  pub host : Text
  pub port : ℕ
  pub expires_at_ms : ℕ
  pub refresh_after_ms : ℕ
  pub uplink_key : Text
  pub uplink_salt : Text
  pub downlink_key : Text
  pub downlink_salt : Text
  pub probe_timeout_ms : ℕ

abbrev pub grant_fields : List Text
grant_fields =
    codes "host"
    ∷ codes "port"
    ∷ codes "expires_at_ms"
    ∷ codes "refresh_after_ms"
    ∷ codes "uplink_key_b64"
    ∷ codes "uplink_salt_b64"
    ∷ codes "downlink_key_b64"
    ∷ codes "downlink_salt_b64"
    ∷ codes "probe_timeout_ms"
    ∷ []

-- `len` of a string: the bytes that do not continue a character.
abbrev pub characters : Text → ℕ
characters [] = 0
characters (b ∷ t) = (if leb 128 b && ltb b 192 then 0 else 1) + characters t

-- `bytes.fromhex` skips white space between the pairs.
abbrev pub is_space : ℕ → Bool
is_space c = nat_eq c 32 || (leb 9 c && leb c 13)

unfoldable pub hex_value : ℕ → Option ℕ
hex_value c =
    if leb b'0' c && leb c b'9'
    then some (c - b'0')
    else if leb b'a' c && leb c b'f'
    then some (c - 87)
    else if leb b'A' c && leb c b'F'
    then some (c - 55)
    else none

unfoldable pub hex_pair : ℕ → ℕ → Option (List ℕ) → Option (List ℕ)
hex_pair c d rest = elim (hex_value c) [
  | none ↦ none
  | some high ↦ elim (hex_value d) [
    | none ↦ none
    | some low ↦ elim rest [ none ↦ none | some bytes ↦ some ((high * 16 + low) ∷ bytes) ]
  ]
]

unfoldable pub from_hex : Text → Option Text
from_hex [] = some []
from_hex (c ∷ []) = if is_space c then some [] else none
from_hex (c ∷ d ∷ t) =
    let after_space = from_hex (d ∷ t) in
    let after_pair = from_hex t in if is_space c then after_space else hex_pair c d after_pair

-- `value.lower() != value`, of hexadecimal digits
abbrev pub has_upper : Text → Bool
has_upper t = any (λ c. leb b'A' c && leb c b'Z') t

unfoldable pub parse_media_id : Json → Result MessageError Text
parse_media_id value = elim (as_text value) [
  | none ↦ refuse (codes "invalid_media_id")
  | some t ↦ elim (from_hex t) [
    | none ↦ refuse (codes "invalid_media_id")
    | some bytes ↦
        if not (nat_eq (length bytes) 8) || has_upper t
        then refuse (codes "invalid_media_id")
        else ok bytes
  ]
]

pub record SessionOpened : Type 0 where
  pub request_id : Text
  pub session_id : Text
  pub session_epoch : Text
  pub media_id : Text
  pub media_epoch : ℕ
  pub selected_profile : MediaProfile
  pub heartbeat_interval_ms : ℕ
  pub idle_timeout_ms : ℕ
  pub udp_grant : Option UdpGrant

-- `MediaProfile(value)`, which raises `ValueError`.
unfoldable pub profile_of : Json → Result MessageError MediaProfile
profile_of value =
    if is_text (codes "wss-opus/1") value
    then ok wss_opus_v1
    else if is_text (codes "udp-opus-gcm/1") value
    then ok udp_opus_gcm_v1
    else err value_error

-- Standard base64: what `b64encode` gives, and `b64decode(_, validate=True)`, `none` where it raises.
pub record Base64 : Type 0 where
  pub encode : Text → Text
  pub decode : Text → Option Text

abbrev is_udp : MediaProfile → Bool
is_udp udp_opus_gcm_v1 = true
is_udp wss_opus_v1 = false

abbrev pub same_truth : Bool → Bool → Bool
same_truth true b = b
same_truth false b = not b

module _ (base64 : Base64) where
  -- A key or salt of the grant, of a given length.
  unfoldable pub decode_bytes : Json → ℕ → Result MessageError Text
  decode_bytes value size = elim (as_text value) [
    | none ↦ refuse (codes "invalid_udp_grant")
    | some t ↦ elim (base64.decode t) [
      | none ↦ refuse (codes "invalid_udp_grant")
      | some bytes ↦
          if nat_eq (length bytes) size then ok bytes else refuse (codes "invalid_udp_grant")
    ]
  ]

  unfoldable pub parse_host : Json → Result MessageError Text
  parse_host value = elim (as_text value) [
    | none ↦ refuse (codes "invalid_udp_grant")
    | some t ↦
        if is_empty t || ltb 253 (characters t) then refuse (codes "invalid_udp_grant") else ok t
  ]

  -- The grant's values. All failures before the integers are the same error.
  unfoldable pub parse_grant_fields : Fields → Result MessageError UdpGrant
  parse_grant_fields m =
      exact grant_fields [] m
      >> (decode_bytes (at (codes "uplink_key_b64") m) 16 >>= λ uplink_key.
          decode_bytes (at (codes "uplink_salt_b64") m) 8 >>= λ uplink_salt.
          decode_bytes (at (codes "downlink_key_b64") m) 16 >>= λ downlink_key.
          decode_bytes (at (codes "downlink_salt_b64") m) 8 >>= λ downlink_salt.
          parse_host (at (codes "host") m) >>= λ host.
          bounded_int (at (codes "port") m) 1 65535 (codes "udp_port") >>= λ port.
          bounded_int (at (codes "expires_at_ms") m) 1 0x7FFFFFFFFFFFFFFF (codes "udp_expiry")
          >>= λ expires_at_ms.
              bounded_int (at (codes "refresh_after_ms") m) 1000 3600000 (codes "udp_refresh")
              >>= λ refresh_after_ms.
                  bounded_int (at (codes "probe_timeout_ms") m) 100 10000
                    (codes "udp_probe_timeout")
                  >>= λ probe_timeout_ms. ok (record {
                    host = host;
                    port = port;
                    expires_at_ms = expires_at_ms;
                    refresh_after_ms = refresh_after_ms;
                    uplink_key = uplink_key;
                    uplink_salt = uplink_salt;
                    downlink_key = downlink_key;
                    downlink_salt = downlink_salt;
                    probe_timeout_ms = probe_timeout_ms;
                  }))

  unfoldable pub parse_udp_grant : Json → Result MessageError (Option UdpGrant)
  parse_udp_grant value = if is_null value then ok none else elim (as_object value) [
    | none ↦ refuse (codes "invalid_udp_grant")
    | some m ↦ parse_grant_fields m >>= λ grant. ok (some grant)
  ]

  -- After the profile and the grant.
  unfoldable pub read_opened :
      Text → MediaProfile → Option UdpGrant → Fields → Result MessageError SessionOpened
  read_opened request_id selected grant m =
      require_identifier (at (codes "session_id") m) (codes "session_id") >>= λ session_id.
      require_identifier (at (codes "session_epoch") m) (codes "session_epoch") >>= λ session_epoch.
      parse_media_id (at (codes "media_id") m) >>= λ media_id.
      uint32 (at (codes "media_epoch") m) (codes "media_epoch") 1 >>= λ media_epoch.
      bounded_int (at (codes "heartbeat_interval_ms") m) 5000 60000 (codes "heartbeat")
      >>= λ heartbeat_interval_ms.
          bounded_int (at (codes "idle_timeout_ms") m) 15000 180000 (codes "idle_timeout")
          >>= λ idle_timeout_ms. ok (record {
            request_id = request_id;
            session_id = session_id;
            session_epoch = session_epoch;
            media_id = media_id;
            media_epoch = media_epoch;
            selected_profile = selected;
            heartbeat_interval_ms = heartbeat_interval_ms;
            idle_timeout_ms = idle_timeout_ms;
            udp_grant = grant;
          })

  unfoldable pub parse_session_opened : Fields → Text → Result MessageError SessionOpened
  parse_session_opened m request_id =
      validate_server_message m
      >> expect (is_text (codes "session.opened") (at (codes "type") m))
          (codes "expected_session_opened")
      >> expect (is_text request_id (at (codes "request_id") m)) (codes "request_id_mismatch")
      >> (profile_of (at (codes "selected_media_profile") m) >>= λ selected.
          parse_udp_grant (at (codes "udp_grant") m) >>= λ grant.
          expect (same_truth (is_udp selected) (is_some grant)) (codes "invalid_udp_grant")
          >> read_opened request_id selected grant m)
