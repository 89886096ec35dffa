-- ===== src/Worker/Handshake/Grant.antt =====
-- `_rva_udp_grant` of bindings/rva/runtime.py, the grant as the Worker's answer carries it, and the media
-- id in hexadecimal.
use realtime_voice_agent.Common.{
  ℕ, ◌+◌, ◌-◌, ◌*◌, ◌/◌, ◌%◌, ◌≤◌, ◌<◌, ◌≡◌, refl, ◌∙◌, ap, min, max, true, false, ◌&&◌, Option,
  some, [], ◌∷◌, length, is_empty, leb, nat_eq, arith, Text, text_key, text_eq, codes, ok,
}
use realtime_voice_agent.Common.Json.{nat, str, Fields, end, field, at, has, has_all, within}
use realtime_voice_agent.Contracts.RouteKey.{IsBytes}
use realtime_voice_agent.Client.Messages.{exact, bounded_int}
use realtime_voice_agent.Client.Messages.Opened
use realtime_voice_agent.Client.Messages.Opened.{
  Base64, from_hex, hex_value, hex_pair, is_space, has_upper, characters, parse_grant_fields,
  decode_bytes, parse_host,
}
use realtime_voice_agent.Media.Gateway.{UdpGrant}
use realtime_voice_agent.Worker.Binding.{to_hex, hex_digit}

-- `now_ms` is the wall clock in milliseconds.
unfoldable pub rva_udp_grant : Base64 → UdpGrant → ℕ → Fields
rva_udp_grant base64 g now_ms = field (codes "host") (str g.host) (
    field (codes "port") (nat g.port) (
      field (codes "expires_at_ms") (nat (g.expires_at * 1000)) (
        field (codes "refresh_after_ms")
          (nat (max 1000 (min 3600000 (g.expires_at * 1000 - now_ms - 5000))))
          (field (codes "uplink_key_b64") (str (base64.encode g.uplink_key)) (
            field (codes "uplink_salt_b64") (str (base64.encode g.uplink_salt)) (
              field (codes "downlink_key_b64") (str (base64.encode g.downlink_key)) (
                field (codes "downlink_salt_b64") (str (base64.encode g.downlink_salt))
                  (field (codes "probe_timeout_ms") (nat g.probe_timeout_ms) end))))))))

-- A grant that the gateway makes, of an address and a timeout within the client's bounds.
pub record IsUsable (g : UdpGrant) : Type 0 where
  pub uplink_key : length g.uplink_key ≡ 16
  pub uplink_salt : length g.uplink_salt ≡ 8
  pub downlink_key : length g.downlink_key ≡ 16
  pub downlink_salt : length g.downlink_salt ≡ 8
  pub host : is_empty g.host ≡ false
  pub host_length : characters g.host ≤ 253
  pub port : (1 ≤ g.port) × (g.port ≤ 65535)
  pub expires_at : (1 ≤ g.expires_at) × (g.expires_at * 1000 ≤ 0x7FFFFFFFFFFFFFFF)
  pub probe_timeout_ms : (100 ≤ g.probe_timeout_ms) × (g.probe_timeout_ms ≤ 10000)

-- What `b64decode` documents of what `b64encode` gives.
abbrev pub IsLawful : Base64 → Type 0
IsLawful base64 = (t : Text) → base64.decode (base64.encode t) ≡ some t

abbrev pub granted : UdpGrant → ℕ → Opened.UdpGrant
granted g now_ms = record {
  host = g.host;
  port = g.port;
  expires_at_ms = g.expires_at * 1000;
  refresh_after_ms = max 1000 (min 3600000 (g.expires_at * 1000 - now_ms - 5000));
  uplink_key = g.uplink_key;
  uplink_salt = g.uplink_salt;
  downlink_key = g.downlink_key;
  downlink_salt = g.downlink_salt;
  probe_timeout_ms = g.probe_timeout_ms;
}

module _ (base64 : Base64) (law : IsLawful base64) where
  decode_bytes-encode :
      (t : Text) (size : ℕ)
      → length t ≡ size
      → decode_bytes base64 (str (base64.encode t)) size ≡ ok t
  unfolding decode_bytes
  decode_bytes-encode t size e =
      let same : nat_eq (length t) size ≡ true = ground arith in rw (law t, same) refl

  bounded_int_lem :
      (n low high : ℕ) (name : Text) → low ≤ n → n ≤ high → bounded_int (nat n) low high name ≡ ok n
  unfolding bounded_int
  bounded_int_lem n low high name l h = ground arith

  parse_host_lem :
      (t : Text) → is_empty t ≡ false → characters t ≤ 253 → parse_host base64 (str t) ≡ ok t
  unfolding parse_host
  parse_host_lem t e l = ground arith

  pub parse_grant_fields-rva_udp_grant :
      (g : UdpGrant) (now_ms : ℕ)
      → IsUsable g
      → parse_grant_fields base64 (rva_udp_grant base64 g now_ms) ≡ ok (granted g now_ms)
  unfolding parse_grant_fields rva_udp_grant exact has_all has within at text_eq
  parse_grant_fields-rva_udp_grant g now_ms v =
      rw
        (
          decode_bytes-encode g.uplink_key 16 v.uplink_key,
          decode_bytes-encode g.uplink_salt 8 v.uplink_salt,
          decode_bytes-encode g.downlink_key 16 v.downlink_key,
          decode_bytes-encode g.downlink_salt 8 v.downlink_salt,
          parse_host_lem g.host v.host v.host_length,
          bounded_int_lem g.port 1 65535 _ v.port.0 v.port.1,
          bounded_int_lem (g.expires_at * 1000) 1 0x7FFFFFFFFFFFFFFF _ (omega (arith, v.expires_at))
              v.expires_at.1,
          bounded_int_lem (max 1000 (min 3600000 (g.expires_at * 1000 - now_ms - 5000))) 1000
              3600000 _ (omega arith) (omega arith),
          bounded_int_lem g.probe_timeout_ms 100 10000 _ v.probe_timeout_ms.0 v.probe_timeout_ms.1,
        )
        refl

hex_digit_lem :
    (d : ℕ)
    → d < 16
    → (is_space (hex_digit d) ≡ false)
      × (hex_value (hex_digit d) ≡ some d)
      × ((leb b'A' (hex_digit d) && leb (hex_digit d) b'Z') ≡ false)
unfolding hex_digit hex_value
hex_digit_lem d l = ground arith

hex_pair_lem :
    (c d high low : ℕ) (rest : Option Text) (bytes : Text)
    → hex_value c ≡ some high
    → hex_value d ≡ some low
    → rest ≡ some bytes
    → hex_pair c d rest ≡ some ((high * 16 + low) ∷ bytes)
unfolding hex_pair
hex_pair_lem c d high low rest bytes h l r = rw (h, hex_pair, l, r) refl

from_hex_pair :
    (c d : ℕ) (t : Text) → is_space c ≡ false → from_hex (c ∷ d ∷ t) ≡ hex_pair c d (from_hex t)
unfolding from_hex
from_hex_pair c d t e = rw e refl

pub from_hex-to_hex : (t : Text) → IsBytes t → from_hex (to_hex t) ≡ some t
unfolding to_hex
from_hex-to_hex [] v = unfold from_hex in refl
from_hex-to_hex (b ∷ t) v =
    let high = hex_digit_lem (b / 16) (omega (arith, v.0)) in
    let low = hex_digit_lem (b % 16) (omega arith) in
    let whole : b / 16 * 16 + b % 16 ≡ b = omega arith in
    from_hex_pair (hex_digit (b / 16)) (hex_digit (b % 16)) (to_hex t) high.0
    ∙ hex_pair_lem _ _ (b / 16) (b % 16) _ t high.1 low.1 (from_hex-to_hex t v.1)
    ∙ ap (λ x. some (x ∷ t)) whole

pub has_upper-to_hex : (t : Text) → IsBytes t → has_upper (to_hex t) ≡ false
unfolding to_hex
has_upper-to_hex [] v = refl
has_upper-to_hex (b ∷ t) v =
    let high = hex_digit_lem (b / 16) (omega (arith, v.0)) in
    let low = hex_digit_lem (b % 16) (omega arith) in
    ground (arith, high.2, low.2, has_upper-to_hex t v.1)
