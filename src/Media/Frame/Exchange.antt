-- ===== src/Media/Frame/Exchange.antt =====
-- Frames that one end encodes and the other decodes.
use realtime_voice_agent.Common.{
  ℕ, ◌+◌, ◌≡◌, ◌≤◌, ◌<◌, true, [], ◌∷◌, ◌++◌, length, Text, text_key, arith, ok, none, inl, inr,
  Option-cases,
}
use realtime_voice_agent.Media.Frame.{
  Header, MediaFrame, pack_header, unpack_header, check_fields, check_payload, check_header,
  check_length, encode_plain, decode_header, decode_plain, is_valid_flags,
}
use realtime_voice_agent.Media.Frame.Layout.{
  Fits, unpack_header-pack_header, drop-pack_header, length-pack_header, is_supported-pack_header,
}
use realtime_voice_agent.Media.Wire.{
  check_wss, serialize, check_parsed, parse, check_udp, decode_udp,
}

-- A frame as the header states it: its length field is the payload's.
abbrev pub with_length : MediaFrame → MediaFrame
with_length f = record {
  header = record f.header { payload_length = length f.payload };
  payload = f.payload;
}

abbrev wire_of : MediaFrame → Text
wire_of f = pack_header (record f.header { payload_length = length f.payload }) ++ f.payload

check_fields-Fits :
    (h : Header) (n : ℕ) → check_fields h ≡ none → n ≤ 1200 → Fits (record h { payload_length = n })
unfolding check_fields
check_fields-Fits h n e l = record {
  media_id = ground arith;
  media_epoch = ground arith;
  sequence = ground arith;
  timestamp = ground arith;
  generation = ground arith;
  payload_length = omega (arith, l);
}

encoded_checks :
    (f : MediaFrame) (wire : Text)
    → encode_plain f ≡ ok wire
    → (check_fields f.header ≡ none)
      × ((check_payload f.header f.payload ≡ none) × (wire ≡ wire_of f))
unfolding encode_plain
encoded_checks f wire h = elim (Option-cases (check_fields f.header)) [
  | inr (x, e) ↦ absurd (ground (arith, e))
  | inl e ↦ elim (Option-cases (check_payload f.header f.payload)) [
    | inr (x, g) ↦ absurd (ground (arith, e, g))
    | inl g ↦ (e, (g, ground (arith, e, g)))
  ]
]

check_payload-length : (h : Header) (p : Text) → check_payload h p ≡ none → length p ≤ 1200
unfolding check_payload
check_payload-length h p e = ground arith

-- What the client's tests on a frame say of the tests that the client makes on its header.
check_header-none :
    (h : Header) (p : Text)
    → check_fields h ≡ none
    → check_payload h p ≡ none
    → check_header (record h { payload_length = length p }) ≡ none
unfolding check_header check_fields check_length check_payload
check_header-none h [] e g = ground (arith, e, g)
check_header-none h (x ∷ p) e g = ground (arith, e, g)

-- The client decodes what it encodes: a frame that `encode_plain` accepts comes back as it was, with
-- the payload's length in its header.
pub decode_plain-encode_plain :
    (f : MediaFrame) (wire : Text)
    → encode_plain f ≡ ok wire
    → decode_plain wire ≡ ok (with_length f)
unfolding decode_plain decode_header
decode_plain-encode_plain f wire h =
    let (e, (g, w)) = encoded_checks f wire h in
    let l = check_payload-length f.header f.payload g in
    let hd = record f.header { payload_length = length f.payload } in
    let v = check_fields-Fits f.header (length f.payload) e l in
    ground (
      arith,
      w,
      unpack_header-pack_header hd f.payload v,
      drop-pack_header hd f.payload v,
      length-pack_header hd f.payload v,
      is_supported-pack_header hd f.payload,
      check_header-none f.header f.payload e g,
    )

check_parsed-none :
    (h : Header) (p : Text)
    → h.flags ≡ 1
    → check_fields h ≡ none
    → check_payload h p ≡ none
    → check_parsed (record h { payload_length = length p }) p ≡ none
unfolding check_fields check_parsed check_payload
check_parsed-none h [] a e g = absurd (ground (arith, a, g))
check_parsed-none h (x ∷ p) a e g = ground (arith, a, e, g)

-- The Worker reads what the client writes: an audio frame that `encode_plain` accepts is parsed as it
-- was, with the payload's length in its header.
pub parse-encode_plain :
    (f : MediaFrame) (wire : Text)
    → f.header.flags ≡ 1
    → encode_plain f ≡ ok wire
    → parse wire ≡ ok (with_length f)
unfolding parse
parse-encode_plain f wire a h =
    let (e, (g, w)) = encoded_checks f wire h in
    let l = check_payload-length f.header f.payload g in
    let hd = record f.header { payload_length = length f.payload } in
    let v = check_fields-Fits f.header (length f.payload) e l in
    ground (
      arith,
      w,
      unpack_header-pack_header hd f.payload v,
      drop-pack_header hd f.payload v,
      length-pack_header hd f.payload v,
      is_supported-pack_header hd f.payload,
      check_parsed-none f.header f.payload a e g,
    )

-- The tests of the Worker on a frame are those of the client on an audio frame.
check_wss-none :
    (h : Header) (p : Text)
    → check_wss h p ≡ none
    → (h.flags ≡ 1) × ((check_fields h ≡ none) × (check_payload h p ≡ none))
unfolding check_wss check_fields check_payload is_valid_flags
check_wss-none h [] e = absurd (ground arith)
check_wss-none h (x ∷ p) e = (ground arith, (ground arith, ground arith))

-- The client reads what the Worker writes: a frame that `serialize` accepts is decoded as it was, with
-- the payload's length in its header.
pub decode_plain-serialize :
    (f : MediaFrame) (wire : Text) → serialize f ≡ ok wire → decode_plain wire ≡ ok (with_length f)
unfolding serialize
decode_plain-serialize f wire h = elim (Option-cases (check_wss f.header f.payload)) [
  | inr (x, e) ↦ absurd (ground (arith, e))
  | inl e ↦
      let (a, (b, c)) = check_wss-none f.header f.payload e in
      decode_plain-encode_plain f wire (unfold encode_plain in ground (arith, e, b, c))
]

-- A UDP header whose fields fit, with a non-zero epoch and a payload of at most 1200 bytes, is decoded
-- from its encoding before any sealed payload of the stated length and a tag.
pub decode_udp-pack_header :
    (h : Header) (sealed : Text)
    → Fits h
    → 0 < h.media_epoch
    → h.payload_length ≤ 1200
    → length sealed ≡ h.payload_length + 16
    → decode_udp (pack_header h ++ sealed) ≡ ok (h, sealed)
unfolding decode_udp check_udp
decode_udp-pack_header h sealed v p l n = ground (
  arith,
  unpack_header-pack_header h sealed v,
  drop-pack_header h sealed v,
  length-pack_header h sealed v,
  is_supported-pack_header h sealed,
)

-- What the Worker decodes from a datagram is the header and the sealed payload that the client's
-- `decode_header` reads from it, whenever the client accepts the datagram.
pub decode_udp-decode_header :
    (datagram : Text) (h : Header) (sealed : Text)
    → decode_header true datagram ≡ ok (h, sealed)
    → decode_udp datagram ≡ ok (h, sealed)
unfolding decode_header decode_udp check_udp
decode_udp-decode_header datagram h sealed e =
    elim (Option-cases (check_header (unpack_header datagram))) [
      | inr (x, g) ↦ absurd (ground (arith, g))
      | inl g ↦ unfold check_header check_fields check_length in ground (arith, g)
    ]
