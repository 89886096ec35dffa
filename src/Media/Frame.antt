-- ===== src/Media/Frame.antt =====
-- The 32-byte media header, `struct.Struct("!2sBB8sIIIII")` at both ends, and the frames that it
-- starts: `MediaFrame` of the client's protocol/media.py.
pub mod Layout
pub mod Exchange
use realtime_voice_agent.Common.{
  ℕ, ◌+◌, ◌*◌, ◌/◌, ◌%◌, ◌≡◌, Bool, true, false, not, ◌&&◌, ◌||◌, if◌then◌else◌, ltb, leb, nat_eq,
  List, [], ◌∷◌, ◌++◌, length, take, drop, Text, text_key, ◌==◌, is_empty, Result, ok, err, Option,
  none, some,
}

-- One `I` field: four bytes, the most significant first.
unfoldable pub pack_word : ℕ → Text
pack_word n = n / 16777216 % 256 ∷ n / 65536 % 256 ∷ n / 256 % 256 ∷ n % 256 ∷ []

-- The first four bytes as a number. Fewer are never given: lengths are tested first.
unfoldable pub unpack_word : Text → ℕ
unpack_word (a ∷ b ∷ c ∷ d ∷ rest) = a * 16777216 + b * 65536 + c * 256 + d
unpack_word _ = 0

unfoldable pub unpack_byte : Text → ℕ
unpack_byte (a ∷ rest) = a
unpack_byte [] = 0

pub record Header : Type 0 where
  pub flags : ℕ
  pub media_id : Text
  pub media_epoch : ℕ
  pub sequence : ℕ
  pub timestamp : ℕ
  pub generation : ℕ
  pub payload_length : ℕ

abbrev pub magic : Text
magic = 86 ∷ 65 ∷ []

-- The five `I` fields.
unfoldable pub pack_words : Header → Text
unfolding pack_word
pack_words h =
    pack_word h.media_epoch
    ++ pack_word h.sequence
    ++ pack_word h.timestamp
    ++ pack_word h.generation
    ++ pack_word h.payload_length

-- `_HEADER.pack(MAGIC, WIRE_VERSION, ...)`, of a media id of eight bytes
unfoldable pub pack_header : Header → Text
pack_header h = 86 ∷ 65 ∷ 1 ∷ h.flags ∷ (h.media_id ++ pack_words h)

-- `_HEADER.unpack_from(wire)`, without the magic and the version
unfoldable pub unpack_header : Text → Header
unpack_header wire = record {
  flags = unpack_byte (drop 3 wire);
  media_id = take 8 (drop 4 wire);
  media_epoch = unpack_word (drop 12 wire);
  sequence = unpack_word (drop 16 wire);
  timestamp = unpack_word (drop 20 wire);
  generation = unpack_word (drop 24 wire);
  payload_length = unpack_word (drop 28 wire);
}

-- `magic != MAGIC or version != WIRE_VERSION`, negated
unfoldable pub is_supported : Text → Bool
is_supported wire = (take 2 wire == magic) && nat_eq (unpack_byte (drop 2 wire)) 1

pub data FrameError : Type 0 where
  invalid_media_flags invalid_media_id invalid_media_epoch invalid_sequence : FrameError
  invalid_timestamp invalid_generation invalid_media_payload non_audio_payload : FrameError
  invalid_media_generation truncated_media_header media_frame_too_large : FrameError
  unsupported_media_header media_length_mismatch : FrameError

pub record MediaFrame : Type 0 where
  pub header : Header
  pub payload : Text

abbrev pub flag_audio : ℕ
flag_audio = 1

abbrev pub max_payload_bytes : ℕ
max_payload_bytes = 1200

unfoldable pub is_valid_flags : ℕ → Bool
is_valid_flags flags = nat_eq flags 1 || nat_eq flags 2 || nat_eq flags 4 || nat_eq flags 8

-- `minimum <= value <= 0xFFFFFFFF`
abbrev pub uint32 : ℕ → ℕ → Bool
uint32 minimum value = leb minimum value && leb value 0xFFFFFFFF

-- The tests of both directions on the fields of a header: the error of the first that fails.
unfoldable pub check_fields : Header → Option FrameError
check_fields h =
    if not (is_valid_flags h.flags)
    then some invalid_media_flags
    else if not (nat_eq (length h.media_id) 8)
    then some invalid_media_id
    else if not (uint32 1 h.media_epoch)
    then some invalid_media_epoch
    else if not (uint32 0 h.sequence)
    then some invalid_sequence
    else if not (uint32 0 h.timestamp)
    then some invalid_timestamp
    else if not (uint32 0 h.generation)
    then some invalid_generation
    else none

-- The rest of the tests of `header()`.
unfoldable pub check_payload : Header → Text → Option FrameError
check_payload h payload =
    if ltb max_payload_bytes (length payload)
    then some invalid_media_payload
    else if nat_eq h.flags flag_audio && is_empty payload
    then some invalid_media_payload
    else if not (nat_eq h.flags flag_audio) && not (is_empty payload)
    then some non_audio_payload
    else if not (nat_eq h.flags flag_audio) && not (nat_eq h.generation 0)
    then some invalid_media_generation
    else none

-- `header() + payload`. The last field of the header is the payload's length, whatever `f` says.
unfoldable pub encode_plain : MediaFrame → Result FrameError Text
encode_plain f = elim (check_fields f.header) [
  | some e ↦ err e
  | none ↦ elim (check_payload f.header f.payload) [
    | some e ↦ err e
    | none ↦ ok (pack_header (record f.header { payload_length = length f.payload }) ++ f.payload)
  ]
]

abbrev pub tag_bytes : Bool → ℕ
tag_bytes encrypted = if encrypted then 16 else 0

abbrev pub max_frame_bytes : Bool → ℕ
max_frame_bytes encrypted = if encrypted then 1280 else 1232

-- What `decode_header` tests after the fields.
unfoldable pub check_length : Header → Option FrameError
check_length h =
    if not (nat_eq h.flags flag_audio) && not (nat_eq h.generation 0)
    then some invalid_media_generation
    else if nat_eq h.flags flag_audio && nat_eq h.payload_length 0
    then some invalid_media_payload
    else if ltb max_payload_bytes h.payload_length
    then some invalid_media_payload
    else none

unfoldable pub check_header : Header → Option FrameError
check_header h = elim (check_fields h) [ some e ↦ some e | none ↦ check_length h ]

-- The header and what follows it.
unfoldable pub decode_header : Bool → Text → Result FrameError (Header × Text)
decode_header encrypted wire =
    if ltb (length wire) (32 + tag_bytes encrypted)
    then err truncated_media_header
    else if ltb (max_frame_bytes encrypted) (length wire)
    then err media_frame_too_large
    else if not (is_supported wire)
    then err unsupported_media_header
    else if not
        (nat_eq (length (drop 32 wire)) ((unpack_header wire).payload_length + tag_bytes encrypted))
    then err media_length_mismatch
    else elim (check_header (unpack_header wire)) [
      | some e ↦ err e
      | none ↦ ok (unpack_header wire, drop 32 wire)
    ]

unfoldable pub decode_plain : Text → Result FrameError MediaFrame
decode_plain wire = elim (decode_header false wire) [
  | err e ↦ err e
  | ok (h, tail) ↦ ok (record { header = h; payload = tail })
]
