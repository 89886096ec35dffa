-- ===== src/Worker/Protocol.antt =====
-- bindings/rva/protocol.py: the Worker's reading of control messages.
use realtime_voice_agent.Common.{
  ℕ, suc, Bool, true, false, not, ◌&&◌, Option, none, some, List, [], ◌∷◌, ◌++◌, if◌then◌else◌, ltb,
  leb, nat_eq, Text, codes, text_key, contains, is_unique, Result, ok, err, guard, ◌>>=◌, ◌>>◌,
}
use realtime_voice_agent.Common.Json.{
  Json, nat, arr, obj, bool, Items, nil, item, Fields, end, field, at, has_all, within, as_text,
  as_nat, as_object, is_identifier, is_audio_profile, is_text,
}
use realtime_voice_agent.Worker.Response.{ResponseError}
use realtime_voice_agent.Media.Frame.{FrameError}

-- `RvaBindingError` by its code, with those of the coordinator and of the media frames; the raise of
-- `message_too_large`; and the `TypeError` of a list or an object that is looked up in a set.
pub data BindingError : Type 0 where
  code : Text → BindingError
  response : ResponseError → BindingError
  frame : FrameError → BindingError
  message_too_large unhashable : BindingError

abbrev pub fail {ℓ} : {A : Type ℓ} → Text → Result BindingError A
fail c = err (code c)

abbrev pub require : Bool → Text → Result BindingError (Unit {0})
require b c = guard b (code c)

abbrev pub control_max_bytes : ℕ
control_max_bytes = 32768

abbrev pub wss_profile : Text
wss_profile = codes "wss-opus/1"

abbrev pub udp_profile : Text
udp_profile = codes "udp-opus-gcm/1"

abbrev pub supported_profiles : List Text
supported_profiles = wss_profile ∷ udp_profile ∷ []

unfoldable pub require_identifier : Json → Text → Result BindingError Text
require_identifier value name = elim (as_text value) [
  | none ↦ fail (codes "invalid_" ++ name)
  | some t ↦ if is_identifier t then ok t else fail (codes "invalid_" ++ name)
]

unfoldable pub require_bounded : ℕ → ℕ → Json → Text → Result BindingError ℕ
require_bounded minimum maximum value name = elim (as_nat value) [
  | none ↦ fail (codes "invalid_" ++ name)
  | some n ↦ if leb minimum n && leb n maximum then ok n else fail (codes "invalid_" ++ name)
]

unfoldable pub require_uint32 : ℕ → Json → Text → Result BindingError ℕ
require_uint32 minimum value name = require_bounded minimum 0xFFFFFFFF value name

unfoldable pub require_exact_fields : List Text → Fields → Result BindingError (Unit {0})
require_exact_fields fields message =
    require (has_all fields message) (codes "missing_field")
    >> require (within fields message) (codes "unknown_field")

-- What `json.loads` makes of a text frame, with `_unique_object` as its hook: the raise of either, or
-- a value.
pub data Loaded : Type 0 where
  invalid_json duplicate_json_key : Loaded
  value : Json → Loaded

-- A control frame: how many bytes its text takes in UTF-8, and what it says.
pub record Frame : Type 0 where
  pub bytes : ℕ
  pub loaded : Loaded

unfoldable pub loaded_object : Loaded → Result BindingError Fields
loaded_object invalid_json = fail (codes "invalid_json")
loaded_object duplicate_json_key = fail (codes "duplicate_json_key")
loaded_object (value v) = elim (as_object v) [
  | none ↦ fail (codes "control_message_must_be_object")
  | some m ↦ ok m
]

unfoldable pub decode_control : Frame → Result BindingError Fields
decode_control f =
    if ltb control_max_bytes f.bytes then err message_too_large else loaded_object f.loaded

module _ (encoded_bytes : Json → ℕ) where
  -- The message stands for its text; `encoded_bytes` is the UTF-8 length of what `json.dumps` gives.
  unfoldable pub encode_control : Fields → Result BindingError Fields
  encode_control message =
      if ltb control_max_bytes (encoded_bytes (obj message))
      then err message_too_large
      else ok message

pub record SessionOpen : Type 0 where
  pub request_id : Text
  pub device_id : Text
  pub supported_media_profiles : List Text
  pub preferred_media_profile : Text
  pub capabilities : Fields

-- The list as texts, if every entry is a supported profile.
unfoldable pub read_profiles : Items → Option (List Text)
read_profiles nil = some []
read_profiles (item v rest) = elim (as_text v) [
  | none ↦ none
  | some t ↦
      if not (contains supported_profiles t)
      then none
      else elim (read_profiles rest) [ none ↦ none | some ts ↦ some (t ∷ ts) ]
]

abbrev pub count_items : Items → ℕ
count_items nil = 0
count_items (item v rest) = suc (count_items rest)

unfoldable pub parse_profiles : Json → Result BindingError (List Text)
parse_profiles (arr items) =
    require (leb 1 (count_items items) && leb (count_items items) 2)
      (codes "invalid_media_profiles")
    >> elim (read_profiles items) [
      | none ↦ fail (codes "unsupported_media_profile")
      | some profiles ↦
          if is_unique profiles then ok profiles else fail (codes "duplicate_media_profile")
    ]
parse_profiles _ = fail (codes "invalid_media_profiles")

unfoldable pub parse_preferred : Json → List Text → Result BindingError Text
parse_preferred v profiles = elim (as_text v) [
  | none ↦ fail (codes "unsupported_preference")
  | some t ↦ if contains profiles t then ok t else fail (codes "unsupported_preference")
]

abbrev all_bools : Fields → Bool
all_bools end = true
all_bools (field n (bool b) m) = all_bools m
all_bools (field n v m) = false

abbrev pub capability_names : List Text
capability_names =
    codes "aec" ∷ codes "vad" ∷ codes "wake_word" ∷ codes "display" ∷ codes "touch" ∷ []

unfoldable pub validate_capabilities : Json → Result BindingError Fields
validate_capabilities (obj m) =
    if within capability_names m && all_bools m then ok m else fail (codes "invalid_capabilities")
validate_capabilities _ = fail (codes "invalid_capabilities")

abbrev pub session_open_fields : List Text
session_open_fields =
    codes "type"
    ∷ codes "protocol_version"
    ∷ codes "request_id"
    ∷ codes "device_id"
    ∷ codes "supported_media_profiles"
    ∷ codes "preferred_media_profile"
    ∷ codes "audio"
    ∷ codes "capabilities"
    ∷ []

abbrev pub is_version : Json → Bool
is_version (nat n) = nat_eq n 1
is_version _ = false

unfoldable pub parse_session_open_object : Fields → Result BindingError SessionOpen
parse_session_open_object message =
    require_exact_fields session_open_fields message
    >> require (is_text (codes "session.open") (at (codes "type") message))
        (codes "expected_session_open")
    >> require (is_version (at (codes "protocol_version") message)) (codes "unsupported_version")
    >> (require_identifier (at (codes "request_id") message) (codes "request_id") >>= λ request_id.
        require_identifier (at (codes "device_id") message) (codes "device_id") >>= λ device_id.
        parse_profiles (at (codes "supported_media_profiles") message) >>= λ profiles.
        parse_preferred (at (codes "preferred_media_profile") message) profiles >>= λ preferred.
        require (is_audio_profile (at (codes "audio") message)) (codes "unsupported_audio_profile")
        >> (validate_capabilities (at (codes "capabilities") message) >>= λ capabilities.
            ok (record {
              request_id = request_id;
              device_id = device_id;
              supported_media_profiles = profiles;
              preferred_media_profile = preferred;
              capabilities = capabilities;
            })))
