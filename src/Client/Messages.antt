-- ===== src/Client/Messages.antt =====
-- rva_desktop/protocol/control.py: the client's control messages, and the part of config.py that its
-- opening message reads.
pub mod Server
pub mod Opened
use realtime_voice_agent.Common.{
  ℕ, suc, Bool, true, false, not, ◌&&◌, ◌||◌, Option, none, some, List, [], ◌∷◌, ◌++◌, length, all,
  map, if◌then◌else◌, ltb, leb, nat_eq, Text, codes, text_key, ◌==◌, contains, is_unique, Result,
  ok, err, guard, ◌>>=◌, ◌>>◌, is_empty, Eq, ◌≡◌, ◌↔◌, arith,
}
use realtime_voice_agent.Common.Json.{
  Json, nat, str, arr, obj, bool, Items, nil, item, Fields, end, field, at, has_all, within,
  as_text, as_nat, as_object, is_identifier, is_alphanumeric, in_class, is_error_code,
  audio_profile,
}

-- `ProtocolError` by its code, the `TypeError` of a list or an
-- object that is looked up in a set, and the `ValueError` of a profile that is none.
pub data MessageError : Type 0 where
  protocol : Text → MessageError
  unhashable value_error : MessageError

abbrev pub refuse {ℓ} : {A : Type ℓ} → Text → Result MessageError A
refuse c = err (protocol c)

abbrev pub expect : Bool → Text → Result MessageError (Unit {0})
expect b c = guard b (protocol c)

pub data MediaProfile : Type 0 where
  wss_opus_v1 udp_opus_gcm_v1 : MediaProfile

abbrev pub profile_eq : MediaProfile → MediaProfile → Bool
profile_eq wss_opus_v1 wss_opus_v1 = true
profile_eq udp_opus_gcm_v1 udp_opus_gcm_v1 = true
profile_eq _ _ = false

pub profile_eq_iff : (a b : MediaProfile) → (profile_eq a b ≡ true) ↔ (a ≡ b)
profile_eq_iff a b = ground arith

instance abbrev pub media_profile_key : Eq MediaProfile
media_profile_key = record { test = profile_eq; test_iff = profile_eq_iff }

abbrev pub profile_value : MediaProfile → Text
profile_value wss_opus_v1 = codes "wss-opus/1"
profile_value udp_opus_gcm_v1 = codes "udp-opus-gcm/1"

pub record EndpointCapabilities : Type 0 where
  pub aec : Bool
  pub vad : Bool
  pub wake_word : Bool
  pub display : Bool
  pub touch : Bool

unfoldable pub as_wire : EndpointCapabilities → Fields
as_wire c = field (codes "aec") (bool c.aec) (
    field (codes "vad") (bool c.vad) (
      field (codes "wake_word") (bool c.wake_word)
        (field (codes "display") (bool c.display) (field (codes "touch") (bool c.touch) end))))

-- The fields of `ClientConfig` that go into the opening message.
pub record ClientConfig : Type 0 where
  pub device_id : Text
  pub supported_profiles : List MediaProfile
  pub preferred_profile : MediaProfile
  pub capabilities : EndpointCapabilities

-- `[A-Za-z0-9][A-Za-z0-9_.:-]{0,95}`
unfoldable pub is_bootstrap_identifier : Text → Bool
is_bootstrap_identifier [] = false
is_bootstrap_identifier (c ∷ cs) =
    is_alphanumeric c
    && leb (length cs) 95
    && all (λ c. is_alphanumeric c || in_class (b'.' ∷ b'_' ∷ b':' ∷ b'-' ∷ []) c) cs

-- The tests of `__post_init__` on these fields.
unfoldable pub is_valid_config : ClientConfig → Bool
is_valid_config c =
    is_bootstrap_identifier c.device_id
    && not (is_empty c.supported_profiles)
    && is_unique c.supported_profiles
    && contains c.supported_profiles c.preferred_profile

abbrev pub profile_items : List MediaProfile → Items
profile_items [] = nil
profile_items (p ∷ ps) = item (str (profile_value p)) (profile_items ps)

unfoldable pub require_identifier : Json → Text → Result MessageError Text
require_identifier value name = elim (as_text value) [
  | none ↦ refuse (codes "invalid_" ++ name)
  | some t ↦ if is_identifier t then ok t else refuse (codes "invalid_" ++ name)
]

unfoldable pub session_open : ClientConfig → Text → Fields
session_open config request_id = field (codes "type") (str (codes "session.open")) (
    field (codes "protocol_version") (nat 1) (
      field (codes "request_id") (str request_id) (
        field (codes "device_id") (str config.device_id) (
          field (codes "supported_media_profiles") (arr (profile_items config.supported_profiles)) (
            field (codes "preferred_media_profile") (str (profile_value config.preferred_profile)) (
              field (codes "audio") audio_profile
                (field (codes "capabilities") (obj (as_wire config.capabilities)) end)))))))

unfoldable pub build_session_open : ClientConfig → Text → Result MessageError Fields
build_session_open config request_id =
    require_identifier (str request_id) (codes "request_id") >>= λ _.
    ok (session_open config request_id)

unfoldable pub bounded_int : Json → ℕ → ℕ → Text → Result MessageError ℕ
bounded_int value minimum maximum name = elim (as_nat value) [
  | none ↦ refuse (codes "invalid_" ++ name)
  | some n ↦ if leb minimum n && leb n maximum then ok n else refuse (codes "invalid_" ++ name)
]

unfoldable pub uint32 : Json → Text → ℕ → Result MessageError ℕ
uint32 value name minimum = bounded_int value minimum 0xFFFFFFFF name

unfoldable pub exact : List Text → List Text → Fields → Result MessageError (Unit {0})
exact expected optional message =
    expect (has_all expected message) (codes "missing_field")
    >> expect (within (expected ++ optional) message) (codes "unknown_field")

unfoldable pub check_error_code : Json → Result MessageError (Unit {0})
check_error_code value = elim (as_text value) [
  | none ↦ refuse (codes "invalid_error_code")
  | some t ↦ if is_error_code t then ok tt else refuse (codes "invalid_error_code")
]

unfoldable pub check_text : Json → ℕ → Bool → Result MessageError (Unit {0})
check_text value maximum_bytes allow_empty = elim (as_text value) [
  | none ↦ refuse (codes "invalid_text")
  | some t ↦
      if (not allow_empty && is_empty t) || in_class t 0
      then refuse (codes "invalid_text")
      else if ltb maximum_bytes (length t)
      then refuse (codes "text_too_large")
      else ok tt
]

unfoldable pub check_target : Json → Result MessageError (Unit {0})
check_target value = elim (as_object value) [
  | none ↦ refuse (codes "invalid_playback_target")
  | some m ↦
      exact (codes "response_id" ∷ codes "generation" ∷ []) [] m
      >> (require_identifier (at (codes "response_id") m) (codes "response_id") >>= λ _.
          uint32 (at (codes "generation") m) (codes "generation") 1 >>= λ _. ok tt)
]
