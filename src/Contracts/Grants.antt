-- ===== src/Contracts/Grants.antt =====
-- voice_contracts/grants.py, `GrantCodec`: the signed token that the Director issues and the Worker
-- verifies. Base64, HMAC-SHA256, JSON and the validation by pydantic are parameters.
pub mod Issued
use realtime_voice_agent.Common.{
  ℕ, ◌+◌, Bool, true, false, not, ◌&&◌, ◌||◌, if◌then◌else◌, ltb, leb, List, [], ◌∷◌, all, ◌++◌,
  Text, text_key, nat_key, ◌==◌, Option, none, some, Result, ok, err, codes,
}
use realtime_voice_agent.Contracts.Models.{ConnectGrantClaims}

-- The messages of `GrantError`. The last one is none of them, but the `UnicodeEncodeError` of
-- `encode("ascii")`, which `verify` lets out.
pub data GrantError : Type 0 where
  malformed_grant malformed_grant_encoding malformed_grant_header unsupported_grant_header :
      GrantError
  invalid_grant_signature invalid_grant_claims grant_expired invalid_grant_lifetime : GrantError
  other_worker other_device unicode_encode_error : GrantError

abbrev pub is_grant_error : GrantError → Bool
is_grant_error malformed_grant = true
is_grant_error malformed_grant_encoding = true
is_grant_error malformed_grant_header = true
is_grant_error unsupported_grant_header = true
is_grant_error invalid_grant_signature = true
is_grant_error invalid_grant_claims = true
is_grant_error grant_expired = true
is_grant_error invalid_grant_lifetime = true
is_grant_error other_worker = true
is_grant_error other_device = true
is_grant_error unicode_encode_error = false

pub record Ports : Type 0 where
  -- `_encode` and `_decode`; `none` is the error.
  pub encode : Text → Text
  pub decode : Text → Option Text
  -- `hmac.new(key, message, hashlib.sha256).digest()`
  pub sign : Text → Text → Text
  -- `model_dump_json` and `model_validate_json`
  pub dump_claims : ConnectGrantClaims → Text
  pub load_claims : Text → Option ConnectGrantClaims
  -- `json.loads(header) == {"alg": "HS256", "typ": "VAG", "v": 1}`; `none` if it does not parse.
  pub load_header : Text → Option Bool

pub record GrantCodec : Type 0 where
  pub ports : Ports
  pub key : Text
  pub clock_skew : ℕ

abbrev pub dot : ℕ
dot = 46

abbrev pub header_json : Text
header_json = codes "{\"alg\":\"HS256\",\"typ\":\"VAG\",\"v\":1}"

unfoldable pub cons_first : ℕ → List Text → List Text
cons_first c [] = []
cons_first c (part ∷ parts) = (c ∷ part) ∷ parts

-- `token.split(".")`
unfoldable pub split_dots : Text → List Text
split_dots [] = [] ∷ []
split_dots (c ∷ cs) =
    let parts = split_dots cs in if c == dot then [] ∷ parts else cons_first c parts

module _ (codec : GrantCodec) where
  abbrev pub signing_input : Text → Text → Text
  signing_input header payload = header ++ dot ∷ payload

  unfoldable pub issue : ConnectGrantClaims → Text
  issue claims =
      let header = codec.ports.encode header_json in
      let payload = codec.ports.encode (codec.ports.dump_claims claims) in
      let signature =
        codec.ports.encode (codec.ports.sign codec.key (signing_input header payload)) in
      header ++ dot ∷ (payload ++ dot ∷ signature)

  -- `value is not None and claimed != value`
  abbrev pub differs : Option Text → Text → Bool
  differs none claimed = false
  differs (some value) claimed = not (claimed == value)

  -- The tests on the claims, from the expiry on.
  unfoldable pub check_claims :
      ConnectGrantClaims → ℕ → Option Text → Option Text → Result GrantError ConnectGrantClaims
  check_claims claims now worker_id device_id =
      if leb claims.exp now
      then err grant_expired
      else if ltb (now + codec.clock_skew) claims.iat || leb claims.exp claims.iat
      then err invalid_grant_lifetime
      else if differs worker_id claims.worker_id
      then err other_worker
      else if differs device_id claims.device_id
      then err other_device
      else ok claims

  unfoldable pub open_payload :
      Text → ℕ → Option Text → Option Text → Result GrantError ConnectGrantClaims
  open_payload payload now worker_id device_id = elim (codec.ports.decode payload) [
    | none ↦ err malformed_grant_encoding
    | some json ↦ elim (codec.ports.load_claims json) [
      | none ↦ err invalid_grant_claims
      | some claims ↦ check_claims claims now worker_id device_id
    ]
  ]

  unfoldable pub check_signature :
      Text → Text → Text → ℕ → Option Text → Option Text → Result GrantError ConnectGrantClaims
  check_signature header payload supplied now worker_id device_id =
      elim (codec.ports.decode supplied) [
        | none ↦ err malformed_grant_encoding
        | some signature ↦
            if codec.ports.sign codec.key (signing_input header payload) == signature
            then open_payload payload now worker_id device_id
            else err invalid_grant_signature
      ]

  -- The header is ASCII once it is decoded; the payload need not be.
  unfoldable pub check_ascii :
      Text → Text → Text → ℕ → Option Text → Option Text → Result GrantError ConnectGrantClaims
  check_ascii header payload supplied now worker_id device_id =
      if all (λ c. ltb c 128) payload
      then check_signature header payload supplied now worker_id device_id
      else err unicode_encode_error

  unfoldable pub verify_parts :
      Text → Text → Text → ℕ → Option Text → Option Text → Result GrantError ConnectGrantClaims
  verify_parts header payload supplied now worker_id device_id = elim (codec.ports.decode header) [
    | none ↦ err malformed_grant_encoding
    | some json ↦ elim (codec.ports.load_header json) [
      | none ↦ err malformed_grant_header
      | some supported ↦
          if supported
          then check_ascii header payload supplied now worker_id device_id
          else err unsupported_grant_header
    ]
  ]

  unfoldable pub three_parts :
      List Text → ℕ → Option Text → Option Text → Result GrantError ConnectGrantClaims
  three_parts [] now w d = err malformed_grant
  three_parts (header ∷ []) now w d = err malformed_grant
  three_parts (header ∷ payload ∷ []) now w d = err malformed_grant
  three_parts (header ∷ payload ∷ supplied ∷ []) now w d =
      verify_parts header payload supplied now w d
  three_parts (header ∷ payload ∷ supplied ∷ more ∷ rest) now w d = err malformed_grant

  unfoldable pub verify :
      ℕ → Text → Option Text → Option Text → Result GrantError ConnectGrantClaims
  verify now token worker_id device_id = three_parts (split_dots token) now worker_id device_id
