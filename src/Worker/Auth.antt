-- ===== src/Worker/Auth.antt =====
-- realtime_worker/auth.py, `WorkerAuthenticator` and `resolve_device_id`. Log lines, and the
-- `device_ref` that only they use, are left out. A text here is a list of code points.
pub mod Accepted
pub mod Bootstrapped
mod Tests
use realtime_voice_agent.Common.{
  ◌==◌, Result, ok, err, all, ltb, ℕ, ◌+◌, Bool, true, false, not, ◌&&◌, ◌||◌, if◌then◌else◌, leb,
  length, contains, List, [], ◌∷◌, ◌++◌, map, Text, text_key, nat_key, Option, none, some, codes,
}
use realtime_voice_agent.Contracts.Models.{
  ConnectGrantClaims, ControlProtocol, control_eq, TransportProfile, wss_opus_1, udp_opus_gcm_1,
}
use realtime_voice_agent.Contracts.Grants
use realtime_voice_agent.Contracts.Grants.{GrantCodec, is_grant_error}

pub record AuthContext : Type 0 where
  pub tenant_id : Text
  pub device_id : Text
  pub allowed_profiles : List TransportProfile
  pub session_epoch : Option Text
  pub fencing_token : Option ℕ
  pub expires_at : Option ℕ
  pub control_protocol : ControlProtocol

pub record VerifiedAuth : Type 0 where
  pub context : AuthContext
  pub director_grant : Option Text

-- `WorkerAuthenticator.__init__`; `lab_token` is `none` unless lab credentials are allowed.
pub record WorkerAuthenticator : Type 0 where
  pub worker_id : Text
  pub rva_udp_enabled : Bool
  pub lab_token : Option Text
  pub codec : GrantCodec

-- `authorization.partition(" ")`: what stands before the first space, and what stands after it.
unfoldable pub before_space : Text → Text
before_space [] = []
before_space (c ∷ cs) = let rest = before_space cs in if c == 32 then [] else c ∷ rest

unfoldable pub after_space : Text → Text
after_space [] = []
after_space (c ∷ cs) = let rest = after_space cs in if c == 32 then cs else rest

-- `lower()`, for the comparison with an ASCII word without k or s: no other character than the ASCII
-- capital has one of its letters as lower case.
unfoldable pub lower : ℕ → ℕ
lower c = if leb 65 c && leb c 90 then c + 32 else c

-- The exceptions that leave `verify`.
pub data AuthException : Type 0 where
  unicode_encode_error non_ascii_comparison : AuthException

abbrev pub is_ascii : Text → Bool
is_ascii text = all (λ c. ltb c 128) text

-- `hmac.compare_digest` of two `str` wants ASCII.
unfoldable pub is_lab_token : Option Text → Text → Result AuthException Bool
is_lab_token none supplied = ok false
is_lab_token (some token) supplied =
    if is_ascii supplied && is_ascii token then ok (supplied == token) else err non_ascii_comparison

unfoldable pub lab_auth : WorkerAuthenticator → Text → ControlProtocol → VerifiedAuth
lab_auth a device_id control_protocol = record {
  context = record {
    tenant_id = codes "lab";
    device_id = device_id;
    allowed_profiles =
        if a.rva_udp_enabled then wss_opus_1 ∷ udp_opus_gcm_1 ∷ [] else wss_opus_1 ∷ [];
    session_epoch = none;
    fencing_token = none;
    expires_at = none;
    control_protocol = control_protocol;
  };
  director_grant = none;
}

unfoldable pub grant_auth : ConnectGrantClaims → Text → VerifiedAuth
grant_auth claims supplied = record {
  context = record {
    tenant_id = claims.tenant_id;
    device_id = claims.device_id;
    allowed_profiles = claims.profiles;
    session_epoch = some claims.session_epoch;
    fencing_token = some claims.fencing_token;
    expires_at = some claims.exp;
    control_protocol = claims.control_protocol;
  };
  director_grant = some supplied;
}

-- `none` is the refusal.
unfoldable pub verify_grant :
    WorkerAuthenticator
    → ℕ
    → Text
    → Text
    → ControlProtocol
    → Result AuthException (Option VerifiedAuth)
verify_grant a now supplied device_id control_protocol =
    elim (Grants.verify a.codec now supplied (some a.worker_id) (some device_id)) [
      | err e ↦ if is_grant_error e then ok none else err unicode_encode_error
      | ok claims ↦
          if control_eq claims.control_protocol control_protocol
          then ok (some (grant_auth claims supplied))
          else ok none
    ]

unfoldable pub verify_supplied :
    WorkerAuthenticator
    → ℕ
    → Text
    → Text
    → ControlProtocol
    → Result AuthException (Option VerifiedAuth)
verify_supplied a now supplied device_id control_protocol =
    elim (is_lab_token a.lab_token supplied) [
      | err e ↦ err e
      | ok lab ↦
          if lab
          then ok (some (lab_auth a device_id control_protocol))
          else verify_grant a now supplied device_id control_protocol
    ]

-- `now` is what the codec's clock reads.
unfoldable pub verify :
    WorkerAuthenticator
    → ℕ
    → Option Text
    → Option Text
    → ControlProtocol
    → Result AuthException (Option VerifiedAuth)
verify a now none device_id control_protocol = ok none
verify a now (some authorization) none control_protocol = ok none
verify a now (some authorization) (some device_id) control_protocol =
    if map lower (before_space authorization) == codes "bearer"
    then verify_supplied a now (after_space authorization) device_id control_protocol
    else ok none

-- `isascii()` and `isalnum()` of one character.
unfoldable pub is_alnum : ℕ → Bool
is_alnum c = (leb 48 c && leb c 57) || (leb 65 c && leb c 90) || (leb 97 c && leb c 122)

abbrev starts_alnum : Text → Bool
starts_alnum [] = false
starts_alnum (c ∷ cs) = is_alnum c

unfoldable pub is_valid_id : Text → Bool
is_valid_id value =
    leb 1 (length value)
    && leb (length value) 96
    && all (λ c. ltb c 128) value
    && starts_alnum value
    && all (λ c. is_alnum c || contains (codes "_.:-") c) value

unfoldable pub resolve_device_id : Option Text → Option Text → Option Text
resolve_device_id none client_id = none
resolve_device_id (some device_id) none = if is_valid_id device_id then some device_id else none
resolve_device_id (some device_id) (some client_id) =
    if is_valid_id device_id && is_valid_id client_id then some device_id else none
