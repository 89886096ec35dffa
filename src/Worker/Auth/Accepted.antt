-- ===== src/Worker/Auth/Accepted.antt =====
-- On the grants of the Director's codec at the Worker.
use realtime_voice_agent.Common.{
  ok, ℕ, ◌+◌, ◌≤◌, ◌<◌, ◌≡◌, refl, true, false, ◌++◌, text_key, text_eq, nat_key, some, arith,
  codes,
}
use realtime_voice_agent.Contracts.Models.{ConnectGrantClaims, control_eq, ControlProtocol, rva_1}
use realtime_voice_agent.Contracts.Grants
use realtime_voice_agent.Contracts.Grants.{GrantCodec}
use realtime_voice_agent.Contracts.Grants.Issued.{AreLawful, verify-issue}
use realtime_voice_agent.Worker.Auth.{
  WorkerAuthenticator, verify, verify_supplied, verify_grant, grant_auth, lower, before_space,
  after_space, is_lab_token,
}

control_eq_refl : (p : ControlProtocol) → control_eq p p ≡ true
control_eq_refl rva_1 = refl

-- With the key of the Director, and as long as it is not the lab token, the Worker accepts an issued
-- grant as a bearer token of the device that it names: from its issue on (less the clock skew) and before its
-- expiry, with tenant, device, profiles, epoch and token of the claims.
pub issued_grant_is_accepted :
    (a : WorkerAuthenticator) (claims : ConnectGrantClaims) (now : ℕ)
    → AreLawful a.codec.ports
    → claims.worker_id ≡ a.worker_id
    → is_lab_token a.lab_token (Grants.issue a.codec claims) ≡ ok false
    → claims.iat ≤ now + a.codec.clock_skew
    → claims.iat < claims.exp
    → now < claims.exp
    → verify a now
        (some (codes "Bearer " ++ Grants.issue a.codec claims))
        (some claims.device_id)
        claims.control_protocol
      ≡ ok (some (grant_auth claims (Grants.issue a.codec claims)))
unfolding verify verify_supplied verify_grant lower before_space after_space text_eq
issued_grant_is_accepted a claims now v w l b c d =
    let verified = verify-issue a.codec v claims now b c d in
    ground (arith, verified, w, l, control_eq_refl claims.control_protocol)
