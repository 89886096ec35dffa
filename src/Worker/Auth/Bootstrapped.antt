-- ===== src/Worker/Auth/Bootstrapped.antt =====
-- From a bootstrap at the Director to the authenticator of the Worker.
use realtime_voice_agent.Common.{◌≡◌, some}
use realtime_voice_agent.Contracts.Models.{BootstrapRequest, BootstrapResponse}
use realtime_voice_agent.Contracts.Grants
use realtime_voice_agent.Director.Store.{Store}
use realtime_voice_agent.Worker.Auth.{VerifiedAuth}

-- The authentication that a response of the Director leads to.
pub record Admits (q : BootstrapRequest) (r : BootstrapResponse) (auth : VerifiedAuth)
    : Type 0 where
  pub tenant : auth.context.tenant_id ≡ q.tenant_id
  pub device : auth.context.device_id ≡ q.device_id
  pub profiles : auth.context.allowed_profiles ≡ r.allowed_profiles
  pub epoch : auth.context.session_epoch ≡ some r.session_epoch
  pub token : auth.context.fencing_token ≡ some r.fencing_token
  pub expiry : auth.context.expires_at ≡ some r.expires_at
  pub protocol : auth.context.control_protocol ≡ q.control_protocol
