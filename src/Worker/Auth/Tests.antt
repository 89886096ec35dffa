-- ===== src/Worker/Auth/Tests.antt =====
-- A device from its bootstrap to its Worker.
use realtime_voice_agent.Common.{true, false, some, none, [], ◌∷◌, codes}
use realtime_voice_agent.Contracts.Grants
use realtime_voice_agent.Contracts.Models.{
  rva_1, wss_opus_1, WorkerHeartbeat, BootstrapRequest, BootstrapResponse, ConnectGrantClaims,
}
use realtime_voice_agent.Contracts.Samples.{sample_codec}
use realtime_voice_agent.Director.Store
use realtime_voice_agent.Director.Store.{empty}
use realtime_voice_agent.Director.Service.{Config}
use realtime_voice_agent.Worker.Auth.{WorkerAuthenticator, verify}

abbrev beat : WorkerHeartbeat
beat = record {
  worker_id = codes "w1";
  public_wss_url = codes "wss://w1/rva/v1/voice";
  active_sessions = 0;
  max_sessions = 2;
  draining = false;
  healthy = true;
  profiles = wss_opus_1 ∷ [];
  bindings = [];
  active_leases = [];
  released_leases = [];
}

abbrev registered : Store.Store
registered = (Store.heartbeat beat 50 empty).0

abbrev director : Config
director = record {
  heartbeat_ttl = 40;
  lease_ttl = 30;
  codec = record {
    issue = Grants.issue sample_codec;
    verify = λ now token worker_id device_id.
        Grants.verify sample_codec now token (some worker_id) (some device_id);
  };
}

abbrev request : BootstrapRequest
request = record {
  tenant_id = codes "t";
  device_id = codes "d";
  supported_profiles = wss_opus_1 ∷ [];
  control_protocol = rva_1;
}

abbrev granted : ConnectGrantClaims
granted = record {
  tenant_id = codes "t";
  device_id = codes "d";
  worker_id = codes "w1";
  session_epoch = codes "e";
  fencing_token = 1;
  profiles = wss_opus_1 ∷ [];
  control_protocol = rva_1;
  iat = 10;
  exp = 40;
  jti = codes "j";
}

abbrev response : BootstrapResponse
response = record {
  worker_id = codes "w1";
  worker_wss_url = codes "wss://w1/rva/v1/voice";
  connect_grant = Grants.issue sample_codec granted;
  session_epoch = codes "e";
  fencing_token = 1;
  allowed_profiles = wss_opus_1 ∷ [];
  control_protocol = rva_1;
  expires_at = 40;
}

abbrev first_worker : WorkerAuthenticator
first_worker = record {
  worker_id = codes "w1";
  rva_udp_enabled = false;
  lab_token = none;
  codec = sample_codec;
}
