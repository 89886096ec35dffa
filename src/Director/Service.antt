-- ===== src/Director/Service.antt =====
-- session_director/service.py, `DirectorService`, over the store and a grant codec. A request reads
-- the clock once, at `now`; the epochs that `uuid4` would make are a function of the attempt.
-- Between the awaits of one request other requests may run: the steps below name the store that
-- each call finds, and the whole-request functions run them back to back.
pub mod Candidates
pub mod Selection
pub mod Bootstrap
pub mod Redeem
pub mod Heartbeats
use realtime_voice_agent.Common.{
  ℕ, ◌+◌, suc, Bool, true, false, List, [], ◌∷◌, Option, none, some, if◌then◌else◌, Text, Result,
  ok, err,
}
use realtime_voice_agent.Contracts.Models.{
  WorkerHeartbeat, WorkerSnapshot, WorkerHeartbeatResponse, LeaseRenewal, RouteLease,
  ConnectGrantClaims, BootstrapRequest, BootstrapResponse, RouteReleaseRequest,
}
use realtime_voice_agent.Director.Store.{
  Store, StoreError, worker_capacity, lease_conflict, worker_not_found, Acquire, ConsumeReason,
  acquire_route, release_route_claim, renew_route, consume_grant_result, list_workers, set_draining,
}
use realtime_voice_agent.Director.Store
use realtime_voice_agent.Contracts.Grants.{GrantError}
use realtime_voice_agent.Director.Service.Candidates.{Candidate, candidate_workers}

pub data ServiceError : Type 0 where
  no_capacity : ServiceError
  store_error : StoreError → ServiceError
  -- Of `unicode_encode_error`: that exception itself.
  grant_invalid : GrantError → ServiceError
  grant_refused : ConsumeReason → ServiceError

-- The two methods of `GrantCodec` that the service calls: `issue(claims)`, and `verify(token,
-- worker_id=..., device_id=...)` at a clock reading.
pub record Codec : Type 0 where
  pub issue : ConnectGrantClaims → Text
  pub verify : ℕ → Text → Text → Text → Result GrantError ConnectGrantClaims

-- `DirectorService.__init__`
pub record Config : Type 0 where
  pub heartbeat_ttl : ℕ
  pub lease_ttl : ℕ
  pub codec : Codec

unfoldable pub release_all : Text → List LeaseRenewal → Store → Store
release_all worker_id [] s = s
release_all worker_id (r ∷ rs) s = release_all worker_id rs (release_route_claim worker_id r s).0

-- The renewals of a heartbeat in turn, and the epochs of those that were not accepted.
unfoldable pub renew_all : Text → List LeaseRenewal → ℕ → ℕ → Store → Store × List Text
renew_all worker_id [] now expires_at s = (s, [])
renew_all worker_id (r ∷ rs) now expires_at s =
    let (s', accepted) = renew_route worker_id r now expires_at s in
    let (s'', rejected) = renew_all worker_id rs now expires_at s' in
    (s'', if accepted then rejected else r.session_epoch ∷ rejected)

unfoldable pub heartbeat : Config → ℕ → WorkerHeartbeat → Store → Store × WorkerHeartbeatResponse
heartbeat cfg now h s =
    let (s1, snapshot) = Store.heartbeat h (now + cfg.heartbeat_ttl) s in
    let s2 = release_all h.worker_id h.released_leases s1 in
    let (s3, rejected) = renew_all h.worker_id h.active_leases now (now + cfg.lease_ttl) s2 in
    (
      s3,
      record {
        accepted = true;
        draining = snapshot.draining;
        heartbeat_expires_at = snapshot.heartbeat_expires_at;
        lease_expires_at = now + cfg.lease_ttl;
        rejected_session_epochs = rejected;
      },
    )

unfoldable pub consume_grant :
    Config → ℕ → Text → Text → Text → Store → Store × Result ServiceError ConnectGrantClaims
consume_grant cfg now token worker_id device_id s =
    elim (cfg.codec.verify now token worker_id device_id) [
      | err e ↦ (s, err (grant_invalid e))
      | ok claims ↦
          let (s', result) = consume_grant_result claims now s in
          (s', if result.consumed then ok claims else err (grant_refused result.reason))
    ]

-- The arguments of the acquisition that `bootstrap` makes for a candidate.
unfoldable pub acquire_args : BootstrapRequest → WorkerSnapshot → Text → ℕ → ℕ → Acquire
acquire_args q w epoch now expires_at = record {
  tenant_id = q.tenant_id;
  device_id = q.device_id;
  worker_id = w.worker_id;
  worker_active_sessions = w.active_sessions;
  worker_max_sessions = w.max_sessions;
  session_epoch = epoch;
  now = now;
  expires_at = expires_at;
}

-- The loop over the candidates: a worker at its limit is passed over, any other error ends it.
unfoldable pub try_candidates :
    BootstrapRequest
    → (ℕ → Text)
    → ℕ
    → ℕ
    → ℕ
    → List Candidate
    → Store
    → Store × Result ServiceError (Candidate × RouteLease)
try_candidates q epochs attempt now expires_at [] s = (s, err no_capacity)
try_candidates q epochs attempt now expires_at (c ∷ cs) s =
    let (s', result) = acquire_route (acquire_args q c.worker (epochs attempt) now expires_at) s in
    let rest = try_candidates q epochs (suc attempt) now expires_at cs s' in
    elim result [
      | ok lease ↦ (s', ok (c, lease))
      | err (worker_capacity w) ↦ rest
      | err (lease_conflict k) ↦ (s', err (store_error (lease_conflict k)))
      | err (worker_not_found w) ↦ (s', err (store_error (worker_not_found w)))
    ]

unfoldable pub claims_for :
    BootstrapRequest → Candidate → RouteLease → ℕ → ℕ → Text → ConnectGrantClaims
claims_for q c lease now expires_at jti = record {
  tenant_id = q.tenant_id;
  device_id = q.device_id;
  worker_id = c.worker.worker_id;
  session_epoch = lease.session_epoch;
  fencing_token = lease.fencing_token;
  profiles = c.allowed;
  control_protocol = q.control_protocol;
  iat = now;
  exp = expires_at;
  jti = jti;
}

unfoldable pub respond :
    Codec → BootstrapRequest → Candidate → RouteLease → ℕ → ℕ → Text → BootstrapResponse
respond codec q c lease now expires_at jti = record {
  worker_id = c.worker.worker_id;
  worker_wss_url = c.public_wss_url;
  connect_grant = codec.issue (claims_for q c lease now expires_at jti);
  session_epoch = lease.session_epoch;
  fencing_token = lease.fencing_token;
  allowed_profiles = c.allowed;
  control_protocol = q.control_protocol;
  expires_at = expires_at;
}

unfoldable pub bootstrap :
    Config
    → ℕ
    → (ℕ → Text)
    → Text
    → BootstrapRequest
    → Store
    → Store × Result ServiceError BootstrapResponse
bootstrap cfg now epochs jti q s =
    let (s1, workers) = list_workers now s in
    let expires_at = now + cfg.lease_ttl in
    elim (candidate_workers workers q.supported_profiles q.control_protocol) [
      | none ↦ (s1, err no_capacity)
      | some candidates ↦
          let (s2, result) = try_candidates q epochs 0 now expires_at candidates s1 in
          elim result [
            | err e ↦ (s2, err e)
            | ok (c, lease) ↦ (s2, ok (respond cfg.codec q c lease now expires_at jti))
          ]
    ]

unfoldable pub release : RouteReleaseRequest → Store → Store × Bool
release q s =
    release_route_claim q.worker_id
      (record {
        tenant_id = q.tenant_id;
        device_id = q.device_id;
        session_epoch = q.session_epoch;
        fencing_token = q.fencing_token;
      })
      s

unfoldable pub drain : Text → Bool → ℕ → Store → Store × Result StoreError WorkerSnapshot
drain worker_id draining now s = set_draining worker_id draining now s
