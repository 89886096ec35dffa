-- ===== src/Director/Tests.antt =====
-- Runs of the store and of the service on small inputs, and each theorem at an input of its kind.
use realtime_voice_agent.Common.{
  ℕ, ◌+◌, ◌≡◌, ◌<◌, ◌≤◌, ◌↔◌, refl, true, false, some, [], ◌∷◌, codes, arith, ok, err, is_ok,
  text_eq, text_key,
}
use realtime_voice_agent.Common.Dict.{get, put, remove, keep, values, count}
use realtime_voice_agent.Common.Order.{sort, insert, text_le}
use realtime_voice_agent.Contracts.Models.{
  rva_1, wss_opus_1, WorkerHeartbeat, LeaseRenewal, RouteLease, ConnectGrantClaims,
  BootstrapRequest, BootstrapResponse, resolved_bindings, available_slots, with_draining,
}
use realtime_voice_agent.Contracts.Grants.{invalid_grant_claims}
use realtime_voice_agent.Contracts.RouteKey.{
  encode_route_key, encode_route_key_injective, quote, quote_then, quote_append, is_unreserved,
  hex_digit,
}
use realtime_voice_agent.Director.Store
use realtime_voice_agent.Director.Store.{
  Store, Acquire, route_of, acquire_route, acquire_live, grant_lease, drop_expired, new_lease,
  live_lease, reserved, fence, empty, renew_route, claims_lease, release_route_claim, claim_route,
  consume_grant_result, consume_pruned, prune_jti, check_claims, consumed, lease_conflict,
  list_workers, set_draining,
}
use realtime_voice_agent.Director.Store.History.{acquires, run}
use realtime_voice_agent.Director.Store.Fencing.{overtaken_lease}
use realtime_voice_agent.Director.Store.Grants.{grant_consumed_once}
use realtime_voice_agent.Director.Store.Capacity.{reserved-run-le, acquire_route-ok_iff}
use realtime_voice_agent.Director.Store.Draining.{IsDraining}
use realtime_voice_agent.Director.Service.{
  Config, bootstrap, heartbeat, release_all, renew_all, try_candidates, acquire_args, claims_for,
  respond,
}
use realtime_voice_agent.Director.Service.Candidates.{
  Candidate, candidate, candidate_workers, collect, find_binding, is_ready, key_le,
}
use realtime_voice_agent.Director.Service.Selection.{IsEligible}
use realtime_voice_agent.Director.Service.Bootstrap.{request_route, Holds, Answers, bootstrap_sound}
use realtime_voice_agent.Director.Service.Redeem.{bootstrap_redeemable}

abbrev worker_beat : WorkerHeartbeat
worker_beat = record {
  worker_id = codes "w1";
  public_wss_url = codes "wss://w1/rva/v1/voice";
  active_sessions = 0;
  max_sessions = 2;
  draining = false;
  healthy = true;
  profiles = wss_opus_1 ∷ [];
  bindings = [];
  active_leases = [];
  released_leases = [];
}

abbrev request_at : ℕ → Acquire
request_at now = record {
  tenant_id = codes "t";
  device_id = codes "d";
  worker_id = codes "w1";
  worker_active_sessions = 0;
  worker_max_sessions = 2;
  session_epoch = codes "e";
  now = now;
  expires_at = now + 30;
}

abbrev first_lease : RouteLease
first_lease = record {
  tenant_id = codes "t";
  device_id = codes "d";
  worker_id = codes "w1";
  session_epoch = codes "e";
  fencing_token = 1;
  expires_at = 40;
}

abbrev second_lease : RouteLease
second_lease = record first_lease { fencing_token = 2; expires_at = 130 }

abbrev old_claim : LeaseRenewal
old_claim = record {
  tenant_id = codes "t";
  device_id = codes "d";
  session_epoch = codes "e";
  fencing_token = 1;
}

abbrev grant_claims : ConnectGrantClaims
grant_claims = record {
  tenant_id = codes "t";
  device_id = codes "d";
  worker_id = codes "w1";
  session_epoch = codes "e";
  fencing_token = 1;
  profiles = wss_opus_1 ∷ [];
  control_protocol = rva_1;
  iat = 10;
  exp = 40;
  jti = codes "j";
}

abbrev started : Store
started = (acquire_route (request_at 10) empty).0

-- What a run of the store or of the service computes through.
store_code : Unit {0}
unfolding acquire_route acquire_live grant_lease drop_expired new_lease reserved fence empty get
    keep put count remove values encode_route_key quote quote_then quote_append is_unreserved
    hex_digit text_eq consume_grant_result consume_pruned prune_jti check_claims list_workers
    set_draining with_draining Store.heartbeat claims_lease release_route_claim renew_route
store_code = tt

service_code : Unit {0}
unfolding store_code bootstrap heartbeat release_all renew_all try_candidates acquire_args
    claims_for respond candidate candidate_workers collect find_binding is_ready key_le sort insert
    text_le resolved_bindings available_slots
service_code = tt

first_granted : (acquire_route (request_at 10) empty).1 ≡ ok first_lease
unfolding store_code
first_granted = refl

second_granted : (acquire_route (request_at 100) started).1 ≡ ok second_lease
unfolding store_code
second_granted = refl

encode_route_key_injective_example : (codes "a b" ≡ codes "a b") × (codes "x:1" ≡ codes "x:1")
encode_route_key_injective_example =
    encode_route_key_injective (codes "a b") (codes "x:1") (codes "a b") (codes "x:1") (omega arith)
      (omega arith) (omega arith) (omega arith) refl

-- The claim of the first lease, after the route has been acquired again.
overtaken_lease_example :
    let t = (acquire_route (request_at 100) started).0 in
    (renew_route (codes "w1") old_claim 101 131 t ≡ (t, false))
    × (release_route_claim (codes "w1") old_claim t ≡ (t, false))
    × ((consume_grant_result grant_claims 101 t).1.consumed ≡ false)
unfolding run
overtaken_lease_example =
    overtaken_lease (request_at 10) (request_at 100) empty [] [] first_lease second_lease refl
      first_granted second_granted (codes "w1") old_claim grant_claims 101 131 refl (omega arith)
      refl (omega arith)

first_consumed : (consume_grant_result grant_claims 11 started).1.consumed ≡ true
unfolding store_code
first_consumed = refl

grant_consumed_once_example :
    (consume_grant_result grant_claims 12
      (consume_grant_result grant_claims 11 started).0).1.consumed
    ≡ false
unfolding run
grant_consumed_once_example =
    grant_consumed_once grant_claims grant_claims 11 12 started [] first_consumed refl (omega arith)
      tt

reserved-run-le_example :
    reserved (codes "w1") (run (acquires (request_at 10) ∷ acquires (request_at 100) ∷ []) empty)
    ≤ 2
unfolding store_code
reserved-run-le_example =
    reserved-run-le (codes "w1") 2 (acquires (request_at 10) ∷ acquires (request_at 100) ∷ []) empty
      ((λ _. omega arith), ((λ _. omega arith), tt)) (omega arith)

acquire_route-ok_iff_example : (is_ok (acquire_route (request_at 10) empty).1 ≡ true) ↔ (
    (live_lease 10 (get (route_of (request_at 10)) empty.leases) ≡ false)
    × (0 < 2)
    × (reserved (codes "w1") (drop_expired 10 empty) < 2))
acquire_route-ok_iff_example = acquire_route-ok_iff (request_at 10) empty

abbrev registered : Store
registered = (Store.heartbeat worker_beat 50 empty).0

abbrev drained : Store
drained = (set_draining (codes "w1") true 10 registered).0

drained-IsDraining : IsDraining (codes "w1") drained
unfolding store_code
drained-IsDraining = record {
  snapshot = record {
    heartbeat = record worker_beat { draining = true };
    heartbeat_expires_at = 50;
  };
  registered = refl;
  draining = refl;
}

-- A codec that writes the identifier of the claims, and accepts nothing.
abbrev director : Config
director = record {
  heartbeat_ttl = 40;
  lease_ttl = 30;
  codec = record {
    issue = λ (c : ConnectGrantClaims). c.jti;
    verify = λ now token worker_id device_id. err invalid_grant_claims;
  };
}

abbrev request : BootstrapRequest
request = record {
  tenant_id = codes "t";
  device_id = codes "d";
  supported_profiles = wss_opus_1 ∷ [];
  control_protocol = rva_1;
}

abbrev chosen : Candidate
chosen = record {
  worker = record { heartbeat = worker_beat; heartbeat_expires_at = 50 };
  public_wss_url = codes "wss://w1/rva/v1/voice";
  allowed = wss_opus_1 ∷ [];
}

abbrev response : BootstrapResponse
response = record {
  worker_id = codes "w1";
  worker_wss_url = codes "wss://w1/rva/v1/voice";
  connect_grant = codes "j";
  session_epoch = codes "e";
  fencing_token = 1;
  allowed_profiles = wss_opus_1 ∷ [];
  control_protocol = rva_1;
  expires_at = 40;
}

bootstrapped :
    (bootstrap director 10 (λ n. codes "e") (codes "j") request registered).1 ≡ ok response
unfolding service_code
bootstrapped = refl

candidates_found :
    candidate_workers (chosen.worker ∷ []) (wss_opus_1 ∷ []) rva_1 ≡ some (chosen ∷ [])
unfolding service_code
candidates_found = refl

bootstrap_sound_example :
    (c : Candidate) × (l : RouteLease) × IsEligible rva_1
      (wss_opus_1 ∷ [])
      (list_workers 10 registered).1
      c
    × (live_lease 10 (get (request_route request) registered.leases) ≡ false)
    × Holds request c.worker 40 l
        (bootstrap director 10 (λ n. codes "e") (codes "j") request registered).0
    × Answers director.codec request c l 10 40 (codes "j") response
unfolding service_code
bootstrap_sound_example =
    bootstrap_sound director 10 (λ n. codes "e") (codes "j") request registered response
      bootstrapped

bootstrap_redeemable_example :
    (claims : ConnectGrantClaims) × (response.connect_grant ≡ director.codec.issue claims)
    × ((consume_grant_result claims 20
          (bootstrap director 10 (λ n. codes "e") (codes "j") request registered).0).1.consumed
        ≡ true)
unfolding service_code
bootstrap_redeemable_example =
    bootstrap_redeemable director 10 20 (λ n. codes "e") (codes "j") request registered response
      bootstrapped (omega arith) refl
