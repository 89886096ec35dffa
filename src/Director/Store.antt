-- ===== src/Director/Store.antt =====
-- session_director/store.py, `InMemoryCoordinationStore`. A method holds the lock throughout, so it
-- is one step: a function from the store to the store that it leaves and the result or the exception.
-- Fields and order of the tests are the source's; times are ticks.
pub mod History
pub mod Outcomes
pub mod Fencing
pub mod Grants
pub mod Capacity
pub mod Draining
use realtime_voice_agent.Common.{
  ℕ, ◌+◌, Bool, true, false, not, ◌&&◌, ◌||◌, Option, none, some, List, [], ltb, leb, max,
  if◌then◌else◌, ◌==◌, Text, text_key, nat_key, Result, ok, err, is_some,
}
use realtime_voice_agent.Common.Dict.{Dict, get, put, remove, keep, values, count}
use realtime_voice_agent.Contracts.Models.{
  WorkerHeartbeat, WorkerSnapshot, RouteLease, LeaseRenewal, ConnectGrantClaims, with_draining,
  lease_eq,
}
use realtime_voice_agent.Contracts.RouteKey.{encode_route_key}

pub data StoreError : Type 0 where
  lease_conflict worker_not_found worker_capacity : Text → StoreError

pub data ConsumeReason : Type 0 where
  no_route route_expired grant_expired route_principal_mismatch worker_mismatch : ConsumeReason
  session_epoch_mismatch fencing_token_mismatch grant_replay consumed : ConsumeReason

pub record GrantConsumeResult : Type 0 where
  pub consumed : Bool
  pub reason : ConsumeReason

pub record Store : Type 0 where
  pub workers : Dict Text WorkerSnapshot
  pub leases : Dict Text RouteLease
  pub fencing : Dict Text ℕ
  pub consumed_jti : Dict Text ℕ

unfoldable pub empty : Store
empty = record { workers = []; leases = []; fencing = []; consumed_jti = [] }

abbrev pub is_draining : Option WorkerSnapshot → Bool
is_draining none = false
is_draining (some w) = w.draining

unfoldable pub heartbeat : WorkerHeartbeat → ℕ → Store → Store × WorkerSnapshot
unfolding with_draining
heartbeat h expires_at s =
    let fresh : WorkerSnapshot = record { heartbeat = h; heartbeat_expires_at = expires_at } in
    let snapshot =
      if is_draining (get h.worker_id s.workers) then with_draining fresh true else fresh in
    (record s { workers = put h.worker_id snapshot s.workers }, snapshot)

unfoldable pub list_workers : ℕ → Store → Store × List WorkerSnapshot
list_workers now s =
    let live = keep (λ w. not (leb w.heartbeat_expires_at now)) s.workers in
    (record s { workers = live }, values live)

unfoldable pub set_draining : Text → Bool → ℕ → Store → Store × Result StoreError WorkerSnapshot
unfolding with_draining
set_draining worker_id draining now s = elim (get worker_id s.workers) [
  | none ↦ (s, err (worker_not_found worker_id))
  | some w ↦ if leb w.heartbeat_expires_at now then (s, err (worker_not_found worker_id)) else (
    record s { workers = put worker_id (with_draining w draining) s.workers },
    ok (with_draining w draining),
  )
]

-- The keyword arguments of `acquire_route`.
pub record Acquire : Type 0 where
  pub tenant_id : Text
  pub device_id : Text
  pub worker_id : Text
  pub worker_active_sessions : ℕ
  pub worker_max_sessions : ℕ
  pub session_epoch : Text
  pub now : ℕ
  pub expires_at : ℕ

abbrev pub route_of : Acquire → Text
route_of a = encode_route_key a.tenant_id a.device_id

-- The fencing counter of a route, 0 before its first lease.
abbrev or_zero : Option ℕ → ℕ
or_zero none = 0
or_zero (some n) = n

unfoldable pub fence : Text → Store → ℕ
fence route_key s = or_zero (get route_key s.fencing)

abbrev pub live_lease : ℕ → Option RouteLease → Bool
live_lease now none = false
live_lease now (some l) = ltb now l.expires_at

abbrev pub unexpired : ℕ → RouteLease → Bool
unexpired now l = not (leb l.expires_at now)

-- The store without the leases that have run out.
unfoldable pub drop_expired : ℕ → Store → Store
drop_expired now s = record s { leases = keep (unexpired now) s.leases }

-- How many leases a worker holds.
unfoldable pub reserved : Text → Store → ℕ
reserved worker_id s = count (λ l. l.worker_id == worker_id) s.leases

unfoldable pub new_lease : Acquire → ℕ → RouteLease
new_lease a fencing_token = record {
  tenant_id = a.tenant_id;
  device_id = a.device_id;
  worker_id = a.worker_id;
  session_epoch = a.session_epoch;
  fencing_token = fencing_token;
  expires_at = a.expires_at;
}

-- The part under the two guards.
unfoldable pub grant_lease : Acquire → Store → Store × Result StoreError RouteLease
grant_lease a s =
    let token = fence (route_of a) s + 1 in
    (
      record s {
        fencing = put (route_of a) token s.fencing;
        leases = put (route_of a) (new_lease a token) s.leases;
      },
      ok (new_lease a token),
    )

unfoldable pub acquire_live : Acquire → Store → Store × Result StoreError RouteLease
acquire_live a s =
    if live_lease a.now (get (route_of a) s.leases)
    then (s, err (lease_conflict (route_of a)))
    else if leb a.worker_max_sessions (max a.worker_active_sessions (reserved a.worker_id s))
    then (s, err (worker_capacity a.worker_id))
    else grant_lease a s

unfoldable pub acquire_route : Acquire → Store → Store × Result StoreError RouteLease
acquire_route a s = acquire_live a (drop_expired a.now s)

abbrev pub lease_route : RouteLease → Text
lease_route l = encode_route_key l.tenant_id l.device_id

abbrev is_lease : RouteLease → Option RouteLease → Bool
is_lease l none = false
is_lease l (some current) = lease_eq current l

unfoldable pub release_route : RouteLease → Store → Store × Bool
release_route l s =
    if is_lease l (get (lease_route l) s.leases)
    then (record s { leases = remove (lease_route l) s.leases }, true)
    else (s, false)

abbrev pub claim_route : LeaseRenewal → Text
claim_route r = encode_route_key r.tenant_id r.device_id

-- The lease that a claim of a worker names: same worker, epoch and fencing token.
unfoldable pub claims_lease : Text → LeaseRenewal → RouteLease → Bool
claims_lease worker_id r l =
    (l.worker_id == worker_id)
    && (l.session_epoch == r.session_epoch)
    && (l.fencing_token == r.fencing_token)

unfoldable pub renew_route : Text → LeaseRenewal → ℕ → ℕ → Store → Store × Bool
renew_route worker_id r now expires_at s = elim (get (claim_route r) s.leases) [
  | none ↦ (s, false)
  | some l ↦ if leb l.expires_at now || not (claims_lease worker_id r l) then (s, false) else (
    record s { leases = put (claim_route r) (record l { expires_at = expires_at }) s.leases },
    true,
  )
]

unfoldable pub release_route_claim : Text → LeaseRenewal → Store → Store × Bool
release_route_claim worker_id r s = elim (get (claim_route r) s.leases) [
  | none ↦ (s, false)
  | some l ↦
      if not (claims_lease worker_id r l)
      then (s, false)
      else (record s { leases = remove (claim_route r) s.leases }, true)
]

abbrev refused : ConsumeReason → GrantConsumeResult
refused reason = record { consumed = false; reason = reason }

-- What the lease on the claimed route says of the claims; `consumed` if nothing is against them.
unfoldable pub check_claims : ConnectGrantClaims → ℕ → RouteLease → ConsumeReason
check_claims c now l =
    if leb l.expires_at now
    then route_expired
    else if leb c.exp now
    then grant_expired
    else if not ((l.tenant_id == c.tenant_id) && (l.device_id == c.device_id))
    then route_principal_mismatch
    else if not (l.worker_id == c.worker_id)
    then worker_mismatch
    else if not (l.session_epoch == c.session_epoch)
    then session_epoch_mismatch
    else if not (l.fencing_token == c.fencing_token)
    then fencing_token_mismatch
    else consumed

unfoldable pub prune_jti : ℕ → Store → Store
prune_jti now s = record s { consumed_jti = keep (λ expiry. ltb now expiry) s.consumed_jti }

abbrev pub grant_route : ConnectGrantClaims → Text
grant_route c = encode_route_key c.tenant_id c.device_id

unfoldable pub consume_pruned : ConnectGrantClaims → ℕ → Store → Store × GrantConsumeResult
consume_pruned c now s = elim (get (grant_route c) s.leases) [
  | none ↦ (s, refused no_route)
  | some l ↦ elim (check_claims c now l) [
    | consumed ↦ if is_some (get c.jti s.consumed_jti) then (s, refused grant_replay) else (
      record s { consumed_jti = put c.jti c.exp s.consumed_jti },
      record { consumed = true; reason = consumed },
    )
    | other ↦ (s, refused other)
  ]
]

unfoldable pub consume_grant_result : ConnectGrantClaims → ℕ → Store → Store × GrantConsumeResult
consume_grant_result c now s = consume_pruned c now (prune_jti now s)

unfoldable pub consume_grant : ConnectGrantClaims → ℕ → Store → Store × Bool
consume_grant c now s = let (s', result) = consume_grant_result c now s in (s', result.consumed)
