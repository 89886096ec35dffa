-- ===== src/Director/Service/Redeem.antt =====
-- On what follows a bootstrap: redeeming its grant, and a second bootstrap while the lease lives.
use realtime_voice_agent.Common.{
  ℕ, suc, ◌+◌, ◌<◌, ◌≡◌, refl, ap, true, ◌⊎◌, inl, inr, Option, none, some, List, [], ◌∷◌, Text,
  arith, ok, err, eq_refl, text_key, nat_key, ltb,
}
use realtime_voice_agent.Common.Dict.{get, get-keep}
use realtime_voice_agent.Contracts.Models.{
  BootstrapRequest, BootstrapResponse, RouteLease, ConnectGrantClaims,
}
use realtime_voice_agent.Director.Store.{
  Store, Acquire, lease_conflict, acquire_route, acquire_live, drop_expired, unexpired, live_lease,
  list_workers, consumed, consume_grant_result, consume_pruned, prune_jti, check_claims,
  grant_route, route_of,
}
use realtime_voice_agent.Director.Store.Grants.{acquire_route-jti}
use realtime_voice_agent.Director.Store.Capacity.{live-drop_expired}
use realtime_voice_agent.Director.Service.{
  Config, no_capacity, store_error, try_candidates, acquire_args, claims_for, respond, bootstrap,
}
use realtime_voice_agent.Director.Service.Candidates.{Candidate, candidate_workers}
use realtime_voice_agent.Director.Service.Bootstrap.{request_route, Holds, bootstrap_chosen}

module _ (q : BootstrapRequest) (epochs : ℕ → Text) (now expires_at : ℕ) where
  try_candidates-jti :
      (n : ℕ) (cs : List Candidate) (s : Store)
      → (try_candidates q epochs n now expires_at cs s).0.consumed_jti ≡ s.consumed_jti
  unfolding try_candidates
  try_candidates-jti n [] s = refl
  try_candidates-jti n (d ∷ cs) s =
      let a = acquire_args q d.worker (epochs n) now expires_at in
      ground (arith, acquire_route-jti a s, try_candidates-jti (suc n) cs (acquire_route a s).0)

bootstrap-jti :
    (cfg : Config) (now : ℕ) (epochs : ℕ → Text) (jti : Text) (q : BootstrapRequest) (s : Store)
    → (bootstrap cfg now epochs jti q s).0.consumed_jti ≡ s.consumed_jti
unfolding bootstrap list_workers
bootstrap-jti cfg now epochs jti q s =
    go (candidate_workers (list_workers now s).1 q.supported_profiles q.control_protocol) refl
  where
    go :
        (o : Option (List Candidate))
        → candidate_workers (list_workers now s).1 q.supported_profiles q.control_protocol ≡ o
        → (bootstrap cfg now epochs jti q s).0.consumed_jti ≡ s.consumed_jti
    go none e = ground arith
    go (some cs) e =
        ground
          (arith, try_candidates-jti q epochs now (now + cfg.lease_ttl) 0 cs (list_workers now s).0)

claims_for-check :
    (q : BootstrapRequest) (c : Candidate) (l : RouteLease) (now expires_at later : ℕ) (jti : Text)
    (s : Store)
    → Holds q c.worker expires_at l s
    → later < expires_at
    → check_claims (claims_for q c l now expires_at jti) later l ≡ consumed
unfolding check_claims claims_for
claims_for-check q c l now expires_at later jti s v h = ground (
  arith,
  v.tenant,
  v.device,
  v.worker,
  v.expiry,
  eq_refl q.tenant_id,
  eq_refl q.device_id,
  eq_refl c.worker.worker_id,
  eq_refl l.session_epoch,
  eq_refl l.fencing_token,
)

consume_grant_result-consumes :
    (c : ConnectGrantClaims) (now : ℕ) (s : Store) (l : RouteLease)
    → get (grant_route c) s.leases ≡ some l
    → check_claims c now l ≡ consumed
    → get c.jti s.consumed_jti ≡ none
    → (consume_grant_result c now s).1.consumed ≡ true
unfolding consume_grant_result consume_pruned prune_jti
consume_grant_result-consumes c now s l stored check unused =
    ground (arith, get-keep (λ x. ltb now x) c.jti s.consumed_jti)

-- If a bootstrap succeeds and its grant identifier was not used before, then until the granted expiry
-- the grant in the response is issued for claims that the store consumes.
pub bootstrap_redeemable :
    (cfg : Config) (now later : ℕ) (epochs : ℕ → Text) (jti : Text) (q : BootstrapRequest)
    (s : Store) (r : BootstrapResponse)
    → (bootstrap cfg now epochs jti q s).1 ≡ ok r
    → later < now + cfg.lease_ttl
    → get jti s.consumed_jti ≡ none
    → (claims : ConnectGrantClaims) × (r.connect_grant ≡ cfg.codec.issue claims)
      × ((consume_grant_result claims later (bootstrap cfg now epochs jti q s).0).1.consumed ≡ true)
unfolding claims_for respond
bootstrap_redeemable cfg now later epochs jti q s r h alive unused =
    let (c, l, _, _, held, e) = bootstrap_chosen cfg now epochs jti q s r h in
    let expiry = now + cfg.lease_ttl in
    let t = (bootstrap cfg now epochs jti q s).0 in
    (
      claims_for q c l now expiry jti,
      ap (λ (x : BootstrapResponse). x.connect_grant) e,
      consume_grant_result-consumes (claims_for q c l now expiry jti) later t l held.stored
          (claims_for-check q c l now expiry later jti t held alive)
          (rw (bootstrap-jti cfg now epochs jti q s) unused),
    )

acquire_route-conflict :
    (a : Acquire) (s : Store)
    → live_lease a.now (get (route_of a) s.leases) ≡ true
    → (acquire_route a s ≡ (drop_expired a.now s, err (lease_conflict (route_of a))))
      × (get (route_of a) (drop_expired a.now s).leases ≡ get (route_of a) s.leases)
unfolding acquire_route acquire_live
acquire_route-conflict a s h = (
  ground (arith, live-drop_expired a.now (route_of a) s),
  unfold drop_expired in ground (arith, get-keep (unexpired a.now) (route_of a) s.leases),
)

try_candidates-conflict :
    (q : BootstrapRequest) (epochs : ℕ → Text) (now expires_at : ℕ) (d : Candidate)
    (cs : List Candidate) (s : Store)
    → live_lease now (get (request_route q) s.leases) ≡ true
    → (try_candidates q epochs 0 now expires_at (d ∷ cs) s
        ≡ (drop_expired now s, err (store_error (lease_conflict (request_route q)))))
      × (get (request_route q) (drop_expired now s).leases ≡ get (request_route q) s.leases)
unfolding try_candidates acquire_args
try_candidates-conflict q epochs now expires_at d cs s h =
    let a = acquire_args q d.worker (epochs 0) now expires_at in
    let (refused, kept) = acquire_route-conflict a s h in (ground (arith, refused), kept)

-- While its device has a live lease, a bootstrap fails, with a conflict or for want of a candidate,
-- and the lease stays as it is.
pub bootstrap_conflict :
    (cfg : Config) (now : ℕ) (epochs : ℕ → Text) (jti : Text) (q : BootstrapRequest) (s : Store)
    → live_lease now (get (request_route q) s.leases) ≡ true
    → let t = bootstrap cfg now epochs jti q s in
      ((t.1 ≡ err no_capacity) ⊎ (t.1 ≡ err (store_error (lease_conflict (request_route q)))))
      × (get (request_route q) t.0.leases ≡ get (request_route q) s.leases)
unfolding bootstrap list_workers
bootstrap_conflict cfg now epochs jti q s h =
    go (candidate_workers (list_workers now s).1 q.supported_profiles q.control_protocol) refl
  where
    go :
        (o : Option (List Candidate))
        → candidate_workers (list_workers now s).1 q.supported_profiles q.control_protocol ≡ o
        → let t = bootstrap cfg now epochs jti q s in
          ((t.1 ≡ err no_capacity) ⊎ (t.1 ≡ err (store_error (lease_conflict (request_route q)))))
          × (get (request_route q) t.0.leases ≡ get (request_route q) s.leases)
    go none e = rw (e, bootstrap) (inl refl, refl)
    go (some []) e =
        rw (e, bootstrap) (inl (unfold try_candidates in refl), unfold try_candidates in refl)
    go (some (d ∷ cs)) e =
        let (refused, kept) =
          try_candidates-conflict q epochs now (now + cfg.lease_ttl) d cs (list_workers now s).0
            h in
        rw (e, bootstrap) (inr (ground (arith, refused)), ground (arith, refused, kept))
