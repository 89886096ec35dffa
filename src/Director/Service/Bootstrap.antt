-- ===== src/Director/Service/Bootstrap.antt =====
-- On `bootstrap`: what a granted request holds and what its response says.
use realtime_voice_agent.Common.{
  ℕ, suc, ◌+◌, ◌≡◌, refl, ap, subst, false, Option, none, some, List, [], ◌∷◌, Text, arith, Result,
  ok, err, eq_refl, text_key, nat_key,
}
use realtime_voice_agent.Common.Dict.{get, get-put}
use realtime_voice_agent.Contracts.Models.{
  WorkerSnapshot, BootstrapRequest, BootstrapResponse, RouteLease,
}
use realtime_voice_agent.Contracts.RouteKey.{encode_route_key}
use realtime_voice_agent.Director.Store.{
  Store, Acquire, StoreError, worker_capacity, lease_conflict, worker_not_found, route_of,
  acquire_route, grant_lease, drop_expired, new_lease, live_lease, list_workers,
}
use realtime_voice_agent.Director.Store.Outcomes.{
  conflict, full, granted, acquire_live-AcquireOutcome, acquire_live-eq_ok,
}
use realtime_voice_agent.Director.Store.Capacity.{live-drop_expired}
use realtime_voice_agent.Director.Service.{
  Config, Codec, ServiceError, try_candidates, acquire_args, respond, claims_for, bootstrap,
}
use realtime_voice_agent.Director.Service.Candidates.{Candidate, candidate_workers}
use realtime_voice_agent.Director.Service.Selection.{
  IsEligible, AllEligible, candidate_workers-AllEligible,
}

-- The route of a request, and the lease that an acquisition for one of its candidates makes.
abbrev pub request_route : BootstrapRequest → Text
request_route q = encode_route_key q.tenant_id q.device_id

-- The store holds the lease on its route, and the lease is one for the request at the worker.
pub record Holds (q : BootstrapRequest) (w : WorkerSnapshot) (expires_at : ℕ) (l : RouteLease)
    (s : Store) : Type 0 where
  pub stored : get (request_route q) s.leases ≡ some l
  pub tenant : l.tenant_id ≡ q.tenant_id
  pub device : l.device_id ≡ q.device_id
  pub worker : l.worker_id ≡ w.worker_id
  pub expiry : l.expires_at ≡ expires_at

acquire_args-Holds :
    (q : BootstrapRequest) (w : WorkerSnapshot) (epoch : Text) (now expires_at : ℕ) (s : Store)
    (l : RouteLease)
    → (acquire_route (acquire_args q w epoch now expires_at) s).1 ≡ ok l
    → (live_lease now (get (request_route q) s.leases) ≡ false)
      × Holds q w expires_at l (acquire_route (acquire_args q w epoch now expires_at) s).0
unfolding acquire_route acquire_args
acquire_args-Holds q w epoch now expires_at s l h =
    let a = acquire_args q w epoch now expires_at in
    let t = drop_expired now s in
    let (free, room, e, g) = acquire_live-eq_ok a t l h in
    (
      rw (live-drop_expired now (request_route q) s) at free,
      rw e (record {
        stored = unfold grant_lease in rw (get-put, eq_refl (request_route q), g);
        tenant = unfold new_lease in ap (λ (x : RouteLease). x.tenant_id) g;
        device = unfold new_lease in ap (λ (x : RouteLease). x.device_id) g;
        worker = unfold new_lease in ap (λ (x : RouteLease). x.worker_id) g;
        expiry = unfold new_lease in ap (λ (x : RouteLease). x.expires_at) g;
      }),
    )

-- A failed acquisition does not change whether the route has a live lease.
acquire_route-live :
    (a : Acquire) (s : Store) (x : StoreError)
    → (acquire_route a s).1 ≡ err x
    → live_lease a.now (get (route_of a) (acquire_route a s).0.leases)
      ≡ live_lease a.now (get (route_of a) s.leases)
unfolding acquire_route
acquire_route-live a s x h = elim (acquire_live-AcquireOutcome a (drop_expired a.now s)) [
  | conflict _ e ↦ rw e (live-drop_expired a.now (route_of a) s)
  | full _ _ e ↦ rw e (live-drop_expired a.now (route_of a) s)
  | granted _ _ e ↦ absurd (unfold grant_lease in cc)
]

module _ (q : BootstrapRequest) (epochs : ℕ → Text) (now expires_at : ℕ)
    (ws : List WorkerSnapshot) where
  abbrev Chosen : Candidate → RouteLease → Store → Store → Type 0
  Chosen c l s s' =
      IsEligible q.control_protocol q.supported_profiles ws c
      × (live_lease now (get (request_route q) s.leases) ≡ false)
      × Holds q c.worker expires_at l s'

  try_candidates-Chosen :
      (n : ℕ) (cs : List Candidate) (s : Store) (c : Candidate) (l : RouteLease)
      → AllEligible q.control_protocol q.supported_profiles ws cs
      → (try_candidates q epochs n now expires_at cs s).1 ≡ ok (c, l)
      → Chosen c l s (try_candidates q epochs n now expires_at cs s).0
  unfolding try_candidates
  try_candidates-Chosen n [] s c l a h = absurd (cc)
  try_candidates-Chosen n (d ∷ cs) s c l a h =
      go (acquire_route args s) refl (λ s' e. try_candidates-Chosen (suc n) cs s' c l a.1 e)
    where
      args : Acquire
      args = acquire_args q d.worker (epochs n) now expires_at

      go :
          (r : Store × Result StoreError RouteLease)
          → acquire_route args s ≡ r
          → ((s' : Store)
              → (try_candidates q epochs (suc n) now expires_at cs s').1 ≡ ok (c, l)
              → Chosen c l s' (try_candidates q epochs (suc n) now expires_at cs s').0)
          → Chosen c l s (try_candidates q epochs n now expires_at (d ∷ cs) s).0
      go (s', ok lease) e ih =
          let parts : (d ≡ c) × (lease ≡ l) = (ground arith, ground arith) in
          let (free, held) =
            acquire_args-Holds q d.worker (epochs n) now expires_at s lease (rw e) in
          rw (e, try_candidates, e)
            (subst (λ x. Chosen x l s s') parts.0
              (subst (λ y. Chosen d y s s') parts.1 (a.0, free, rw e at held)))
      go (s', err (worker_capacity w)) e ih =
          let (eligible, free, held) = ih s' (ground arith) in
          let same = acquire_route-live args s (worker_capacity w) (rw e) in
          rw (e, try_candidates, e)
            (eligible, unfold acquire_args in ground (arith, free, same, e), held)
      go (s', err (lease_conflict k)) e ih = absurd (ground arith)
      go (s', err (worker_not_found k)) e ih = absurd (ground arith)

-- The candidate and the lease behind a bootstrap that succeeds.
pub bootstrap_chosen :
    (cfg : Config) (now : ℕ) (epochs : ℕ → Text) (jti : Text) (q : BootstrapRequest) (s : Store)
    (r : BootstrapResponse)
    → (bootstrap cfg now epochs jti q s).1 ≡ ok r
    → (c : Candidate) × (l : RouteLease) × IsEligible q.control_protocol q.supported_profiles
        (list_workers now s).1
        c
      × (live_lease now (get (request_route q) s.leases) ≡ false)
      × Holds q c.worker (now + cfg.lease_ttl) l (bootstrap cfg now epochs jti q s).0
      × (r ≡ respond cfg.codec q c l now (now + cfg.lease_ttl) jti)
unfolding bootstrap
bootstrap_chosen cfg now epochs jti q s r h =
    go (candidate_workers workers q.supported_profiles q.control_protocol) refl
  where
    workers : List WorkerSnapshot
    workers = (list_workers now s).1

    listed : Store
    listed = (list_workers now s).0

    expiry : ℕ
    expiry = now + cfg.lease_ttl

    Goal : Type 0
    Goal =
        (c : Candidate) × (l : RouteLease) × IsEligible q.control_protocol q.supported_profiles
          workers c
        × (live_lease now (get (request_route q) s.leases) ≡ false)
        × Holds q c.worker expiry l (bootstrap cfg now epochs jti q s).0
        × (r ≡ respond cfg.codec q c l now expiry jti)

    tried :
        (cs : List Candidate)
        → candidate_workers workers q.supported_profiles q.control_protocol ≡ some cs
        → (t : Store × Result ServiceError (Candidate × RouteLease))
        → try_candidates q epochs 0 now expiry cs listed ≡ t
        → Goal
    tried cs e (s', err x) f = absurd (ground arith)
    tried cs e (s', ok (c, l)) f =
        let eligible =
          candidate_workers-AllEligible workers q.supported_profiles q.control_protocol cs e in
        let (good, free, held) =
          try_candidates-Chosen q epochs now expiry workers 0 cs listed c l eligible (rw f) in
        (c, l, good, unfold list_workers in free, rw (e, bootstrap, f) held, ground arith)

    go :
        (o : Option (List Candidate))
        → candidate_workers workers q.supported_profiles q.control_protocol ≡ o
        → Goal
    go none e = absurd (ground arith)
    go (some cs) e = tried cs e (try_candidates q epochs 0 now expiry cs listed) refl

-- What a response says, field by field: the lease's epoch and token, the candidate's URL and profiles,
-- and a grant issued for these claims.
pub record Answers (codec : Codec) (q : BootstrapRequest) (c : Candidate) (l : RouteLease)
    (now expires_at : ℕ) (jti : Text) (r : BootstrapResponse) : Type 0 where
  pub worker : r.worker_id ≡ c.worker.worker_id
  pub url : r.worker_wss_url ≡ c.public_wss_url
  pub epoch : r.session_epoch ≡ l.session_epoch
  pub token : r.fencing_token ≡ l.fencing_token
  pub profiles : r.allowed_profiles ≡ c.allowed
  pub protocol : r.control_protocol ≡ q.control_protocol
  pub expiry : r.expires_at ≡ expires_at
  pub grant :
      r.connect_grant
      ≡ codec.issue (record {
        tenant_id = q.tenant_id;
        device_id = q.device_id;
        worker_id = c.worker.worker_id;
        session_epoch = l.session_epoch;
        fencing_token = l.fencing_token;
        profiles = c.allowed;
        control_protocol = q.control_protocol;
        iat = now;
        exp = expires_at;
        jti = jti;
      })

respond-Answers :
    (codec : Codec) (q : BootstrapRequest) (c : Candidate) (l : RouteLease) (now expires_at : ℕ)
    (jti : Text) (r : BootstrapResponse)
    → r ≡ respond codec q c l now expires_at jti
    → Answers codec q c l now expires_at jti r
unfolding respond claims_for
respond-Answers codec q c l now expires_at jti r e = record {
  worker = ap (λ (x : BootstrapResponse). x.worker_id) e;
  url = ap (λ (x : BootstrapResponse). x.worker_wss_url) e;
  epoch = ap (λ (x : BootstrapResponse). x.session_epoch) e;
  token = ap (λ (x : BootstrapResponse). x.fencing_token) e;
  profiles = ap (λ (x : BootstrapResponse). x.allowed_profiles) e;
  protocol = ap (λ (x : BootstrapResponse). x.control_protocol) e;
  expiry = ap (λ (x : BootstrapResponse). x.expires_at) e;
  grant = ap (λ (x : BootstrapResponse). x.connect_grant) e;
}

-- A bootstrap that succeeds went to an eligible worker of the current listing, on a route that had no
-- live lease; the store now holds a lease for that device at that worker until the granted expiry;
-- and the response carries that lease's epoch and token, the worker's URL for the control protocol and a grant issued for exactly these claims.
pub bootstrap_sound :
    (cfg : Config) (now : ℕ) (epochs : ℕ → Text) (jti : Text) (q : BootstrapRequest) (s : Store)
    (r : BootstrapResponse)
    → (bootstrap cfg now epochs jti q s).1 ≡ ok r
    → (c : Candidate) × (l : RouteLease) × IsEligible q.control_protocol q.supported_profiles
        (list_workers now s).1
        c
      × (live_lease now (get (request_route q) s.leases) ≡ false)
      × Holds q c.worker (now + cfg.lease_ttl) l (bootstrap cfg now epochs jti q s).0
      × Answers cfg.codec q c l now (now + cfg.lease_ttl) jti r
bootstrap_sound cfg now epochs jti q s r h =
    let (c, l, eligible, free, held, e) = bootstrap_chosen cfg now epochs jti q s r h in
    (c, l, eligible, free, held, respond-Answers cfg.codec q c l now (now + cfg.lease_ttl) jti r e)
