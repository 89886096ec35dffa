-- ===== src/Director/Store/Outcomes.antt =====
-- How each call on the leases and grants can come out, with the state that it leaves: the case
-- analyses that the proofs about histories split on.
use realtime_voice_agent.Common.{
  ℕ, leb, ◌||◌, not, Bool, ◌≤◌, ◌<◌, ◌≡◌, refl, ◌⊎◌, ap, ◌+◌, inl, inr, true, false, none, some,
  arith, max, Text, text_key, nat_key, Result, err, ok, Bool-cases, Option-cases,
}
use realtime_voice_agent.Common.Dict.{get, put, remove}
use realtime_voice_agent.Contracts.Models.{RouteLease, LeaseRenewal, ConnectGrantClaims}
use realtime_voice_agent.Director.Store.{
  Store, StoreError, lease_conflict, worker_capacity, Acquire, route_of, live_lease, acquire_live,
  grant_lease, reserved, new_lease, fence, claim_route, claims_lease, renew_route, release_route,
  lease_route, release_route_claim, GrantConsumeResult, ConsumeReason, consumed, consume_pruned,
  check_claims, grant_route,
}

pub data AcquireOutcome (a : Acquire) (s : Store) (r : Store × Result StoreError RouteLease)
    : Type 0 where
  conflict :
      live_lease a.now (get (route_of a) s.leases) ≡ true
      → r ≡ (s, err (lease_conflict (route_of a)))
      → AcquireOutcome a s r
  full :
      live_lease a.now (get (route_of a) s.leases) ≡ false
      → a.worker_max_sessions ≤ max a.worker_active_sessions (reserved a.worker_id s)
      → r ≡ (s, err (worker_capacity a.worker_id))
      → AcquireOutcome a s r
  granted :
      live_lease a.now (get (route_of a) s.leases) ≡ false
      → max a.worker_active_sessions (reserved a.worker_id s) < a.worker_max_sessions
      → r ≡ grant_lease a s
      → AcquireOutcome a s r

pub acquire_live-AcquireOutcome : (a : Acquire) (s : Store) → AcquireOutcome a s (acquire_live a s)
unfolding acquire_live
acquire_live-AcquireOutcome a s = elim (Bool-cases (live_lease a.now (get (route_of a) s.leases))) [
  | inl e ↦ conflict e (rw e)
  | inr e ↦
      elim (Bool-cases
        (leb a.worker_max_sessions (max a.worker_active_sessions (reserved a.worker_id s)))) [
          | inl f ↦ full e (ground arith) (ground arith)
          | inr f ↦ granted e (ground arith) (ground arith)
        ]
]

-- A lease comes out only through the last branch.
pub acquire_live-eq_ok :
    (a : Acquire) (s : Store) (l : RouteLease)
    → (acquire_live a s).1 ≡ ok l
    → (live_lease a.now (get (route_of a) s.leases) ≡ false)
      × (max a.worker_active_sessions (reserved a.worker_id s) < a.worker_max_sessions)
      × (acquire_live a s ≡ grant_lease a s)
      × (l ≡ new_lease a (fence (route_of a) s + 1))
acquire_live-eq_ok a s l h = elim (acquire_live-AcquireOutcome a s) [
  | conflict _ e ↦ absurd (refused_lem _ (ap (λ (r : Store × Result StoreError RouteLease). r.1) e))
  | full _ _ e ↦ absurd (refused_lem _ (ap (λ (r : Store × Result StoreError RouteLease). r.1) e))
  | granted free room e ↦ (free, room, e, unfold grant_lease in cc)
]
  where
    refused_lem : (x : StoreError) → (acquire_live a s).1 ≡ err x → ⊥
    refused_lem x e = cc

pub data RenewOutcome (w : Text) (r : LeaseRenewal) (now expires_at : ℕ) (s : Store)
    (q : Store × Bool) : Type 0 where
  rejected : q ≡ (s, false) → RenewOutcome w r now expires_at s q
  renewed :
      (l : RouteLease)
      → get (claim_route r) s.leases ≡ some l
      → now < l.expires_at
      → claims_lease w r l ≡ true
      → q ≡ (
        record s { leases = put (claim_route r) (record l { expires_at = expires_at }) s.leases },
        true,
      )
      → RenewOutcome w r now expires_at s q

pub renew_route-RenewOutcome :
    (w : Text) (r : LeaseRenewal) (now expires_at : ℕ) (s : Store)
    → RenewOutcome w r now expires_at s (renew_route w r now expires_at s)
unfolding renew_route
renew_route-RenewOutcome w r now expires_at s = elim (Option-cases (get (claim_route r) s.leases)) [
  | inl e ↦ rejected (rw (e, renew_route))
  | inr (l, e) ↦ elim (Bool-cases (leb l.expires_at now || not (claims_lease w r l))) [
    | inl f ↦ rejected (ground arith)
    | inr f ↦ renewed l e (ground arith) (ground arith) (ground arith)
  ]
]

pub data ReleaseOutcome (w : Text) (r : LeaseRenewal) (s : Store) (q : Store × Bool) : Type 0 where
  unmatched : q ≡ (s, false) → ReleaseOutcome w r s q
  released :
      (l : RouteLease)
      → get (claim_route r) s.leases ≡ some l
      → claims_lease w r l ≡ true
      → q ≡ (record s { leases = remove (claim_route r) s.leases }, true)
      → ReleaseOutcome w r s q

pub release_route_claim-ReleaseOutcome :
    (w : Text) (r : LeaseRenewal) (s : Store) → ReleaseOutcome w r s (release_route_claim w r s)
unfolding release_route_claim
release_route_claim-ReleaseOutcome w r s = elim (Option-cases (get (claim_route r) s.leases)) [
  | inl e ↦ unmatched (rw (e, release_route_claim))
  | inr (l, e) ↦ elim (Bool-cases (claims_lease w r l)) [
    | inl f ↦ released l e f (ground arith)
    | inr f ↦ unmatched (ground arith)
  ]
]

pub release_route_cases :
    (l : RouteLease) (s : Store)
    → (release_route l s ≡ (s, false))
      ⊎ (release_route l s ≡ (record s { leases = remove (lease_route l) s.leases }, true))
unfolding release_route
release_route_cases l s = ground arith

pub data ConsumeOutcome (c : ConnectGrantClaims) (now : ℕ) (s : Store)
    (q : Store × GrantConsumeResult) : Type 0 where
  denied : q.0 ≡ s → q.1.consumed ≡ false → ConsumeOutcome c now s q
  spent :
      (l : RouteLease)
      → get (grant_route c) s.leases ≡ some l
      → check_claims c now l ≡ consumed
      → get c.jti s.consumed_jti ≡ none
      → q ≡ (
        record s { consumed_jti = put c.jti c.exp s.consumed_jti },
        record { consumed = true; reason = consumed },
      )
      → ConsumeOutcome c now s q

pub consume_pruned-ConsumeOutcome :
    (c : ConnectGrantClaims) (now : ℕ) (s : Store) → ConsumeOutcome c now s (consume_pruned c now s)
unfolding consume_pruned
consume_pruned-ConsumeOutcome c now s = elim (Option-cases (get (grant_route c) s.leases)) [
  | inl e ↦ denied (ground arith) (ground arith)
  | inr (l, e) ↦ go l e (check_claims c now l) refl
]
  where
    go :
        (l : RouteLease)
        → get (grant_route c) s.leases ≡ some l
        → (reason : ConsumeReason) → check_claims c now l ≡ reason
        → ConsumeOutcome c now s (consume_pruned c now s)
    go l e consumed f = elim (Option-cases (get c.jti s.consumed_jti)) [
      | inl g ↦ spent l e f g (ground arith)
      | inr (x, g) ↦ denied (ground arith) (ground arith)
    ]
    go l e reason f = denied (ground arith) (ground arith)
