-- ===== src/Director/Store/Grants.antt =====
-- On the consumption of connect grants.
use realtime_voice_agent.Common.{
  ℕ, ◌≤◌, ◌<◌, ◌≡◌, Bool, true, false, inl, inr, some, List, [], ◌∷◌, arith, ltb, Text, text_key,
  eq_iff, eq_refl, Bool-cases,
}
use realtime_voice_agent.Common.Dict.{get, get-put, get-keep}
use realtime_voice_agent.Contracts.Models.{ConnectGrantClaims, RouteLease, LeaseRenewal}
use realtime_voice_agent.Director.Store.{
  Store, Acquire, check_claims, prune_jti, consume_grant_result, heartbeat, list_workers,
  set_draining, acquire_route, acquire_live, grant_lease, drop_expired, release_route, renew_route,
  release_route_claim,
}
use realtime_voice_agent.Director.Store.Outcomes.{denied, spent, consume_pruned-ConsumeOutcome}
use realtime_voice_agent.Director.Store.History.{
  Call, heartbeats, lists, drains, acquires, releases, renews, release_claims, consumes, step, run,
}

-- No consumption of the history has a clock that reads later than `now`.
abbrev pub IsUntil : ℕ → List Call → Type 0
IsUntil now [] = Unit {0}
IsUntil now (consumes c t ∷ cs) = (t ≤ now) × IsUntil now cs
IsUntil now (_ ∷ cs) = IsUntil now cs

-- The identifier is noted as used, at least until `exp`.
abbrev IsSpent : Text → ℕ → Store → Type 0
IsSpent jti exp s = (e : ℕ) × (get jti s.consumed_jti ≡ some e) × (exp ≤ e)

set_draining-jti :
    (w : Text) (draining : Bool) (t : ℕ) (s : Store)
    → (set_draining w draining t s).0.consumed_jti ≡ s.consumed_jti
unfolding set_draining
set_draining-jti w draining t s = ground arith

pub acquire_route-jti :
    (a : Acquire) (s : Store) → (acquire_route a s).0.consumed_jti ≡ s.consumed_jti
unfolding acquire_route acquire_live grant_lease drop_expired
acquire_route-jti a s = ground arith

release_route-jti :
    (l : RouteLease) (s : Store) → (release_route l s).0.consumed_jti ≡ s.consumed_jti
unfolding release_route
release_route-jti l s = ground arith

renew_route-jti :
    (w : Text) (r : LeaseRenewal) (t e : ℕ) (s : Store)
    → (renew_route w r t e s).0.consumed_jti ≡ s.consumed_jti
unfolding renew_route
renew_route-jti w r t e s = ground arith

release_route_claim-jti :
    (w : Text) (r : LeaseRenewal) (s : Store)
    → (release_route_claim w r s).0.consumed_jti ≡ s.consumed_jti
unfolding release_route_claim
release_route_claim-jti w r s = ground arith

IsUntil-tail : (now : ℕ) (c : Call) (cs : List Call) → IsUntil now (c ∷ cs) → IsUntil now cs
IsUntil-tail now (consumes c t) cs u = u.1
IsUntil-tail now _ cs u = u

-- A consumption that succeeds notes its identifier until the grant's end.
consume_notes :
    (c : ConnectGrantClaims) (t : ℕ) (s : Store) (exp : ℕ)
    → (consume_grant_result c t s).1.consumed ≡ true
    → exp ≤ c.exp
    → IsSpent c.jti exp (consume_grant_result c t s).0
unfolding consume_grant_result
consume_notes c t s exp h le = elim (consume_pruned-ConsumeOutcome c t (prune_jti t s)) [
  | denied _ q ↦ absurd (ground arith)
  | spent l _ _ _ q ↦ rw q (c.exp, rw (get-put, eq_refl c.jti), le)
]

spent_refuses :
    (c : ConnectGrantClaims) (now : ℕ) (s : Store)
    → IsSpent c.jti c.exp s
    → now < c.exp
    → (consume_grant_result c now s).1.consumed ≡ false
unfolding consume_grant_result prune_jti
spent_refuses c now s (e, g, b) fresh =
    elim (consume_pruned-ConsumeOutcome c now (prune_jti now s)) [
      | denied _ q ↦ q
      | spent l _ _ n q ↦ absurd (ground (arith, n, get-keep (λ x. ltb now x) c.jti s.consumed_jti))
    ]

expired_refuses :
    (c : ConnectGrantClaims) (now : ℕ) (s : Store)
    → c.exp ≤ now
    → (consume_grant_result c now s).1.consumed ≡ false
unfolding consume_grant_result check_claims
expired_refuses c now s h = elim (consume_pruned-ConsumeOutcome c now (prune_jti now s)) [
  | denied _ q ↦ q
  | spent l _ m _ q ↦ absurd (ground arith)
]

module _ (jti : Text) (exp now : ℕ) (fresh : now < exp) where
  consume-IsSpent :
      (c : ConnectGrantClaims) (t : ℕ) (s : Store)
      → t ≤ now
      → IsSpent jti exp s
      → IsSpent jti exp (consume_grant_result c t s).0
  unfolding consume_grant_result
  consume-IsSpent c t s h (e, g, b) = elim (consume_pruned-ConsumeOutcome c t (prune_jti t s)) [
    | denied q _ ↦ rw q (kept)
    | spent l _ _ n q ↦ rw q (
      e,
      ground (
        arith,
        kept.1,
        n,
        eq_iff c.jti jti,
        get-put c.jti jti c.exp (prune_jti t s).consumed_jti,
      ),
      b,
    )
  ]
    where
      kept : IsSpent jti exp (prune_jti t s)
      kept = (e, unfold prune_jti in ground (arith, get-keep (λ x. ltb t x) jti s.consumed_jti), b)

  step-IsSpent :
      (c : Call) (cs : List Call) (s : Store)
      → IsUntil now (c ∷ cs)
      → IsSpent jti exp s
      → IsSpent jti exp (step c s)
  unfolding step
  step-IsSpent (consumes c t) cs s h v = consume-IsSpent c t s h.0 v
  step-IsSpent (heartbeats h expires_at) cs s u v = unfold heartbeat in v
  step-IsSpent (lists t) cs s u v = unfold list_workers in v
  step-IsSpent (drains w draining t) cs s u v = rw (set_draining-jti w draining t s) v
  step-IsSpent (acquires a) cs s u v = rw (acquire_route-jti a s) v
  step-IsSpent (releases l) cs s u v = rw (release_route-jti l s) v
  step-IsSpent (renews w r t expires_at) cs s u v = rw (renew_route-jti w r t expires_at s) v
  step-IsSpent (release_claims w r) cs s u v = rw (release_route_claim-jti w r s) v

  run-IsSpent :
      (cs : List Call) (s : Store) → IsUntil now cs → IsSpent jti exp s → IsSpent jti exp (run cs s)
  unfolding run
  run-IsSpent [] s u v = v
  run-IsSpent (c ∷ cs) s u v =
      run-IsSpent cs (step c s) (IsUntil-tail now c cs u) (step-IsSpent c cs s u v)

-- A grant that has been consumed is never consumed again: whatever calls follow, as long as no
-- consumption among them reads a later clock than `now`, claims with the same identifier and no
-- longer life are refused at `now`.
pub grant_consumed_once :
    (c c' : ConnectGrantClaims) (t now : ℕ) (s : Store) (cs : List Call)
    → (consume_grant_result c t s).1.consumed ≡ true
    → c'.jti ≡ c.jti
    → c'.exp ≤ c.exp
    → IsUntil now cs
    → (consume_grant_result c' now (run cs (consume_grant_result c t s).0)).1.consumed ≡ false
grant_consumed_once c c' t now s cs h same life u = elim (Bool-cases (ltb now c'.exp)) [
  | inl f ↦
      spent_refuses c' now _
        (rw same
          (run-IsSpent c.jti c'.exp now (ground arith) cs _ u (consume_notes c t s c'.exp h life)))
        (ground arith)
  | inr f ↦ expired_refuses c' now _ (ground arith)
]
