-- ===== src/Director/Store/Capacity.antt =====
-- On the leases of a worker and its admission limit.
use realtime_voice_agent.Common.{
  ℕ, ◌+◌, ◌≤◌, ◌<◌, ◌≡◌, refl, true, false, none, List, [], ◌∷◌, arith, if◌then◌else◌, is_ok, ◌↔◌,
  inl, inr, Text, text_key, ◌==◌, eq_iff,
}
use realtime_voice_agent.Common.Dict.{
  get, remove, get-keep, count-keep-le, count-remove-le, count-put_new, count-put_old,
}
use realtime_voice_agent.Contracts.Models.{RouteLease, LeaseRenewal}
use realtime_voice_agent.Director.Store.{
  Store, Acquire, route_of, acquire_route, acquire_live, grant_lease, drop_expired, unexpired,
  new_lease, live_lease, reserved, renew_route, claim_route, lease_route, list_workers, heartbeat,
  set_draining, consume_grant_result, prune_jti,
}
use realtime_voice_agent.Director.Store.Outcomes.{
  conflict, full, granted, acquire_live-AcquireOutcome, rejected, renewed, renew_route-RenewOutcome,
  unmatched, released, release_route_claim-ReleaseOutcome, release_route_cases, denied, spent,
  consume_pruned-ConsumeOutcome,
}
use realtime_voice_agent.Director.Store.History.{
  Call, heartbeats, lists, drains, acquires, releases, renews, release_claims, consumes, step, run,
}

-- After the expired leases are dropped, a route that has no live lease has none.
route_is_free :
    (now : ℕ) (k : Text) (s : Store)
    → live_lease now (get k (drop_expired now s).leases) ≡ false
    → get k (drop_expired now s).leases ≡ none
unfolding drop_expired
route_is_free now k s h = ground (arith, get-keep (unexpired now) k s.leases)

module _ (w : Text) where
  drop_expired-reserved : (now : ℕ) (s : Store) → reserved w (drop_expired now s) ≤ reserved w s
  unfolding drop_expired reserved
  drop_expired-reserved now s = count-keep-le _ (unexpired now) s.leases

  grant_lease-reserved :
      (a : Acquire) (s : Store)
      → get (route_of a) s.leases ≡ none
      → reserved w (grant_lease a s).0 ≡ reserved w s + (if a.worker_id == w then 1 else 0)
  unfolding grant_lease reserved new_lease
  grant_lease-reserved a s free = count-put_new _ (route_of a) _ s.leases free

  remove-reserved :
      (k : Text) (s : Store) → reserved w (record s { leases = remove k s.leases }) ≤ reserved w s
  unfolding reserved
  remove-reserved k s = count-remove-le _ k s.leases

  renew_route-reserved :
      (v : Text) (r : LeaseRenewal) (now expires_at : ℕ) (s : Store)
      → reserved w (renew_route v r now expires_at s).0 ≤ reserved w s
  unfolding reserved
  renew_route-reserved v r now expires_at s = elim (renew_route-RenewOutcome v r now expires_at s) [
    | rejected e ↦ rw e (omega arith)
    | renewed l g _ _ e ↦ rw e (
        omega (
          arith,
          count-put_old (λ (x : RouteLease). x.worker_id == w) (claim_route r)
              (record l { expires_at = expires_at }) l s.leases g refl,
        ))
  ]

-- Acquisitions of the worker's routes state a limit of at most `m`.
abbrev pub IsAdmitting : Text → ℕ → List Call → Type 0
IsAdmitting w m [] = Unit {0}
IsAdmitting w m (acquires a ∷ cs) =
    (a.worker_id ≡ w → a.worker_max_sessions ≤ m) × IsAdmitting w m cs
IsAdmitting w m (_ ∷ cs) = IsAdmitting w m cs

module _ (w : Text) (m : ℕ) where
  acquire_route-within :
      (a : Acquire) (s : Store)
      → (a.worker_id ≡ w → a.worker_max_sessions ≤ m)
      → reserved w s ≤ m
      → reserved w (acquire_route a s).0 ≤ m
  unfolding acquire_route
  acquire_route-within a s limit h =
      let less = drop_expired-reserved w a.now s in
      elim (acquire_live-AcquireOutcome a (drop_expired a.now s)) [
        | conflict _ e ↦ rw e (omega arith)
        | full _ _ e ↦ rw e (omega arith)
        | granted free room e ↦ rw e (
            ground (
              arith,
              limit,
              less,
              h,
              eq_iff a.worker_id w,
              grant_lease-reserved w a (drop_expired a.now s)
                  (route_is_free a.now (route_of a) s free),
            ))
      ]

  step-within :
      (c : Call) (cs : List Call) (s : Store)
      → IsAdmitting w m (c ∷ cs)
      → reserved w s ≤ m
      → reserved w (step c s) ≤ m
  unfolding step
  step-within (acquires a) cs s u h = acquire_route-within a s u.0 h
  step-within (heartbeats b expires_at) cs s u h = unfold heartbeat reserved in h
  step-within (lists t) cs s u h = unfold list_workers reserved in h
  step-within (drains v draining t) cs s u h = unfold set_draining reserved in ground arith
  step-within (releases l) cs s u h = elim (release_route_cases l s) [
    | inl e ↦ rw (e, step) h
    | inr e ↦ rw (e, step) (omega (arith, remove-reserved w (lease_route l) s))
  ]
  step-within (renews v r t expires_at) cs s u h =
      omega (arith, renew_route-reserved w v r t expires_at s)
  step-within (release_claims v r) cs s u h = elim (release_route_claim-ReleaseOutcome v r s) [
    | unmatched e ↦ rw (e, step) h
    | released l _ _ e ↦ rw (e, step) (omega (arith, remove-reserved w (claim_route r) s))
  ]
  step-within (consumes c t) cs s u h =
      unfold consume_grant_result prune_jti reserved in
      elim (consume_pruned-ConsumeOutcome c t (prune_jti t s)) [
        | denied e _ ↦ rw (e, step) h
        | spent l _ _ _ e ↦ rw (e, step) h
      ]

  IsAdmitting-tail : (c : Call) (cs : List Call) → IsAdmitting w m (c ∷ cs) → IsAdmitting w m cs
  IsAdmitting-tail (acquires a) cs u = u.1
  IsAdmitting-tail _ cs u = u

  -- A worker that holds at most `m` leases never holds more, whatever calls come, as long as each
  -- acquisition for it states an admission limit of at most `m`.
  pub reserved-run-le :
      (cs : List Call) (s : Store)
      → IsAdmitting w m cs
      → reserved w s ≤ m
      → reserved w (run cs s) ≤ m
  unfolding run
  reserved-run-le [] s u h = h
  reserved-run-le (c ∷ cs) s u h =
      reserved-run-le cs (step c s) (IsAdmitting-tail c cs u) (step-within c cs s u h)

pub live-drop_expired :
    (now : ℕ) (k : Text) (s : Store)
    → live_lease now (get k (drop_expired now s).leases) ≡ live_lease now (get k s.leases)
unfolding drop_expired
live-drop_expired now k s = ground (arith, get-keep (unexpired now) k s.leases)

-- An acquisition succeeds exactly when no live lease holds the route and both the worker's own count
-- and its leases in the store are below its limit, the expired ones not counted.
pub acquire_route-ok_iff :
    (a : Acquire) (s : Store)
    → (is_ok (acquire_route a s).1 ≡ true) ↔ (
        (live_lease a.now (get (route_of a) s.leases) ≡ false)
        × (a.worker_active_sessions < a.worker_max_sessions)
        × (reserved a.worker_id (drop_expired a.now s) < a.worker_max_sessions))
unfolding acquire_route acquire_live grant_lease
acquire_route-ok_iff a s = ground (arith, live-drop_expired a.now (route_of a) s)
