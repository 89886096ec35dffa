-- ===== src/Director/Store/Fencing.antt =====
-- On the fencing tokens of a route, and leases that were overtaken.
use realtime_voice_agent.Common.{
  ℕ, suc, ◌+◌, ◌≤◌, ◌<◌, ◌≡◌, ap, ◌∙◌, Bool, false, some, List, [], ◌∷◌, arith, Text, eq_iff,
  text_key, eq_refl, nat_key, inl, inr, ok,
}
use realtime_voice_agent.Common.Dict.{get, get-put, get-remove, get-keep, remove}
use realtime_voice_agent.Contracts.Models.{RouteLease, LeaseRenewal, ConnectGrantClaims}
use realtime_voice_agent.Director.Store.{
  Store, Acquire, unexpired, route_of, heartbeat, list_workers, set_draining, acquire_route,
  acquire_live, grant_lease, drop_expired, new_lease, release_route, lease_route, claim_route,
  claims_lease, renew_route, release_route_claim, consume_grant_result, check_claims, prune_jti,
  fence, grant_route,
}
use realtime_voice_agent.Director.Store.Outcomes.{
  conflict, full, granted, acquire_live-AcquireOutcome, acquire_live-eq_ok, rejected, renewed,
  renew_route-RenewOutcome, unmatched, released, release_route_claim-ReleaseOutcome,
  release_route_cases, denied, spent, consume_pruned-ConsumeOutcome,
}
use realtime_voice_agent.Director.Store.History.{
  Call, heartbeats, lists, drains, acquires, releases, renews, release_claims, consumes, step, run,
}

-- The counter of the route stands at `n` or above, and so does the token of its lease, if it has one.
pub record IsFencedFrom (n : ℕ) (k : Text) (s : Store) : Type 0 where
  pub counter : n ≤ fence k s
  pub token : (l : RouteLease) → get k s.leases ≡ some l → n ≤ l.fencing_token

module _ (n : ℕ) (k : Text) where
  drop_expired-IsFencedFrom :
      (now : ℕ) (s : Store) → IsFencedFrom n k s → IsFencedFrom n k (drop_expired now s)
  unfolding drop_expired fence
  drop_expired-IsFencedFrom now s v = record {
    counter = v.counter;
    token = λ l h. ground (arith, get-keep (unexpired now) k s.leases, v.token l);
  }

  grant_lease-IsFencedFrom :
      (a : Acquire) (s : Store) → IsFencedFrom n k s → IsFencedFrom n k (grant_lease a s).0
  unfolding grant_lease fence new_lease
  grant_lease-IsFencedFrom a s v = record {
    counter = ground (
      arith,
      v.counter,
      eq_iff (route_of a) k,
      get-put (route_of a) k (fence (route_of a) s + 1) s.fencing,
    );
    token = λ l h. ground (
      arith,
      v.counter,
      v.token l,
      eq_iff (route_of a) k,
      get-put (route_of a) k (new_lease a (fence (route_of a) s + 1)) s.leases,
    );
  }

  acquire_live-IsFencedFrom :
      (a : Acquire) (s : Store) → IsFencedFrom n k s → IsFencedFrom n k (acquire_live a s).0
  unfolding acquire_live
  acquire_live-IsFencedFrom a s v = elim (acquire_live-AcquireOutcome a s) [
    | conflict _ e ↦ rw e v
    | full _ _ e ↦ rw e v
    | granted _ _ e ↦ rw e (grant_lease-IsFencedFrom a s v)
  ]

  remove-IsFencedFrom :
      (j : Text) (s : Store)
      → IsFencedFrom n k s
      → IsFencedFrom n k (record s { leases = remove j s.leases })
  unfolding fence
  remove-IsFencedFrom j s v = record {
    counter = v.counter;
    token = λ l h. ground (arith, get-remove j k s.leases, v.token l);
  }

  renew_route-IsFencedFrom :
      (w : Text) (r : LeaseRenewal) (now expires_at : ℕ) (s : Store)
      → IsFencedFrom n k s
      → IsFencedFrom n k (renew_route w r now expires_at s).0
  unfolding fence
  renew_route-IsFencedFrom w r now expires_at s v =
      elim (renew_route-RenewOutcome w r now expires_at s) [
        | rejected e ↦ rw e v
        | renewed l g _ _ e ↦ rw e (record {
          counter = v.counter;
          token = λ l' h. ground (
            arith,
            v.token l,
            v.token l',
            eq_iff (claim_route r) k,
            get-put (claim_route r) k (record l { expires_at = expires_at }) s.leases,
          );
        })
      ]

  release_route_claim-IsFencedFrom :
      (w : Text) (r : LeaseRenewal) (s : Store)
      → IsFencedFrom n k s
      → IsFencedFrom n k (release_route_claim w r s).0
  release_route_claim-IsFencedFrom w r s v = elim (release_route_claim-ReleaseOutcome w r s) [
    | unmatched e ↦ rw e v
    | released l _ _ e ↦ rw e (remove-IsFencedFrom (claim_route r) s v)
  ]

  release_route-IsFencedFrom :
      (l : RouteLease) (s : Store) → IsFencedFrom n k s → IsFencedFrom n k (release_route l s).0
  release_route-IsFencedFrom l s v = elim (release_route_cases l s) [
    | inl e ↦ rw e v
    | inr e ↦ rw e (remove-IsFencedFrom (lease_route l) s v)
  ]

  consume_grant_result-IsFencedFrom :
      (c : ConnectGrantClaims) (now : ℕ) (s : Store)
      → IsFencedFrom n k s
      → IsFencedFrom n k (consume_grant_result c now s).0
  unfolding consume_grant_result fence prune_jti
  consume_grant_result-IsFencedFrom c now s v =
      elim (consume_pruned-ConsumeOutcome c now (prune_jti now s)) [
        | denied e _ ↦ rw e (record { counter = v.counter; token = v.token })
        | spent l _ _ _ e ↦ rw e (record { counter = v.counter; token = v.token })
      ]

  set_draining-IsFencedFrom :
      (w : Text) (draining : Bool) (now : ℕ) (s : Store)
      → IsFencedFrom n k s
      → IsFencedFrom n k (set_draining w draining now s).0
  unfolding set_draining fence
  set_draining-IsFencedFrom w draining now s v = record {
    counter = ground (arith, v.counter);
    token = λ l h. ground (arith, v.token l);
  }

  pub step-IsFencedFrom : (c : Call) (s : Store) → IsFencedFrom n k s → IsFencedFrom n k (step c s)
  unfolding step heartbeat list_workers acquire_route fence
  step-IsFencedFrom (heartbeats h expires_at) s v = record { counter = v.counter; token = v.token }
  step-IsFencedFrom (lists now) s v = record { counter = v.counter; token = v.token }
  step-IsFencedFrom (drains w draining now) s v = set_draining-IsFencedFrom w draining now s v
  step-IsFencedFrom (acquires a) s v =
      acquire_live-IsFencedFrom a _ (drop_expired-IsFencedFrom a.now s v)
  step-IsFencedFrom (releases l) s v = release_route-IsFencedFrom l s v
  step-IsFencedFrom (renews w r now expires_at) s v =
      renew_route-IsFencedFrom w r now expires_at s v
  step-IsFencedFrom (release_claims w r) s v = release_route_claim-IsFencedFrom w r s v
  step-IsFencedFrom (consumes c now) s v = consume_grant_result-IsFencedFrom c now s v

  pub run-IsFencedFrom :
      (cs : List Call) (s : Store) → IsFencedFrom n k s → IsFencedFrom n k (run cs s)
  unfolding run
  run-IsFencedFrom [] s v = v
  run-IsFencedFrom (c ∷ cs) s v = run-IsFencedFrom cs (step c s) (step-IsFencedFrom c s v)

grant_lease-fences :
    (a : Acquire) (s : Store)
    → IsFencedFrom (fence (route_of a) s + 1) (route_of a) (grant_lease a s).0
unfolding grant_lease fence new_lease
grant_lease-fences a s = record {
  counter = rw (get-put, eq_refl (route_of a)) (omega arith);
  token = λ l h. ground (
    arith,
    eq_refl (route_of a),
    get-put (route_of a) (route_of a) (new_lease a (fence (route_of a) s + 1)) s.leases,
  );
}

-- A lease that is granted carries the next value of its route's counter.
pub acquire_route-token :
    (a : Acquire) (s : Store) (l : RouteLease)
    → (acquire_route a s).1 ≡ ok l
    → (l.fencing_token ≡ fence (route_of a) s + 1)
      × (lease_route l ≡ route_of a)
      × IsFencedFrom l.fencing_token (route_of a) (acquire_route a s).0
unfolding acquire_route drop_expired fence new_lease
acquire_route-token a s l h =
    let (_, _, e, g) = acquire_live-eq_ok a (drop_expired a.now s) l h in
    (ground arith, ground arith, rw (e, g) (grant_lease-fences a (drop_expired a.now s)))

-- Whatever happens between two acquisitions of one route, the later lease has the greater token.
pub tokens_increase :
    (a b : Acquire) (s : Store) (cs : List Call) (l l' : RouteLease)
    → route_of a ≡ route_of b
    → (acquire_route a s).1 ≡ ok l
    → (acquire_route b (run cs (acquire_route a s).0)).1 ≡ ok l'
    → l.fencing_token < l'.fencing_token
tokens_increase a b s cs l l' same h h' =
    let first = acquire_route-token a s l h in
    let later = acquire_route-token b (run cs (acquire_route a s).0) l' h' in
    let middle = run cs (acquire_route a s).0 in
    let kept = (run-IsFencedFrom l.fencing_token (route_of a) cs _ first.2).counter in
    omega (arith, ap (λ k. fence k middle) same)

-- Once the route stands above a token, no call that names the token gets through.
stale_token :
    (k : Text) (n : ℕ) (s : Store)
    → IsFencedFrom (suc n) k s
    → (w : Text) (r : LeaseRenewal) (c : ConnectGrantClaims) (now expires_at : ℕ)
    → claim_route r ≡ k
    → r.fencing_token ≤ n
    → grant_route c ≡ k
    → c.fencing_token ≤ n
    → (renew_route w r now expires_at s ≡ (s, false))
      × (release_route_claim w r s ≡ (s, false))
      × ((consume_grant_result c now s).1.consumed ≡ false)
unfolding claims_lease check_claims prune_jti consume_grant_result
stale_token k n s v w r c now expires_at hr nr hc nc = (
  elim (renew_route-RenewOutcome w r now expires_at s) [
    | rejected e ↦ e
    | renewed l g _ m e ↦ absurd (ground (arith, v.token l, eq_iff l.fencing_token r.fencing_token))
  ],
  elim (release_route_claim-ReleaseOutcome w r s) [
    | unmatched e ↦ e
    | released l g m e ↦ absurd (ground (arith, v.token l, eq_iff l.fencing_token r.fencing_token))
  ],
  elim (consume_pruned-ConsumeOutcome c now (prune_jti now s)) [
    | denied _ e ↦ e
    | spent l g m _ e ↦ absurd (ground (arith, v.token l, eq_iff l.fencing_token c.fencing_token))
  ],
)

-- After two acquisitions of one route, whatever calls come between and after them, the claims that
-- carry the first lease's token (or a smaller one) neither renew nor release the route, and leave the store
-- as it is; and no grant that carries it is consumed.
pub overtaken_lease :
    (a b : Acquire) (s : Store) (cs cs' : List Call) (l l' : RouteLease)
    → route_of a ≡ route_of b
    → (acquire_route a s).1 ≡ ok l
    → (acquire_route b (run cs (acquire_route a s).0)).1 ≡ ok l'
    → (w : Text) (r : LeaseRenewal) (c : ConnectGrantClaims) (now expires_at : ℕ)
    → claim_route r ≡ route_of a
    → r.fencing_token ≤ l.fencing_token
    → grant_route c ≡ route_of a
    → c.fencing_token ≤ l.fencing_token
    → let t = run cs' (acquire_route b (run cs (acquire_route a s).0)).0 in
      (renew_route w r now expires_at t ≡ (t, false))
      × (release_route_claim w r t ≡ (t, false))
      × ((consume_grant_result c now t).1.consumed ≡ false)
overtaken_lease a b s cs cs' l l' same h h' w r c now expires_at hr nr hc nc =
    let later = acquire_route-token b (run cs (acquire_route a s).0) l' h' in
    let fenced = run-IsFencedFrom l'.fencing_token (route_of b) cs' _ later.2 in
    let grown = tokens_increase a b s cs l l' same h h' in
    stale_token (route_of b) l.fencing_token _
      (record {
        counter = omega (arith, fenced.counter);
        token = λ x g. omega (arith, fenced.token x g);
      })
      w r c now expires_at (hr ∙ same) nr (hc ∙ same) nc
