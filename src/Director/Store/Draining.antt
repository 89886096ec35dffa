-- ===== src/Director/Store/Draining.antt =====
-- On a worker that drains.
use realtime_voice_agent.Common.{
  ℕ, not, ◌==◌, ◌≤◌, ◌≡◌, Bool, true, false, ◌⊎◌, inl, inr, some, arith, leb, Text, text_key,
  eq_iff, Bool-cases, Option-cases,
}
use realtime_voice_agent.Common.Dict.{get, put, get-put, get-keep}
use realtime_voice_agent.Contracts.Models.{
  WorkerHeartbeat, WorkerSnapshot, with_draining, ConnectGrantClaims,
}
use realtime_voice_agent.Director.Store.{
  Store, heartbeat, list_workers, set_draining, acquire_route, acquire_live, grant_lease,
  drop_expired, renew_route, release_route, release_route_claim, consume_grant_result, prune_jti,
}
use realtime_voice_agent.Director.Store.Outcomes.{denied, spent, consume_pruned-ConsumeOutcome}
use realtime_voice_agent.Director.Store.History.{
  Call, heartbeats, lists, drains, acquires, releases, renews, release_claims, consumes, step,
}

-- The worker is registered and draining.
pub record IsDraining (w : Text) (s : Store) : Type 0 where
  pub snapshot : WorkerSnapshot
  pub registered : get w s.workers ≡ some snapshot
  pub draining : snapshot.draining ≡ true

-- The two calls that end it: a listing after the heartbeat has run out, and an operator's request.
pub data Ends (w : Text) (s : Store) : Call → Type 0 where
  forgotten :
      (t : ℕ) (x : WorkerSnapshot)
      → get w s.workers ≡ some x
      → x.heartbeat_expires_at ≤ t
      → Ends w s (lists t)
  resumed :
      (v : Text) (draining : Bool) (t : ℕ)
      → v ≡ w
      → draining ≡ false
      → Ends w s (drains v draining t)

same_workers : (w : Text) (s s' : Store) → s'.workers ≡ s.workers → IsDraining w s → IsDraining w s'
same_workers w s s' e v = record {
  snapshot = v.snapshot;
  registered = rw e v.registered;
  draining = v.draining;
}

consume_grant_result-workers :
    (c : ConnectGrantClaims) (t : ℕ) (s : Store)
    → (consume_grant_result c t s).0.workers ≡ s.workers
unfolding consume_grant_result prune_jti
consume_grant_result-workers c t s = elim (consume_pruned-ConsumeOutcome c t (prune_jti t s)) [
  | denied e _ ↦ rw e
  | spent l _ _ _ e ↦ rw e
]

heartbeat-IsDraining :
    (w : Text) (s : Store) (h : WorkerHeartbeat) (expires_at : ℕ)
    → IsDraining w s
    → IsDraining w (heartbeat h expires_at s).0
unfolding heartbeat with_draining
heartbeat-IsDraining w s h expires_at v = elim (Bool-cases (h.worker_id == w)) [
  | inl e ↦ record {
    snapshot = (heartbeat h expires_at s).1;
    registered =
        ground (
          arith,
          eq_iff h.worker_id w,
          get-put h.worker_id w (heartbeat h expires_at s).1 s.workers,
        );
    draining = ground (arith, eq_iff h.worker_id w, v.registered, v.draining);
  }
  | inr e ↦ record {
    snapshot = v.snapshot;
    registered =
        ground (arith, v.registered, get-put h.worker_id w (heartbeat h expires_at s).1 s.workers);
    draining = v.draining;
  }
]

list_workers-IsDraining :
    (w : Text) (s : Store) (t : ℕ)
    → IsDraining w s
    → IsDraining w (list_workers t s).0 ⊎ Ends w s (lists t)
unfolding list_workers
list_workers-IsDraining w s t v = elim (Bool-cases (leb v.snapshot.heartbeat_expires_at t)) [
  | inl e ↦ inr (forgotten t v.snapshot v.registered (ground arith))
  | inr e ↦ inl (record {
    snapshot = v.snapshot;
    registered = ground (
      arith,
      v.registered,
      get-keep (λ (x : WorkerSnapshot). not (leb x.heartbeat_expires_at t)) w s.workers,
    );
    draining = v.draining;
  })
]

set_draining_cases :
    (v : Text) (s : Store) (draining : Bool) (t : ℕ)
    → ((set_draining v draining t s).0.workers ≡ s.workers)
      ⊎ ((x : WorkerSnapshot) × (get v s.workers ≡ some x)
          × ((set_draining v draining t s).0.workers ≡ put v (with_draining x draining) s.workers))
unfolding set_draining
set_draining_cases v s draining t = elim (Option-cases (get v s.workers)) [
  | inl e ↦ inl (ground arith)
  | inr (x, e) ↦ elim (Bool-cases (leb x.heartbeat_expires_at t)) [
    | inl f ↦ inl (ground arith)
    | inr f ↦ inr (x, e, ground arith)
  ]
]

set_draining-IsDraining :
    (w v : Text) (s : Store) (draining : Bool) (t : ℕ)
    → IsDraining w s
    → IsDraining w (set_draining v draining t s).0 ⊎ Ends w s (drains v draining t)
set_draining-IsDraining w v s draining t d = elim (set_draining_cases v s draining t) [
  | inl e ↦ inl (same_workers w s _ e d)
  | inr (x, g, e) ↦ elim (Bool-cases (v == w)) [
    | inl same ↦ elim (Bool-cases draining) [
      | inl on ↦ inl (record {
        snapshot = with_draining x draining;
        registered = rw e (ground (arith, same, get-put v w (with_draining x draining) s.workers));
        draining = unfold with_draining in on;
      })
      | inr off ↦ inr (resumed v draining t ((eq_iff v w).0 same) off)
    ]
    | inr other ↦ inl (record {
      snapshot = d.snapshot;
      registered =
          rw e
            (ground (arith, other, d.registered, get-put v w (with_draining x draining) s.workers));
      draining = d.draining;
    })
  ]
]

-- A call leaves a draining worker registered and draining, unless it is one of those two: no
-- heartbeat of the worker, whatever it says, puts it back.
pub IsDraining-sticks :
    (w : Text) (s : Store) (c : Call) → IsDraining w s → IsDraining w (step c s) ⊎ Ends w s c
unfolding step
IsDraining-sticks w s (heartbeats h expires_at) v = inl (heartbeat-IsDraining w s h expires_at v)
IsDraining-sticks w s (lists t) v = list_workers-IsDraining w s t v
IsDraining-sticks w s (drains u draining t) v = set_draining-IsDraining w u s draining t v
IsDraining-sticks w s (acquires a) v = inl (
    same_workers w s _ (unfold acquire_route acquire_live grant_lease drop_expired in ground arith)
      v)
IsDraining-sticks w s (releases l) v =
    inl (same_workers w s _ (unfold release_route in ground arith) v)
IsDraining-sticks w s (renews u r t e) v =
    inl (same_workers w s _ (unfold renew_route in ground arith) v)
IsDraining-sticks w s (release_claims u r) v =
    inl (same_workers w s _ (unfold release_route_claim in ground arith) v)
IsDraining-sticks w s (consumes c t) v =
    inl (same_workers w s _ (consume_grant_result-workers c t s) v)
