-- ===== src/Director/Service/Heartbeats.antt =====
-- `heartbeat` of session_director/service.py: what it does to the leases that it releases.
use mathlib.Core.List.{Mem, mem-cons, mem-cons_self, mem-cons_of_mem, not-mem-nil, Mem-prop}
use mathlib.Core.Logic.Or
use realtime_voice_agent.Common.{
  ℕ, ◌+◌, ◌≡◌, Bool, true, false, some, List, [], ◌∷◌, Text, arith, eq_iff, text_key, nat_key,
  if◌then◌else◌,
}
use realtime_voice_agent.Common.Dict.{get, get-put, get-remove}
use realtime_voice_agent.Contracts.Models.{WorkerHeartbeat, LeaseRenewal, RouteLease}
use realtime_voice_agent.Director.Store
use realtime_voice_agent.Director.Store.{
  Store, claim_route, claims_lease, renew_route, release_route_claim,
}
use realtime_voice_agent.Director.Store.Outcomes.{
  rejected, renewed, renew_route-RenewOutcome, unmatched, released,
  release_route_claim-ReleaseOutcome,
}
use realtime_voice_agent.Director.Service.{Config, release_all, renew_all, heartbeat}

-- The store holds no lease that the claim of the worker names.
pub record IsUnclaimed (w : Text) (r : LeaseRenewal) (s : Store) : Type 0 where
  pub none_held :
      (l : RouteLease) → get (claim_route r) s.leases ≡ some l → claims_lease w r l ≡ false

module _ (w : Text) (r : LeaseRenewal) where
  release-IsUnclaimed :
      (v : Text) (r' : LeaseRenewal) (s : Store)
      → IsUnclaimed w r s
      → IsUnclaimed w r (release_route_claim v r' s).0
  release-IsUnclaimed v r' s h = elim (release_route_claim-ReleaseOutcome v r' s) [
    | unmatched e ↦ rw e h
    | released l _ _ e ↦ rw e (record {
      none_held = λ x g.
          ground (arith, h.none_held x, get-remove (claim_route r') (claim_route r) s.leases);
    })
  ]

  release_self-IsUnclaimed : (s : Store) → IsUnclaimed w r (release_route_claim w r s).0
  unfolding release_route_claim
  release_self-IsUnclaimed s = record {
    none_held = λ x g. ground (
      arith,
      get-remove (claim_route r) (claim_route r) s.leases,
      eq_iff (claim_route r) (claim_route r),
    );
  }

  renew-IsUnclaimed :
      (v : Text) (r' : LeaseRenewal) (now expires_at : ℕ) (s : Store)
      → IsUnclaimed w r s
      → IsUnclaimed w r (renew_route v r' now expires_at s).0
  unfolding claims_lease
  renew-IsUnclaimed v r' now expires_at s h =
      elim (renew_route-RenewOutcome v r' now expires_at s) [
        | rejected e ↦ rw e h
        | renewed l g _ _ e ↦ rw e (record {
          none_held = λ x f. ground (
            arith,
            h.none_held x,
            h.none_held l,
            eq_iff (claim_route r') (claim_route r),
            get-put (claim_route r') (claim_route r) (record l { expires_at = expires_at })
                s.leases,
          );
        })
      ]

  release_all-keeps :
      (rs : List LeaseRenewal) (s : Store)
      → IsUnclaimed w r s
      → IsUnclaimed w r (release_all w rs s)
  unfolding release_all
  release_all-keeps [] s h = h
  release_all-keeps (x ∷ rs) s h = release_all-keeps rs _ (release-IsUnclaimed w x s h)

  IsUnclaimed-prop : (s : Store) → IsProp (IsUnclaimed w r s)
  IsUnclaimed-prop s = hlevel

  release_all-IsUnclaimed :
      (rs : List LeaseRenewal) (s : Store) → Mem r rs → IsUnclaimed w r (release_all w rs s)
  unfolding release_all
  release_all-IsUnclaimed [] s m = absurd (not-mem-nil m)
  release_all-IsUnclaimed (x ∷ rs) s m =
      Or.elim (IsUnclaimed-prop _) (mem-cons.0 m)
        (λ e. release_all-keeps rs _ (rw (← e) (release_self-IsUnclaimed s)))
        (λ t. release_all-IsUnclaimed rs _ t)

  renew_all-keeps :
      (rs : List LeaseRenewal) (now expires_at : ℕ) (s : Store)
      → IsUnclaimed w r s
      → IsUnclaimed w r (renew_all w rs now expires_at s).0
  unfolding renew_all
  renew_all-keeps [] now expires_at s h = h
  renew_all-keeps (x ∷ rs) now expires_at s h =
      renew_all-keeps rs now expires_at _ (renew-IsUnclaimed w x now expires_at s h)

  unclaimed-renew :
      (now expires_at : ℕ) (s : Store)
      → IsUnclaimed w r s
      → (renew_route w r now expires_at s).1 ≡ false
  unclaimed-renew now expires_at s h = elim (renew_route-RenewOutcome w r now expires_at s) [
    | rejected e ↦ rw e
    | renewed l g _ m e ↦ absurd (ground (arith, h.none_held l))
  ]

  renew_all-rejects :
      (rs : List LeaseRenewal) (now expires_at : ℕ) (s : Store)
      → IsUnclaimed w r s
      → Mem r rs
      → Mem r.session_epoch (renew_all w rs now expires_at s).1
  unfolding renew_all
  renew_all-rejects [] now expires_at s h m = absurd (not-mem-nil m)
  renew_all-rejects (x ∷ rs) now expires_at s h m =
      Or.elim Mem-prop (mem-cons.0 m)
        (λ e. rw (← e) (rw (unclaimed-renew now expires_at s h) mem-cons_self))
        (λ t.
          added (renew_route w x now expires_at s).1 x.session_epoch _
            (renew_all-rejects rs now expires_at _ (renew-IsUnclaimed w x now expires_at s h) t))
    where
      added :
          (b : Bool) (e : Text) (es : List Text)
          → Mem r.session_epoch es
          → Mem r.session_epoch (if b then es else e ∷ es)
      added true e es i = i
      added false e es i = mem-cons_of_mem e i

-- After a heartbeat that releases a claim, the store holds no lease that the claim names.
pub heartbeat-IsUnclaimed :
    (cfg : Config) (now : ℕ) (h : WorkerHeartbeat) (s : Store) (r : LeaseRenewal)
    → Mem r h.released_leases
    → IsUnclaimed h.worker_id r (heartbeat cfg now h s).0
unfolding heartbeat
heartbeat-IsUnclaimed cfg now h s r m =
    let s1 = (Store.heartbeat h (now + cfg.heartbeat_ttl) s).0 in
    renew_all-keeps h.worker_id r h.active_leases now (now + cfg.lease_ttl) _
      (release_all-IsUnclaimed h.worker_id r h.released_leases s1 m)

-- A claim that a heartbeat both releases and asks to renew has its epoch among the rejected ones.
pub heartbeat_rejects_released :
    (cfg : Config) (now : ℕ) (h : WorkerHeartbeat) (s : Store) (r : LeaseRenewal)
    → Mem r h.released_leases
    → Mem r h.active_leases
    → Mem r.session_epoch (heartbeat cfg now h s).1.rejected_session_epochs
unfolding heartbeat
heartbeat_rejects_released cfg now h s r m a =
    let s1 = (Store.heartbeat h (now + cfg.heartbeat_ttl) s).0 in
    renew_all-rejects h.worker_id r h.active_leases now (now + cfg.lease_ttl) _
      (release_all-IsUnclaimed h.worker_id r h.released_leases s1 m) a
