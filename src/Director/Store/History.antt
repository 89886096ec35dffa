-- ===== src/Director/Store/History.antt =====
-- The calls that Director processes make of the store, as values, and the store after a sequence of
-- them. Every interleaving of the coroutines is such a sequence, since each call holds the lock.
use realtime_voice_agent.Common.{ℕ, Bool, Text, List, [], ◌∷◌}
use realtime_voice_agent.Contracts.Models.{
  WorkerHeartbeat, RouteLease, LeaseRenewal, ConnectGrantClaims,
}
use realtime_voice_agent.Director.Store.{
  Store, Acquire, heartbeat, list_workers, set_draining, acquire_route, release_route, renew_route,
  release_route_claim, consume_grant_result,
}

pub data Call : Type 0 where
  heartbeats : WorkerHeartbeat → ℕ → Call
  lists : ℕ → Call
  drains : Text → Bool → ℕ → Call
  acquires : Acquire → Call
  releases : RouteLease → Call
  renews : Text → LeaseRenewal → ℕ → ℕ → Call
  release_claims : Text → LeaseRenewal → Call
  consumes : ConnectGrantClaims → ℕ → Call

unfoldable pub step : Call → Store → Store
step (heartbeats h expires_at) s = (heartbeat h expires_at s).0
step (lists now) s = (list_workers now s).0
step (drains w draining now) s = (set_draining w draining now s).0
step (acquires a) s = (acquire_route a s).0
step (releases l) s = (release_route l s).0
step (renews w r now expires_at) s = (renew_route w r now expires_at s).0
step (release_claims w r) s = (release_route_claim w r s).0
step (consumes c now) s = (consume_grant_result c now s).0

unfoldable pub run : List Call → Store → Store
run [] s = s
run (c ∷ cs) s = run cs (step c s)
