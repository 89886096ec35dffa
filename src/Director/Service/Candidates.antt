-- ===== src/Director/Service/Candidates.antt =====
-- `_candidate_workers` of session_director/service.py: which workers a request may go to, and in
-- which order they are tried.
use realtime_voice_agent.Common.{
  ◌*◌, Bool, not, ◌&&◌, ◌||◌, Option, none, some, List, [], ◌∷◌, ltb, nat_eq, filter, is_empty,
  contains, if◌then◌else◌, Text,
}
use realtime_voice_agent.Common.Order.{text_le, sort}
use realtime_voice_agent.Contracts.Models.{
  ControlProtocol, TransportProfile, BindingAdvertisement, WorkerSnapshot, control_eq, profile_key,
  available_slots, resolved_bindings,
}

-- (worker, public_wss_url, profiles)
pub record Candidate : Type 0 where
  pub worker : WorkerSnapshot
  pub public_wss_url : Text
  pub allowed : List TransportProfile

-- `next((item for item in bindings if item.control_protocol == control_protocol), None)`
unfoldable pub find_binding :
    ControlProtocol → List BindingAdvertisement → Option BindingAdvertisement
find_binding control [] = none
find_binding control (b ∷ bs) =
    if control_eq b.control_protocol control then some b else find_binding control bs

unfoldable pub is_ready : WorkerSnapshot → List TransportProfile → Bool
is_ready w allowed =
    w.healthy && not w.draining && ltb 0 (available_slots w) && not (is_empty allowed)

unfoldable pub candidate :
    ControlProtocol → List TransportProfile → WorkerSnapshot → Option Candidate
candidate control requested w = elim (find_binding control (resolved_bindings w.heartbeat)) [
  | none ↦ none
  | some b ↦
      let allowed = filter (contains b.profiles) requested in
      if is_ready w allowed
      then some (record { worker = w; public_wss_url = b.public_wss_url; allowed = allowed })
      else none
]

unfoldable pub collect :
    ControlProtocol → List TransportProfile → List WorkerSnapshot → List Candidate
collect control requested [] = []
collect control requested (w ∷ ws) =
    let rest = collect control requested ws in
    elim (candidate control requested w) [ none ↦ rest | some c ↦ c ∷ rest ]

-- The sort key (active / max, active, worker_id). The source divides floats: of two fractions below 1
-- with denominators of at most 1024 the quotients compare as the fractions do.
unfoldable pub key_le : Candidate → Candidate → Bool
key_le a b =
    let x = a.worker.active_sessions * b.worker.max_sessions in
    let y = b.worker.active_sessions * a.worker.max_sessions in
    ltb x y
    || (nat_eq x y
        && (ltb a.worker.active_sessions b.worker.active_sessions
            || (nat_eq a.worker.active_sessions b.worker.active_sessions
                && text_le a.worker.worker_id b.worker.worker_id)))

-- `none` is `NoCapacityError`.
unfoldable pub candidate_workers :
    List WorkerSnapshot → List TransportProfile → ControlProtocol → Option (List Candidate)
candidate_workers workers requested control = elim (collect control requested workers) [
  | [] ↦ none
  | c ∷ cs ↦ some (sort key_le (c ∷ cs))
]
