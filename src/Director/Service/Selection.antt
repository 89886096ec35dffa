-- ===== src/Director/Service/Selection.antt =====
-- Which worker a bootstrap goes to.
use mathlib.Core.List.{Mem, mem-cons_self, mem-cons_of_mem}
use realtime_voice_agent.Common.{
  ◌<◌, ◌≡◌, refl, subst, true, false, ◌≢◌, inl, inr, some, List, [], ◌∷◌, filter, contains, arith,
  Bool-cases, Option-cases,
}
use realtime_voice_agent.Common.Order.{sort, insert}
use realtime_voice_agent.Contracts.Models.{
  ControlProtocol, TransportProfile, BindingAdvertisement, WorkerSnapshot, profile_key,
  available_slots, resolved_bindings,
}
use realtime_voice_agent.Director.Service.{}
use realtime_voice_agent.Director.Service.Candidates.{
  Candidate, find_binding, is_ready, candidate, collect, key_le, candidate_workers,
}

-- What makes a worker eligible for a request, and what the candidate for it says.
pub record IsEligible (control : ControlProtocol) (requested : List TransportProfile)
    (workers : List WorkerSnapshot) (c : Candidate) : Type 0 where
  pub listed : Mem c.worker workers
  pub healthy : c.worker.healthy ≡ true
  pub serving : c.worker.draining ≡ false
  pub room : c.worker.active_sessions < c.worker.max_sessions
  pub binding : BindingAdvertisement
  pub bound : find_binding control (resolved_bindings c.worker.heartbeat) ≡ some binding
  pub url : c.public_wss_url ≡ binding.public_wss_url
  pub profiles : c.allowed ≡ filter (contains binding.profiles) requested
  pub nonempty : c.allowed ≢ []

abbrev pub AllEligible :
    ControlProtocol → List TransportProfile → List WorkerSnapshot → List Candidate → Type 0
AllEligible control requested workers [] = Unit {0}
AllEligible control requested workers (c ∷ cs) =
    IsEligible control requested workers c × AllEligible control requested workers cs

abbrev candidate_at : List TransportProfile → WorkerSnapshot → BindingAdvertisement → Candidate
candidate_at requested w b = record {
  worker = w;
  public_wss_url = b.public_wss_url;
  allowed = filter (contains b.profiles) requested;
}

is_ready_facts :
    (w : WorkerSnapshot) (allowed : List TransportProfile)
    → is_ready w allowed ≡ true
    → (w.healthy ≡ true)
      × (w.draining ≡ false)
      × (w.active_sessions < w.max_sessions)
      × (allowed ≢ [])
unfolding is_ready available_slots
is_ready_facts w [] h = absurd (ground arith)
is_ready_facts w (p ∷ ps) h = (ground arith, ground arith, ground arith, λ e. cc)

module _ (control : ControlProtocol) (requested : List TransportProfile)
    (ws : List WorkerSnapshot) where
  candidate_at-IsEligible :
      (w : WorkerSnapshot) (b : BindingAdvertisement)
      → find_binding control (resolved_bindings w.heartbeat) ≡ some b
      → is_ready w (filter (contains b.profiles) requested) ≡ true
      → Mem w ws
      → IsEligible control requested ws (candidate_at requested w b)
  candidate_at-IsEligible w b e f m =
      let (healthy, serving, room, nonempty) = is_ready_facts w _ f in
      record {
        listed = m;
        healthy = healthy;
        serving = serving;
        room = room;
        binding = b;
        bound = e;
        url = refl;
        profiles = refl;
        nonempty = nonempty;
      }

  candidate-IsEligible :
      (w : WorkerSnapshot) (c : Candidate)
      → candidate control requested w ≡ some c
      → Mem w ws
      → IsEligible control requested ws c
  unfolding candidate
  candidate-IsEligible w c h m =
      elim (Option-cases (find_binding control (resolved_bindings w.heartbeat))) [
        | inl e ↦ absurd (ground arith)
        | inr (b, e) ↦ elim (Bool-cases (is_ready w (filter (contains b.profiles) requested))) [
          | inl f ↦
              let same : candidate_at requested w b ≡ c = ground arith in
              subst (IsEligible control requested ws) same (candidate_at-IsEligible w b e f m)
          | inr f ↦ absurd (ground arith)
        ]
      ]

  -- `us` is a part of the listing.
  collect-AllEligible :
      (us : List WorkerSnapshot)
      → ((w : WorkerSnapshot) → Mem w us → Mem w ws)
      → AllEligible control requested ws (collect control requested us)
  unfolding collect
  collect-AllEligible [] sub = tt
  collect-AllEligible (w ∷ us) sub =
      let rest = collect-AllEligible us (λ x m. sub x (mem-cons_of_mem w m)) in
      elim (Option-cases (candidate control requested w)) [
        | inl e ↦ rw (e, collect) rest
        | inr (c, e) ↦ rw (e, collect) (candidate-IsEligible w c e (sub w mem-cons_self), rest)
      ]

  insert-AllEligible :
      (c : Candidate) (cs : List Candidate)
      → IsEligible control requested ws c
      → AllEligible control requested ws cs
      → AllEligible control requested ws (insert key_le c cs)
  unfolding insert
  insert-AllEligible c [] h hs = (h, tt)
  insert-AllEligible c (d ∷ cs) h hs = elim (Bool-cases (key_le c d)) [
    | inl e ↦ rw e (h, hs)
    | inr e ↦ rw e (hs.0, insert-AllEligible c cs h hs.1)
  ]

  sort-AllEligible :
      (cs : List Candidate)
      → AllEligible control requested ws cs
      → AllEligible control requested ws (sort key_le cs)
  unfolding sort
  sort-AllEligible [] hs = tt
  sort-AllEligible (c ∷ cs) hs = insert-AllEligible c _ hs.0 (sort-AllEligible cs hs.1)

-- Every candidate for a request is a listed worker that is healthy, not draining and below its
-- limit, with a binding for the control protocol and at least one of the requested profiles.
pub candidate_workers-AllEligible :
    (ws : List WorkerSnapshot) (requested : List TransportProfile) (control : ControlProtocol)
    (cs : List Candidate)
    → candidate_workers ws requested control ≡ some cs
    → AllEligible control requested ws cs
unfolding candidate_workers
candidate_workers-AllEligible ws requested control cs h =
    go (collect control requested ws) refl (collect-AllEligible control requested ws ws (λ w m. m))
  where
    go :
        (ds : List Candidate)
        → collect control requested ws ≡ ds
        → AllEligible control requested ws ds
        → AllEligible control requested ws cs
    go [] e a = absurd (ground arith)
    go (d ∷ ds) e a =
        let same : sort key_le (d ∷ ds) ≡ cs = ground arith in
        subst (AllEligible control requested ws) same
          (sort-AllEligible control requested ws (d ∷ ds) a)
