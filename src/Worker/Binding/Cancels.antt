-- ===== src/Worker/Binding/Cancels.antt =====
-- The cancel requests that a binding remembers.
pub mod Repeats
pub mod Calls
use realtime_voice_agent.Common.{
  ℕ, ◌+◌, ◌≤◌, ◌≡◌, ◌⊎◌, refl, sym, ap, ◌∙◌, subst, Bool, true, false, not, ◌&&◌, ◌||◌, Option,
  none, some, List, [], ◌∷◌, ◌++◌, length, ltb, nat_eq, nat_key, text_key, pair_key, eq_iff,
  eq_refl, contains, is_unique, arith, Text, codes, Result, ok, err, Bool-cases, Option-cases, inl,
  inr, if◌then◌else◌, ◌==◌, is_some,
}
use realtime_voice_agent.Common.Dict.{Dict, get, put, remove, get-put, get-remove}
use realtime_voice_agent.Common.Json.{Json, Fields}
use realtime_voice_agent.Worker.Response.{ResponseRecord, Coordinator, fence}
use realtime_voice_agent.Worker.Protocol.{BindingError}
use realtime_voice_agent.Worker.Binding.{Binding, ensure_open}
use realtime_voice_agent.Worker.Binding.Responses.{
  StopCause, ControlEffect, cancel_record, cancel_active_response, cause_outcome, cause_error,
  no_effect, explicit_user_request,
}
use realtime_voice_agent.Worker.Binding.Control.{
  trim_requests, remember_cancel_request, cancel, cancel_parsed, parse_cancel, plays, CancelRequest,
  remember_ok, require_context,
}

-- At most 64 requests are remembered, each once, and those that are in the order have an entry.
pub record IsRemembered (b : Binding) : Type 0 where
  pub bounded : length b.cancel_request_order ≤ 64
  pub unique : is_unique b.cancel_request_order ≡ true
  pub known :
      (id : Text)
      → contains b.cancel_request_order id ≡ true
      → is_some (get id b.cancel_requests) ≡ true

trim_requests-IsRemembered :
    (ids : List Text) (b : Binding)
    → is_unique ids ≡ true
    → ((id : Text) → contains ids id ≡ true → is_some (get id b.cancel_requests) ≡ true)
    → IsRemembered (trim_requests ids b)
unfolding trim_requests
trim_requests-IsRemembered [] b u k = record { bounded = omega arith; unique = refl; known = k }
trim_requests-IsRemembered (r ∷ ids) b u k = elim (Bool-cases (ltb 64 (length (r ∷ ids)))) [
  | inr f ↦ rw f (record { bounded = ground arith; unique = u; known = k })
  | inl f ↦
      let dropped = record b { cancel_requests = remove r b.cancel_requests } in
      rw f (
        trim_requests-IsRemembered ids dropped (ground arith)
          (λ id h. ground (arith, k id, get-remove r id b.cancel_requests, eq_iff r id)))
]

-- A request that comes last stays when older ones are dropped.
get-trim_requests :
    (ids : List Text) (k : Text) (b : Binding)
    → contains ids k ≡ false
    → get k (trim_requests (ids ++ k ∷ []) b).cancel_requests ≡ get k b.cancel_requests
unfolding trim_requests
get-trim_requests [] k b h = refl
get-trim_requests (r ∷ ids) k b h = elim (Bool-cases (ltb 64 (length (r ∷ (ids ++ k ∷ []))))) [
  | inr f ↦ rw f refl
  | inl f ↦
      let dropped = record b { cancel_requests = remove r b.cancel_requests } in
      rw f (
        get-trim_requests ids k dropped (ground arith)
        ∙ ground (arith, get-remove r k b.cancel_requests))
]

contains-append :
    (ids : List Text) (k id : Text)
    → contains (ids ++ k ∷ []) id ≡ true
    → (contains ids id || (k == id)) ≡ true
contains-append [] k id h = ground arith
contains-append (r ∷ ids) k id h = ground (arith, contains-append ids k id)

is_unique-append :
    (ids : List Text) (k : Text)
    → is_unique ids ≡ true
    → contains ids k ≡ false
    → is_unique (ids ++ k ∷ []) ≡ true
is_unique-append [] k u h = refl
is_unique-append (r ∷ ids) k u h =
    ground (arith, is_unique-append ids k, contains-append ids k r, eq_iff k r, eq_iff r k)

pub remember_cancel_request-IsRemembered :
    (k : Text) (target : Text × ℕ) (b : Binding)
    → IsRemembered b
    → get k b.cancel_requests ≡ none
    → IsRemembered (remember_cancel_request k target b)
unfolding remember_cancel_request
remember_cancel_request-IsRemembered k target b v n =
    let fresh : contains b.cancel_request_order k ≡ false = ground (arith, v.known k) in
    trim_requests-IsRemembered _ _ (is_unique-append b.cancel_request_order k v.unique fresh)
      (λ id h. ground (
        arith,
        get-put k id target b.cancel_requests,
        contains-append b.cancel_request_order k id h,
        v.known id,
        eq_iff k id,
      ))

-- What a request is looked up as, once it is remembered.
pub get-remember_cancel_request :
    (k : Text) (target : Text × ℕ) (b : Binding)
    → IsRemembered b
    → get k b.cancel_requests ≡ none
    → get k (remember_cancel_request k target b).cancel_requests ≡ some target
unfolding remember_cancel_request
get-remember_cancel_request k target b v n =
    let fresh : contains b.cancel_request_order k ≡ false = ground (arith, v.known k) in
    get-trim_requests b.cancel_request_order k _ fresh
    ∙ ground (arith, get-put k k target b.cancel_requests, eq_iff k k)

pub trim_requests-names :
    (ids : List Text) (b : Binding)
    → ((trim_requests ids b).session_id ≡ b.session_id)
      × ((trim_requests ids b).session_epoch ≡ b.session_epoch)
unfolding trim_requests
trim_requests-names [] b = (refl, refl)
trim_requests-names (r ∷ ids) b = elim (Bool-cases (ltb 64 (length (r ∷ ids)))) [
  | inr f ↦ rw f (refl, refl)
  | inl f ↦
      let dropped = record b { cancel_requests = remove r b.cancel_requests } in
      rw f (trim_requests-names ids dropped)
]
