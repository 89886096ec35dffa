-- ===== src/Worker/Binding/Cancels/Repeats.antt =====
-- A cancel request that comes again.
use realtime_voice_agent.Common.{
  ℕ, ◌≡◌, ◌⊎◌, refl, sym, ap, ◌∙◌, subst, not, none, some, [], ◌∷◌, ◌++◌, nat_key, text_key,
  pair_key, eq_iff, eq_refl, arith, Text, Result, ok, err, Bool-cases, Option-cases, inl, inr, ◌==◌,
}
use realtime_voice_agent.Common.Dict.{get, put}
use realtime_voice_agent.Common.Json.{Json, Fields}
use realtime_voice_agent.Worker.Response.{ResponseRecord, Coordinator, fence}
use realtime_voice_agent.Worker.Protocol.{BindingError}
use realtime_voice_agent.Worker.Binding.{Binding, ensure_open}
use realtime_voice_agent.Worker.Binding.Responses.{
  StopCause, ControlEffect, cancel_record, cancel_active_response, cause_outcome, cause_error,
  no_effect, explicit_user_request,
}
use realtime_voice_agent.Worker.Binding.Control.{
  remember_cancel_request, cancel, cancel_parsed, parse_cancel, plays, CancelRequest, remember_ok,
  require_context,
}
use realtime_voice_agent.Worker.Binding.Cancels.{
  IsRemembered, remember_cancel_request-IsRemembered, get-remember_cancel_request,
  trim_requests-names,
}

pub Result-cases :
    {E A : Type 0} (r : Result E A) → ((e : E) × (r ≡ err e)) ⊎ ((a : A) × (r ≡ ok a))
Result-cases (ok a) = inr (a, refl)
Result-cases (err e) = inl (e, refl)

remember_ok_ok :
    (k : Text) (target : Text × ℕ) (r : Binding × Result BindingError ControlEffect)
    (effect : ControlEffect)
    → r.1 ≡ ok effect
    → (remember_ok k target r).0 ≡ remember_cancel_request k target r.0
remember_ok_ok k target (b, ok x) effect h = refl
remember_ok_ok k target (b, err e) effect h = absurd (ground arith)

remember_ok_err :
    (k : Text) (target : Text × ℕ) (r : Binding × Result BindingError ControlEffect)
    (e : BindingError)
    → r.1 ≡ err e
    → (remember_ok k target r).1 ≡ err e
remember_ok_err k target (b, ok x) e h = absurd (ground arith)
remember_ok_err k target (b, err x) e h = h

module _ (encoded_bytes : Json → ℕ) where
  -- A cancellation changes nothing of the binding but the coordinator.
  cancel_record-responses :
      (i : ℕ) (r : ResponseRecord) (cause : StopCause) (b : Binding)
      → (cancel_record encoded_bytes i r cause b).0 ≡ record b {
        responses = (fence i r (cause_outcome cause) (cause_error cause) b.responses).0;
      }
  unfolding cancel_record
  cancel_record-responses i r cause b =
      elim (Result-cases (fence i r (cause_outcome cause) (cause_error cause) b.responses).1) [
        | inl (e, f) ↦ rw (f, cancel_record) refl
        | inr (n, f) ↦ rw (f, cancel_record) refl
      ]

  pub cancel_active_response-responses :
      (cause : StopCause) (b : Binding)
      → (c : Coordinator) × ((cancel_active_response encoded_bytes cause b).0
          ≡ record b { responses = c })
  unfolding cancel_active_response
  cancel_active_response-responses cause b = elim (Option-cases (ensure_open b)) [
    | inr (e, f) ↦ (b.responses, ground arith)
    | inl f ↦ elim (Option-cases b.responses.playback) [
      | inl g ↦ (b.responses, ground arith)
      | inr (i, g) ↦ elim (Option-cases (get i b.responses.objects)) [
        | inl h ↦ (b.responses, ground arith)
        | inr (r, h) ↦ (
          (fence i r (cause_outcome cause) (cause_error cause) b.responses).0,
          ground (arith, cancel_record-responses i r cause b),
        )
      ]
    ]
  ]

  -- What the requests are read with is the same in both bindings.
  parse_cancel-same :
      (m : Fields) (b c : Binding)
      → c.session_id ≡ b.session_id
      → c.session_epoch ≡ b.session_epoch
      → parse_cancel m c ≡ parse_cancel m b
  unfolding parse_cancel require_context
  parse_cancel-same m b c e f = rw (e, f) refl

  -- A request that is remembered is answered with nothing, and changes nothing.
  cancel_parsed-remembered :
      (k : Text) (target : Text × ℕ) (b : Binding)
      → get k b.cancel_requests ≡ some target
      → cancel_parsed encoded_bytes (k, target) b ≡ (b, ok no_effect)
  unfolding cancel_parsed
  cancel_parsed-remembered k target b h = rw (h, cancel_parsed, eq_refl target) refl

  -- A request that goes through stands or stood in the memory, and else only the coordinator has changed.
  pub data CancelOutcome (k : Text) (target : Text × ℕ) (b : Binding) : Binding → Type 0 where
    repeated : get k b.cancel_requests ≡ some target → CancelOutcome k target b b
    remembered :
        (c : Coordinator)
        → get k b.cancel_requests ≡ none
        → CancelOutcome k target b (remember_cancel_request k target (record b { responses = c }))

  cancel_parsed-CancelOutcome :
      (k : Text) (target : Text × ℕ) (b : Binding) (effect : ControlEffect)
      → (cancel_parsed encoded_bytes (k, target) b).1 ≡ ok effect
      → CancelOutcome k target b (cancel_parsed encoded_bytes (k, target) b).0
  unfolding cancel_parsed
  cancel_parsed-CancelOutcome k target b effect h = elim (Option-cases (get k b.cancel_requests)) [
    | inr (previous, e) ↦ elim (Bool-cases (previous == target)) [
      | inr f ↦ absurd (ground arith)
      | inl f ↦ rw (e, cancel_parsed, f) (repeated (e ∙ ap some ((eq_iff previous target).0 f)))
    ]
    | inl e ↦ elim (Bool-cases (not (plays target b))) [
      | inl f ↦ absurd (ground arith)
      | inr f ↦
          elim (Result-cases (cancel_active_response encoded_bytes explicit_user_request b).1) [
            | inl (x, g) ↦ absurd (
                ground (
                  arith,
                  remember_ok_err k target
                      (cancel_active_response encoded_bytes explicit_user_request b) x g,
                ))
            | inr (x, g) ↦
                let (c, same) = cancel_active_response-responses explicit_user_request b in
                let ended =
                  remember_ok_ok k target
                    (cancel_active_response encoded_bytes explicit_user_request b) x g in
                rw (e, cancel_parsed, f, ended, same) (remembered c e)
          ]
    ]
  ]

  pub CancelOutcome-IsRemembered :
      (k : Text) (target : Text × ℕ) (b c : Binding)
      → IsRemembered b
      → CancelOutcome k target b c
      → IsRemembered c
  CancelOutcome-IsRemembered k target b c v (repeated h) = v
  CancelOutcome-IsRemembered k target b _ v (remembered c h) =
      remember_cancel_request-IsRemembered k target (record b { responses = c })
        (record { bounded = v.bounded; unique = v.unique; known = v.known }) h

  CancelOutcome-again :
      (k : Text) (target : Text × ℕ) (b c : Binding)
      → IsRemembered b
      → CancelOutcome k target b c
      → (get k c.cancel_requests ≡ some target)
        × (c.session_id ≡ b.session_id)
        × (c.session_epoch ≡ b.session_epoch)
  unfolding remember_cancel_request
  CancelOutcome-again k target b c v (repeated h) = (h, refl, refl)
  CancelOutcome-again k target b _ v (remembered c h) =
      let (same_id, same_epoch) =
        trim_requests-names (b.cancel_request_order ++ k ∷ [])
          (record b { responses = c; cancel_requests = put k target b.cancel_requests }) in
      (
        get-remember_cancel_request k target (record b { responses = c })
            (record { bounded = v.bounded; unique = v.unique; known = v.known }) h,
        same_id,
        same_epoch,
      )

  cancel_reads :
      (m : Fields) (b : Binding) (request : CancelRequest)
      → parse_cancel m b ≡ ok request
      → cancel encoded_bytes m b ≡ cancel_parsed encoded_bytes request b
  unfolding cancel
  cancel_reads m b request h = rw (h, cancel) refl

  -- What a request that goes through reads as, and where it leaves the binding.
  pub cancel_cases :
      (m : Fields) (b : Binding) (effect : ControlEffect)
      → (cancel encoded_bytes m b).1 ≡ ok effect
      → (k : Text) × (target : Text × ℕ) × (parse_cancel m b ≡ ok (k, target))
        × CancelOutcome k target b (cancel encoded_bytes m b).0
  unfolding cancel
  cancel_cases m b effect h = elim (Result-cases (parse_cancel m b)) [
    | inl (e, f) ↦ absurd (ground arith)
    | inr ((k, target), f) ↦
        let reads = cancel_reads m b (k, target) f in
        (
          k,
          target,
          f,
          subst (λ (r : Binding × Result BindingError ControlEffect). CancelOutcome k target b r.0)
              (sym reads)
              (cancel_parsed-CancelOutcome k target b effect
                (ap (λ (r : Binding × Result BindingError ControlEffect). r.1) (sym reads) ∙ h)),
        )
  ]

  -- A cancel request that was accepted may come again: it is accepted, changes nothing and sends nothing.
  pub cancel_again :
      (m : Fields) (b : Binding) (effect : ControlEffect)
      → IsRemembered b
      → (cancel encoded_bytes m b).1 ≡ ok effect
      → let c = (cancel encoded_bytes m b).0 in cancel encoded_bytes m c ≡ (c, ok no_effect)
  cancel_again m b effect v h =
      let c = (cancel encoded_bytes m b).0 in
      let (k, target, f, outcome) = cancel_cases m b effect h in
      let (kept, same_id, same_epoch) = CancelOutcome-again k target b c v outcome in
      cancel_reads m c (k, target) (parse_cancel-same m b c same_id same_epoch ∙ f)
      ∙ cancel_parsed-remembered k target c kept
