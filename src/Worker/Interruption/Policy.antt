-- ===== src/Worker/Interruption/Policy.antt =====
-- On the decision of the policy.
use realtime_voice_agent.Common.{
  ℕ, ◌≡◌, refl, Bool, true, false, not, ◌&&◌, ◌↔◌, all, List, [], ◌∷◌, contains, Text, text_key,
  text_eq, eq_iff, arith, is_empty, inl, inr, Bool-cases,
}
use realtime_voice_agent.Worker.Interruption.{
  InterruptionContext, evaluate, should_interrupt, normalize_transcript, backchannels,
  interrupt_commands,
}

-- Of lists that share no element, an element of one is not in the other.
contains-disjoint :
    (xs ys : List Text) (a : Text)
    → all (λ x. not (contains ys x)) xs ≡ true
    → contains xs a ≡ true
    → contains ys a ≡ false
contains-disjoint [] ys a d h = absurd (cc)
contains-disjoint (x ∷ xs) ys a d h = ground (arith, eq_iff x a, contains-disjoint xs ys a)

command_not_backchannel :
    (a : Text) → contains interrupt_commands a ≡ true → contains backchannels a ≡ false
unfolding text_eq
command_not_backchannel a h = contains-disjoint interrupt_commands backchannels a refl h

command_not_empty : (a : Text) → contains interrupt_commands a ≡ true → is_empty a ≡ false
unfolding text_eq
command_not_empty [] h = absurd (cc)
command_not_empty (x ∷ a) h = refl

-- The policy decides to interrupt exactly when it is enabled, the transcript is final, and what
-- normalizing leaves of it is one of the commands, whatever the assistant has said.
pub should_interrupt-evaluate_iff :
    (is_space : ℕ → Bool) (lower : Text → Text) (enabled : Bool) (context : InterruptionContext)
    → (should_interrupt (evaluate is_space lower enabled context) ≡ true) ↔ (
        (enabled
          && (context.is_final
              && contains interrupt_commands
                  (normalize_transcript is_space lower context.transcript)))
        ≡ true)
unfolding evaluate should_interrupt
should_interrupt-evaluate_iff is_space lower enabled context =
    let n = normalize_transcript is_space lower context.transcript in
    elim (Bool-cases (contains interrupt_commands n)) [
      | inl e ↦ ground (arith, e, command_not_backchannel n e, command_not_empty n e)
      | inr e ↦ ground (arith, e)
    ]
