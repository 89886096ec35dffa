-- ===== src/Worker/Interruption/Newest.antt =====
-- On which transcript the coordinator interrupts for, and which wait.
use realtime_voice_agent.Common.{
  ℕ, ◌≡◌, ◌≤◌, refl, Bool, true, false, not, ◌&&◌, List, [], ◌∷◌, none, some, arith, inl, inr,
  Option-cases, is_some, all,
}
use realtime_voice_agent.Worker.Interruption.{
  InterruptionContext, InterruptionResult, Coordinator, Task, no_task, at_head, ended, evaluating,
  interrupting, submit, loop_head, evaluated, turn, close, fail, wait_idle, is_over,
}

pub data Call : Type 0 where
  submits : InterruptionContext → Call
  turns : InterruptionResult → Call
  fails waits closes : Call

unfoldable pub step : Call → Coordinator → Coordinator
step (submits context) c = submit context c
step (turns r) c = turn r c
step fails c = fail c
step waits c = wait_idle c
step closes c = close c

unfoldable pub run : List Call → Coordinator → Coordinator
run [] c = c
run (x ∷ xs) c = run xs (step x c)

-- The transcript that waits is the newest; one that is evaluated is the newest or a newer one waits.
pub record IsCurrent (c : Coordinator) : Type 0 where
  pub waiting : (r : ℕ) (x : InterruptionContext) → c.latest ≡ some (r, x) → r ≡ c.revision
  pub in_policy :
      (r : ℕ) (x : InterruptionContext) → c.task ≡ evaluating r x → c.latest ≡ none → r ≡ c.revision
  pub below : (r : ℕ) (x : InterruptionContext) → c.task ≡ evaluating r x → r ≤ c.revision

abbrev is_fail : Call → Bool
is_fail (submits x) = false
is_fail (turns r) = false
is_fail fails = true
is_fail waits = false
is_fail closes = false

-- Whether a transcript waits and no task will take it.
abbrev pub is_stranded : Coordinator → Bool
is_stranded c = is_some c.latest && is_over c.task

loop_head_served : (c : Coordinator) → is_stranded (loop_head c) ≡ false
unfolding loop_head is_over
loop_head_served c = elim (Option-cases c.latest) [
  | inl e ↦ ground (arith, e)
  | inr (p, e) ↦ ground (arith, e)
]

turn_served :
    (r : InterruptionResult) (c : Coordinator) (t : Task)
    → c.task ≡ t
    → is_stranded c ≡ false
    → is_stranded (turn r c) ≡ false
unfolding turn evaluated is_over
turn_served r c no_task e h = rw (e, turn) h
turn_served r c ended e h = rw (e, turn) h
turn_served r c at_head e h = rw (e, turn) (loop_head_served c)
turn_served r c (evaluating j y) e h = ground (arith, e, loop_head_served c)
turn_served r c (interrupting j y) e h = rw (e, turn) (loop_head_served c)

step_served :
    (y : Call) (c : Coordinator)
    → is_fail y ≡ false
    → is_stranded c ≡ false
    → is_stranded (step y c) ≡ false
unfolding step
step_served (submits x) c f h = unfold submit is_over in ground (arith, h)
step_served (turns r) c f h = turn_served r c c.task refl h
step_served fails c f h = absurd (cc)
step_served waits c f h = unfold wait_idle is_over in ground (arith, h)
step_served closes c f h = unfold close in refl

-- As long as neither the policy nor the sink raises, no transcript that a coordinator holds is left
-- without a task that will take it, whatever calls come.
pub waiting_is_served :
    (xs : List Call) (c : Coordinator)
    → all (λ y. not (is_fail y)) xs ≡ true
    → is_stranded c ≡ false
    → is_stranded (run xs c) ≡ false
unfolding run
waiting_is_served [] c f h = h
waiting_is_served (y ∷ xs) c f h =
    waiting_is_served xs (step y c) (ground arith) (step_served y c (ground arith) h)
