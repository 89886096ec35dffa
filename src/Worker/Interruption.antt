-- ===== src/Worker/Interruption.antt =====
-- realtime_worker/interruption.py: the policy that reads a transcript, and the coordinator that runs
-- one evaluation at a time. A transcript is a list of code points. Python's tables of white space and
-- of lower case are parameters.
pub mod Policy
pub mod Newest
use realtime_voice_agent.Common.{
  ℕ, suc, ◌+◌, ◌*◌, Bool, true, false, not, ◌&&◌, ◌||◌, if◌then◌else◌, ltb, leb, min, max, List, [],
  ◌∷◌, ◌++◌, length, filter, is_empty, contains, Text, text_key, nat_key, codes, Option, none, some,
}

pub data InterruptionDecision : Type 0 where
  interrupt backchannel echo_or_noise ignore defer : InterruptionDecision

pub record InterruptionContext : Type 0 where
  pub transcript : Text
  pub is_final : Bool
  pub assistant_text : Text
  pub response_id : Text
  pub generation : ℕ

pub record InterruptionResult : Type 0 where
  pub decision : InterruptionDecision
  pub reason : Text
  pub confidence_percent : ℕ

unfoldable pub should_interrupt : InterruptionResult → Bool
should_interrupt r = elim r.decision [
  | interrupt ↦ true
  | backchannel ↦ false
  | echo_or_noise ↦ false
  | ignore ↦ false
  | defer ↦ false
]

-- The characters of `_PUNCTUATION`, but for `\s`.
abbrev pub punctuation : Text
punctuation = codes "，。！？、,.!?；;：:（）()【】[]\"'“”‘’"

abbrev pub backchannels : List Text
backchannels =
    codes "嗯"
    ∷ codes "嗯嗯"
    ∷ codes "哦"
    ∷ codes "噢"
    ∷ codes "啊"
    ∷ codes "好"
    ∷ codes "好的"
    ∷ codes "对"
    ∷ codes "是"
    ∷ codes "可以"
    ∷ codes "行"
    ∷ codes "知道了"
    ∷ codes "继续"
    ∷ []

abbrev pub interrupt_commands : List Text
interrupt_commands =
    codes "停"
    ∷ codes "停止"
    ∷ codes "停一下"
    ∷ codes "暂停"
    ∷ codes "等一下"
    ∷ codes "等等"
    ∷ codes "先停一下"
    ∷ codes "请停止"
    ∷ codes "请停一下"
    ∷ codes "别说了"
    ∷ codes "先别说了"
    ∷ codes "不要说了"
    ∷ codes "取消"
    ∷ codes "取消回答"
    ∷ codes "打断一下"
    ∷ codes "不对"
    ∷ codes "不是"
    ∷ codes "我问的是"
    ∷ codes "换一个"
    ∷ codes "滚开"
    ∷ codes "别吵"
    ∷ codes "不要吵"
    ∷ codes "重新说"
    ∷ codes "重来"
    ∷ []

-- `set(text)`
unfoldable pub distinct : Text → Text
distinct [] = []
distinct (x ∷ xs) = let rest = distinct xs in if contains rest x then rest else x ∷ rest

-- `lower` is `str.lower`; `\s+` and `strip()` both go by white space, and nothing of it is left for
-- `strip()` to remove.
module _ (is_space : ℕ → Bool) (lower : Text → Text) where
  unfoldable pub normalize_transcript : Text → Text
  normalize_transcript text = lower (filter (λ c. not (is_space c || contains punctuation c)) text)

  -- `text_similarity(left, right) >= 0.8`: the ratio of two counts, whose divisor is positive
  unfoldable pub is_similar : Text → Text → Bool
  is_similar left right =
      let l = distinct (normalize_transcript left) in
      let r = distinct (normalize_transcript right) in
      if is_empty l || is_empty r
      then false
      else leb (4 * max 1 (min (length l) (length r))) (5 * length (filter (λ c. contains r c) l))

  abbrev result : InterruptionDecision → Text → ℕ → InterruptionResult
  result decision reason confidence = record {
    decision = decision;
    reason = reason;
    confidence_percent = confidence;
  }

  unfoldable pub evaluate : Bool → InterruptionContext → InterruptionResult
  evaluate enabled context =
      if not enabled
      then result ignore (codes "policy_disabled") 100
      else let normalized = normalize_transcript context.transcript in
        if is_empty normalized
        then result ignore (codes "empty_transcript") 100
        else if contains backchannels normalized
        then result backchannel (codes "backchannel_phrase") 95
        else if contains interrupt_commands normalized
        then (if not context.is_final
            then result defer (codes "await_final_command") 90
            else result interrupt (codes "explicit_interrupt_phrase") 100)
        else if not context.is_final
        then result defer (codes "await_final") 50
        else if not (is_empty context.assistant_text)
            && is_similar normalized context.assistant_text
        then result echo_or_noise (codes "similar_to_assistant_text") 80
        else result ignore (codes "no_command_match") 100

-- What `_task` is: none, a task whose loop is at its head, one that awaits the policy, one that awaits
-- the sink, or one that has ended.
pub data Task : Type 0 where
  no_task at_head ended : Task
  evaluating : ℕ → InterruptionContext → Task
  interrupting : ℕ → InterruptionContext → Task

pub record Coordinator : Type 0 where
  pub revision : ℕ
  pub latest : Option (ℕ × InterruptionContext)
  pub task : Task
  pub closed : Bool

unfoldable pub init : Coordinator
init = record { revision = 0; latest = none; task = no_task; closed = false }

-- `self._task is None or self._task.done()`
unfoldable pub is_over : Task → Bool
is_over no_task = true
is_over ended = true
is_over at_head = false
is_over (evaluating r x) = false
is_over (interrupting r x) = false

unfoldable pub submit : InterruptionContext → Coordinator → Coordinator
submit context c = if c.closed then c else record c {
  revision = suc c.revision;
  latest = some (suc c.revision, context);
  task = if is_over c.task then at_head else c.task;
}

-- `while self._latest is not None`, up to the call of the policy.
unfoldable pub loop_head : Coordinator → Coordinator
loop_head c = elim c.latest [
  | none ↦ record c { task = ended }
  | some (revision, context) ↦ record c { latest = none; task = evaluating revision context }
]

unfoldable pub is_newer : Option (ℕ × InterruptionContext) → ℕ → Bool
is_newer none revision = false
is_newer (some p) revision = ltb revision p.0

-- The policy has returned: what follows up to the next suspension.
unfoldable pub evaluated : InterruptionResult → ℕ → InterruptionContext → Coordinator → Coordinator
unfolding loop_head
evaluated r revision context c =
    if is_newer c.latest revision
    then loop_head c
    else if should_interrupt r
    then record c { task = interrupting revision context }
    else loop_head c

-- One turn of the task, with what the policy returns if it is the policy that it awaited.
unfoldable pub turn : InterruptionResult → Coordinator → Coordinator
unfolding loop_head evaluated
turn r c = elim c.task [
  | no_task ↦ c
  | ended ↦ c
  | at_head ↦ loop_head c
  | evaluating revision context ↦ evaluated r revision context c
  | interrupting revision context ↦ loop_head c
]

-- The task is cancelled and awaited.
unfoldable pub close : Coordinator → Coordinator
close c = record c { closed = true; latest = none; task = no_task }

-- The policy or the sink has raised: the task is done.
unfoldable pub fail : Coordinator → Coordinator
fail c = elim c.task [
  | no_task ↦ c
  | at_head ↦ c
  | ended ↦ c
  | evaluating revision context ↦ record c { task = ended }
  | interrupting revision context ↦ record c { task = ended }
]

-- `wait_idle` drops a task that is done.
unfoldable pub wait_idle : Coordinator → Coordinator
wait_idle c = if is_over c.task then record c { task = no_task } else c
