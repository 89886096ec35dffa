-- ===== src/Worker/Tests.antt =====
-- Runs of the Worker's parts on small inputs, and each theorem at an input of its kind.
use realtime_voice_agent.Common.{
  Text, Bool, nat_eq, ◌↔◌, ◌&&◌, contains, ℕ, ◌≡◌, refl, true, false, some, none, [], ◌∷◌, List,
  codes, arith, ok, text_eq, text_key, nat_key,
}
use realtime_voice_agent.Common.Dict.{get, put}
use realtime_voice_agent.Worker.Admission
use realtime_voice_agent.Worker.Admission.{
  Principal, principal_key, Admission, reserve, active_count,
}
use realtime_voice_agent.Worker.Admission.Bound
use realtime_voice_agent.Worker.Admission.Bound.{
  IsAdmitted, reserves, releases, drains, admission_bounded, release-reserve,
}
use realtime_voice_agent.Worker.VoiceSession
use realtime_voice_agent.Worker.VoiceSession.{
  Session, PlaybackRef, begin_playback, accepts_callback, finish_playback, cancel_playback,
  close_state,
}
use realtime_voice_agent.Worker.VoiceSession.Fence
use realtime_voice_agent.Worker.VoiceSession.Fence.{
  IsOwned, ended_playback_is_stale, generations_increase, init-IsOwned, begins, cancels,
}
use realtime_voice_agent.Worker.Response.{
  Coordinator, ResponseRecord, ResponseOutcome, PlaybackOutcome, begin, begin_new, new_record,
  accepts, fence, write, note_media, complete, remember_terminal, trim_terminal, fenced_record,
}
use realtime_voice_agent.Worker.Response.Playback.{
  playback_ended, end_record, settle_end, needs_finish, check_end, is_expected, find_record,
  playback_started, start_record,
}
use realtime_voice_agent.Worker.Interruption
use realtime_voice_agent.Worker.Interruption.{
  InterruptionContext, InterruptionResult, interrupt, should_interrupt, evaluate,
  normalize_transcript, interrupt_commands, submit, turn, evaluated, loop_head, is_newer, is_over,
}
use realtime_voice_agent.Worker.Interruption.Policy.{should_interrupt-evaluate_iff}
use realtime_voice_agent.Worker.Interruption.Newest
use realtime_voice_agent.Worker.Interruption.Newest.{submits, turns, is_stranded, waiting_is_served}
use realtime_voice_agent.Worker.Response.Phases.{Phase, streaming}
use realtime_voice_agent.Worker.Response.Lifecycle
use realtime_voice_agent.Worker.Response.Lifecycle.{run-Phase}
use realtime_voice_agent.Worker.Response.Guarantees.{succeeds, refused_calls_change_nothing}
use realtime_voice_agent.Worker.Response.Progress.{fenced_response_is_silent, begin_after_end}

abbrev first : Principal
first = (codes "t", codes "d")

admission_bounded_example : IsAdmitted (
    Bound.run
      (reserves first (codes "a") ∷ reserves first (codes "b") ∷ releases (codes "a") ∷ [])
      (Admission.init 1))
admission_bounded_example =
    admission_bounded 1
      (reserves first (codes "a") ∷ reserves first (codes "b") ∷ releases (codes "a") ∷ [])

session_code : Unit {0}
unfolding VoiceSession.init begin_playback accepts_callback finish_playback cancel_playback
    close_state Fence.run Fence.step text_eq
session_code = tt

abbrev playback : ℕ → PlaybackRef
playback generation = record { connection_epoch = codes "c"; generation = generation }

abbrev first_session : Session
first_session = record {
  connection_epoch = codes "c";
  generation = 1;
  active_playback = some (playback 1);
  closed = false;
}

first_session-IsOwned : IsOwned first_session
first_session-IsOwned = record { current = λ p h. ground arith }

ended_playback_is_stale_example :
    accepts_callback
      (playback 1)
      (Fence.run (begins ∷ []) (Fence.step (cancels (playback 1)) first_session))
    ≡ false
ended_playback_is_stale_example =
    ended_playback_is_stale (playback 1) (cancels (playback 1)) (begins ∷ []) first_session
      first_session-IsOwned (unfold session_code in refl) refl

abbrev new_session : Session
new_session = record {
  connection_epoch = codes "c";
  generation = 0;
  active_playback = none;
  closed = false;
}

response_code : Unit {0}
unfolding session_code begin begin_new new_record accepts fence playback_ended end_record settle_end
    needs_finish write note_media complete check_end is_expected find_record playback_started
    start_record remember_terminal trim_terminal fenced_record Lifecycle.run Lifecycle.step succeeds
    get put
response_code = tt

-- A response that has sent media 5 to 7.
abbrev streamed : ResponseRecord
streamed = record {
  response_id = codes "r";
  target = playback 1;
  producer_epoch = 4;
  first_media_sequence = some 5;
  last_media_sequence = some 7;
  outcome = none;
  error_code = none;
  stop_sent = false;
  playback_started = false;
  playback_ended = false;
}

abbrev serving : Coordinator
serving = record {
  session = first_session;
  objects = (0, streamed) ∷ [];
  next_object = 1;
  active = some 0;
  playback = some 0;
  records = ((codes "r", 1), 0) ∷ [];
  terminal_order = [];
}

serving-Phase : Phase serving
unfolding get
serving-Phase = streaming 0 streamed refl refl refl refl refl refl refl

abbrev unused : Coordinator
unused = record {
  session = new_session;
  objects = [];
  next_object = 0;
  active = none;
  playback = none;
  records = [];
  terminal_order = [];
}

-- The calls that lead from a new coordinator to one that serves a response.
serving_reached :
    Lifecycle.run
      (Lifecycle.begins (codes "r") 4 ∷ Lifecycle.notes 0 5 ∷ Lifecycle.notes 0 7 ∷ [])
      unused
    ≡ serving
unfolding response_code
serving_reached = refl

abbrev full_life : List Lifecycle.Call
full_life =
    Lifecycle.completes 0
    ∷ Lifecycle.starts (codes "r") 1 5
    ∷ Lifecycle.ends (codes "r") 1 PlaybackOutcome.completed 2880 (some 7)
    ∷ []

run-Phase_example :
    ((Lifecycle.run full_life serving).session.closed ≡ false)
    × Phase (Lifecycle.run full_life serving)
run-Phase_example = run-Phase full_life serving refl serving-Phase

full_life_ends : (Lifecycle.run full_life serving).playback ≡ none
unfolding response_code
full_life_ends = refl

refused_calls_change_nothing_example :
    Lifecycle.step (Lifecycle.begins (codes "r2") 5) serving ≡ serving
refused_calls_change_nothing_example =
    refused_calls_change_nothing (Lifecycle.begins (codes "r2") 5) serving refl serving-Phase
      (unfold response_code in refl)

fenced_response_is_silent_example :
    accepts 0 streamed (
      Lifecycle.run
        (Lifecycle.notes 0 8 ∷ [])
        (fence 0 streamed ResponseOutcome.cancelled none serving).0)
    ≡ false
fenced_response_is_silent_example =
    fenced_response_is_silent 0 streamed ResponseOutcome.cancelled none serving
      (fence 0 streamed ResponseOutcome.cancelled none serving).0 2 (Lifecycle.notes 0 8 ∷ [])
      first_session-IsOwned (unfold response_code in refl)

abbrev stopped_life : Coordinator
stopped_life = Lifecycle.step (Lifecycle.fences 0 ResponseOutcome.cancelled none) serving

stopped_life-Phase : (stopped_life.session.closed ≡ false) × Phase stopped_life
stopped_life-Phase =
    unfold Lifecycle.run in
    run-Phase (Lifecycle.fences 0 ResponseOutcome.cancelled none ∷ []) serving refl serving-Phase

begin_after_end_example :
    let c' = (playback_ended (codes "r") 1 PlaybackOutcome.stopped 0 none stopped_life).0 in
    (begin (codes "r2") 6 c').1 ≡ ok (c'.next_object, true)
begin_after_end_example =
    begin_after_end (codes "r") 1 PlaybackOutcome.stopped 0 none stopped_life (codes "r2") 6
      stopped_life-Phase.0 stopped_life-Phase.1 (unfold response_code in refl)

abbrev is_blank : ℕ → Bool
is_blank c = nat_eq c 32

abbrev as_is : Text → Text
as_is text = text

abbrev said : Text → InterruptionContext
said transcript = record {
  transcript = transcript;
  is_final = true;
  assistant_text = codes "你好";
  response_id = codes "r";
  generation = 1;
}

should_interrupt-evaluate_iff_example :
    (should_interrupt (evaluate is_blank as_is true (said (codes " 停一下。"))) ≡ true) ↔ (
      (true
        && (true
            && contains interrupt_commands (normalize_transcript is_blank as_is (codes " 停一下。"))))
      ≡ true)
should_interrupt-evaluate_iff_example =
    should_interrupt-evaluate_iff is_blank as_is true (said (codes " 停一下。"))

command_is_heard : should_interrupt (evaluate is_blank as_is true (said (codes " 停一下。"))) ≡ true
unfolding should_interrupt evaluate normalize_transcript text_eq
command_is_heard = refl

abbrev yes : InterruptionResult
yes = record {
  decision = interrupt;
  reason = codes "explicit_interrupt_phrase";
  confidence_percent = 100;
}

abbrev talk : List Newest.Call
talk = submits (said (codes "停")) ∷ turns yes ∷ submits (said (codes "取消")) ∷ turns yes ∷ []

interruption_code : Unit {0}
unfolding Interruption.init submit turn evaluated loop_head is_newer is_over should_interrupt
    Newest.run Newest.step
interruption_code = tt

waiting_is_served_example : is_stranded (Newest.run talk Interruption.init) ≡ false
waiting_is_served_example =
    waiting_is_served talk Interruption.init refl (unfold interruption_code in refl)
