-- ===== src/Client/Tests.antt =====
-- Runs of the client's parts, and each theorem at an input of its kind.
use realtime_voice_agent.Common.{
  List, ℕ, ◌*◌, ◌≡◌, ◌<◌, refl, true, false, some, none, [], ◌∷◌, codes, arith, ok, text_eq,
  text_key, nat_key,
}
use realtime_voice_agent.Common.Dict.{get, put, remove}
use realtime_voice_agent.Media.Frame.{Header}
use realtime_voice_agent.Client.SessionState.{
  PlaybackTarget, Playback, SessionOpened, State, init, new_playback, find_playback, find_tombstone,
  require_known, require_current, write_playback, write_tombstone,
}
use realtime_voice_agent.Client.SessionState.Control.{
  Message, Body, SessionEvent, response_begin, playback_stop, accept_control, accept_body,
  accept_begin, accept_stop, apply_stop,
}
use realtime_voice_agent.Client.SessionState.MediaGate.{
  accept_media, validate_media_admission, admit_playback, out_of_sequence, record_frame, note_frame,
  invalid_timestamp, timestamp_delta,
}
use realtime_voice_agent.Client.SessionState.Playout.{
  playback_started, playback_ended, check_started, check_ended, check_last, lacks_completion,
  retire, close_message,
}
use realtime_voice_agent.Client.SessionState.Progress.{controls, receives, starts, step, run}
use realtime_voice_agent.Client.SessionState.Guarantees.{media_sequences_increase}
use realtime_voice_agent.Client.PcmFramer.{PcmFramer, push}
use realtime_voice_agent.Client.PcmFramer.Frames.{AreFrames, push-AreFrames}
use realtime_voice_agent.Client.AudioQueue.Order
use realtime_voice_agent.Client.AudioQueue.Order.{
  History, puts, gets, dones, IsBounded, IsFifo, run-IsBounded, run-IsFifo,
}
use realtime_voice_agent.Worker.Response.{ResponseRecord, ResponseOutcome}
use realtime_voice_agent.Worker.Response

client_code : Unit {0}
unfolding get put remove text_eq init new_playback find_playback find_tombstone require_known
    require_current write_playback write_tombstone accept_control accept_body accept_begin
    accept_stop apply_stop accept_media validate_media_admission admit_playback out_of_sequence
    record_frame note_frame invalid_timestamp timestamp_delta playback_started playback_ended
    check_started check_ended check_last lacks_completion retire close_message step run
client_code = tt

abbrev opened : SessionOpened
opened = record {
  session_id = codes "s";
  session_epoch = codes "e";
  over_wss = true;
  media_id = codes "mediaid8";
  media_epoch = 1;
}

abbrev message : Body → Message
message body = record { session_id = codes "s"; session_epoch = codes "e"; body = body }

abbrev first_target : PlaybackTarget
first_target = record { response_id = codes "r"; generation = 1 }

abbrev frame_at : ℕ → Header
frame_at n = record {
  flags = 1;
  media_id = codes "mediaid8";
  media_epoch = 1;
  sequence = n;
  timestamp = 960 * n;
  generation = 1;
  payload_length = 40;
}

abbrev begun : State
begun = step (controls (message (response_begin first_target))) (init opened)

abbrev heard : State
heard = step (receives (frame_at 0)) begun

frame_is_heard : (accept_media (frame_at 0) begun).1 ≡ ok (some 1)
unfolding client_code
frame_is_heard = refl

abbrev stop : Body
stop = playback_stop first_target 2 (codes "user")

abbrev stop_event : SessionEvent
stop_event = record { message = stop; target = some first_target }

media_sequences_increase_example : 0 < 1
media_sequences_increase_example =
    media_sequences_increase (frame_at 0) (frame_at 1) (starts first_target 0 ∷ []) begun
      (unfold client_code in refl) (unfold client_code in refl)

abbrev played : Playback
played = record {
  target = first_target;
  started = true;
  ended = false;
  stopped = false;
  final_media_sequence = some 7;
  response_terminal = true;
  stop_fence = none;
  stop_cause = none;
  first_media_sequence = some 5;
  last_media_sequence = some 7;
}

abbrev sent : ResponseOutcome → ResponseRecord
sent outcome = record {
  response_id = codes "r";
  target = record { connection_epoch = codes "c"; generation = 1 };
  producer_epoch = 4;
  first_media_sequence = some 5;
  last_media_sequence = some 7;
  outcome = some outcome;
  error_code = none;
  stop_sent = false;
  playback_started = true;
  playback_ended = false;
}

abbrev small_queue : History ℕ
small_queue = record {
  queue = record { capacity = 2; items = 8 ∷ []; closed = false; added = 1; removed = 0 };
  taken = 8 ∷ [];
  given = [];
}

abbrev queue_calls : List (Order.Call ℕ)
queue_calls = puts 9 ∷ puts 10 ∷ gets ∷ dones ∷ Order.closes false ∷ gets ∷ gets ∷ []

run-IsBounded_example : IsBounded 2 (Order.run queue_calls small_queue).queue
run-IsBounded_example =
    run-IsBounded 2 queue_calls small_queue (record { capacity = refl; within = omega arith })

run-IsFifo_example : IsFifo (Order.run queue_calls small_queue)
run-IsFifo_example = run-IsFifo queue_calls small_queue refl refl

abbrev framer : PcmFramer
framer = record { frame_bytes = 2; buffer = 1 ∷ [] }

push-AreFrames_example :
    AreFrames 2
      (1 ∷ 2 ∷ 3 ∷ 4 ∷ [])
      ((push (2 ∷ 3 ∷ 4 ∷ []) framer).1, (push (2 ∷ 3 ∷ 4 ∷ []) framer).0.buffer)
push-AreFrames_example = push-AreFrames (2 ∷ 3 ∷ 4 ∷ []) framer (omega arith)
