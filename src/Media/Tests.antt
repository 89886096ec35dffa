-- ===== src/Media/Tests.antt =====
-- Packets at the replay windows and frames of the codecs, and each theorem at an input of its kind.
use realtime_voice_agent.Common.{
  is_unique, nat_key, ok, Text, text_key, codes, ◌++◌, ℕ, ◌≡◌, refl, true, [], ◌∷◌, List,
}
use realtime_voice_agent.Media.Frame.{
  Header, MediaFrame, encode_plain, decode_plain, check_fields, check_payload, is_valid_flags,
  pack_header, pack_words, pack_word,
}
use realtime_voice_agent.Media.Frame.Exchange.{decode_plain-encode_plain, parse-encode_plain}
use realtime_voice_agent.Media.Wire.{parse}
use realtime_voice_agent.Media.Replay.{init, commit, can_accept, advance, slide}
use realtime_voice_agent.Media.Replay.Delivery.{
  deliver, by_rule, worker_window_refines_rule, worker_admits_once,
}
use realtime_voice_agent.Common.Bits.{test_bit, set_bit, shift_left, low_bits}

-- Out of order, replayed, far ahead, and too far behind.
abbrev arrivals : List ℕ
arrivals = 1 ∷ 3 ∷ 2 ∷ 3 ∷ 900 ∷ 2 ∷ 5000 ∷ []

deliver-arrivals : deliver commit arrivals init [] ≡ 900 ∷ 2 ∷ 3 ∷ 1 ∷ []
unfolding deliver commit can_accept init advance slide test_bit set_bit shift_left low_bits
deliver-arrivals = refl

worker_window_refines_rule_example : deliver commit arrivals init [] ≡ by_rule arrivals []
worker_window_refines_rule_example = worker_window_refines_rule arrivals

worker_admits_once_example : is_unique (deliver commit arrivals init []) ≡ true
worker_admits_once_example = worker_admits_once arrivals

abbrev audio_header : Header
audio_header = record {
  flags = 1;
  media_id = codes "mediaid8";
  media_epoch = 1;
  sequence = 70000;
  timestamp = 960;
  generation = 2;
  payload_length = 3;
}

abbrev audio_frame : MediaFrame
audio_frame = record { header = audio_header; payload = 10 ∷ 20 ∷ 30 ∷ [] }

abbrev audio_wire : Text
audio_wire =
    86 ∷ 65 ∷ 1 ∷ 1 ∷ codes "mediaid8"
    ++ (0 ∷ 0 ∷ 0 ∷ 1 ∷ 0 ∷ 1 ∷ 17 ∷ 112 ∷ 0 ∷ 0 ∷ 3 ∷ 192 ∷ 0 ∷ 0 ∷ 0 ∷ 2 ∷ 0 ∷ 0 ∷ 0 ∷ 3 ∷ 10 ∷ 20
        ∷ 30 ∷ [])

audio_frame_encodes : encode_plain audio_frame ≡ ok audio_wire
unfolding encode_plain check_fields check_payload pack_header pack_words pack_word is_valid_flags
audio_frame_encodes = refl

decode_plain-encode_plain_example : decode_plain audio_wire ≡ ok audio_frame
decode_plain-encode_plain_example =
    decode_plain-encode_plain audio_frame audio_wire audio_frame_encodes

parse-encode_plain_example : parse audio_wire ≡ ok audio_frame
parse-encode_plain_example = parse-encode_plain audio_frame audio_wire refl audio_frame_encodes
