-- ===== src/Worker/Binding/Orders.antt =====
-- The order of a binding's transcripts and of the audio that it takes in.
use realtime_voice_agent.Common.{
  ℕ, ◌+◌, ◌≡◌, refl, subst, Bool, true, ◌&&◌, Option, none, some, List, [], ◌∷◌, nat_eq, nat_key,
  text_key, eq_iff, eq_refl, option_eq, arith, Text, codes, Result, ok, err, Bool-cases,
  Option-cases, inl, inr, if◌then◌else◌, ◌==◌,
}
use realtime_voice_agent.Worker.Protocol.{BindingError, code, frame, wss_profile}
use realtime_voice_agent.Worker.Binding.{Binding, ensure_open}
use realtime_voice_agent.Worker.Binding.Transcripts.{
  advance_transcript, start_utterance, count_fragment,
}
use realtime_voice_agent.Worker.Binding.Media.{
  InboundAudioPacket, receive_media, receive_frame, check_frame,
}
use realtime_voice_agent.Media.Frame.{FrameError, MediaFrame}
use realtime_voice_agent.Media.Wire.{parse}

-- What an accepted call adds to a list; a refused one adds nothing.
abbrev pub result_then {ℓ} :
    {A : Type 0} {B : Type ℓ} → (A → B) → Result BindingError A → List B → List B
result_then g (ok a) rest = g a ∷ rest
result_then g (err e) rest = rest

-- A call for a transcript event: utterance, sequence number, and whether it is the final one.
pub record Fragment : Type 0 where
  pub utterance_id : Text
  pub sequence : ℕ
  pub final : Bool

-- The utterance that is under way, and its next number.
abbrev pub current : Binding → Option (Text × ℕ)
current b = elim b.active_utterance_id [
  | none ↦ none
  | some u ↦ some (u, b.next_transcript_sequence)
]

abbrev pub after : Fragment → Option (Text × ℕ)
after f = if f.final then none else some (f.utterance_id, f.sequence + 1)

-- A stream of fragments from a point on: an utterance counts from 0 and ends with its final fragment before
-- the next one begins.
pub data IsStream : Option (Text × ℕ) → List Fragment → Type 0 where
  nothing : {o : Option (Text × ℕ)} → IsStream o []
  begins :
      {f : Fragment} {fs : List Fragment}
      → f.sequence ≡ 0
      → IsStream (after f) fs
      → IsStream none (f ∷ fs)
  goes_on :
      {u : Text} {n : ℕ} {f : Fragment} {fs : List Fragment}
      → f.utterance_id ≡ u
      → f.sequence ≡ n
      → IsStream (after f) fs
      → IsStream (some (u, n)) (f ∷ fs)

-- The fragments that are taken, of calls one after the other.
unfoldable pub advance_all : List Fragment → Binding → List Fragment
advance_all [] b = []
advance_all (f ∷ fs) b =
    let (advanced, result) = advance_transcript f.utterance_id f.sequence f.final b in
    result_then (λ _. f) result (advance_all fs advanced)

data AdvanceOutcome (f : Fragment) (b : Binding) (r : Binding × Result BindingError (Unit {0}))
    : Type 0 where
  refused : (e : BindingError) → r.1 ≡ err e → current r.0 ≡ current b → AdvanceOutcome f b r
  first :
      r.1 ≡ ok tt → current b ≡ none → f.sequence ≡ 0 → current r.0 ≡ after f → AdvanceOutcome f b r
  further :
      r.1 ≡ ok tt
      → current b ≡ some (f.utterance_id, f.sequence)
      → current r.0 ≡ after f
      → AdvanceOutcome f b r

advance_transcript-AdvanceOutcome :
    (f : Fragment) (b : Binding)
    → AdvanceOutcome f b (advance_transcript f.utterance_id f.sequence f.final b)
unfolding advance_transcript start_utterance count_fragment
advance_transcript-AdvanceOutcome f b =
    elim (Bool-cases (option_eq b.last_finalized_utterance (some f.utterance_id))) [
      | inl e ↦ refused (code (codes "transcript_already_final")) (ground arith) (ground arith)
      | inr e ↦ elim (Option-cases b.active_utterance_id) [
        | inl a ↦ elim (Bool-cases (nat_eq f.sequence 0)) [
          | inr g ↦ refused (code (codes "invalid_sequence")) (ground arith) (ground arith)
          | inl g ↦
              first (ground (arith, eq_refl f.utterance_id)) (ground arith) (ground arith)
                (ground (arith, eq_refl f.utterance_id))
        ]
        | inr (u, a) ↦
            elim (Bool-cases
              ((u == f.utterance_id) && nat_eq f.sequence b.next_transcript_sequence)) [
                | inr g ↦ refused (code (codes "invalid_sequence")) (ground arith) (ground arith)
                | inl g ↦
                    further (ground arith) (ground (arith, eq_iff u f.utterance_id))
                      (ground (arith, eq_iff u f.utterance_id))
              ]
      ]
    ]

-- Whatever transcript calls come, with whatever numbers, the fragments that a binding takes form a stream from
-- where it stands: each utterance counts 0, 1, 2, ... and ends before another begins, and nothing is between.
pub transcripts_are_streams :
    (fs : List Fragment) (b : Binding) → IsStream (current b) (advance_all fs b)
unfolding advance_all
transcripts_are_streams [] b = nothing
transcripts_are_streams (f ∷ fs) b =
    let advanced = (advance_transcript f.utterance_id f.sequence f.final b).0 in
    let taken_after = advance_all fs advanced in
    let rest = transcripts_are_streams fs advanced in
    elim (advance_transcript-AdvanceOutcome f b) [
      | refused e h same ↦ rw h (subst (λ o. IsStream o taken_after) same rest)
      | first h idle zero_first same ↦
          rw (h, idle) (begins zero_first (subst (λ o. IsStream o taken_after) same rest))
      | further h running same ↦
          rw (h, running) (goes_on refl refl (subst (λ o. IsStream o taken_after) same rest))
    ]

-- The packets that the audio port is given, of frames one after the other.
unfoldable pub receive_all : List Text → Binding → List InboundAudioPacket
receive_all [] b = []
receive_all (raw ∷ raws) b =
    let (received, result) = receive_media raw b in
    result_then (λ p. p) result (receive_all raws received)

abbrev pub CountsFrom : ℕ → List InboundAudioPacket → Type 0
CountsFrom n [] = Unit {0}
CountsFrom n (p ∷ ps) = (p.sequence ≡ n) × CountsFrom (n + 1) ps

data ReceiveOutcome (b : Binding) (r : Binding × Result BindingError InboundAudioPacket)
    : Type 0 where
  refused : (e : BindingError) → r ≡ (b, err e) → ReceiveOutcome b r
  taken :
      (p : InboundAudioPacket)
      → r ≡ (record b { next_uplink_sequence = b.next_uplink_sequence + 1 }, ok p)
      → p.sequence ≡ b.next_uplink_sequence
      → ReceiveOutcome b r

receive_media-ReceiveOutcome : (raw : Text) (b : Binding) → ReceiveOutcome b (receive_media raw b)
unfolding receive_media receive_frame check_frame
receive_media-ReceiveOutcome raw b = elim (Option-cases (ensure_open b)) [
  | inr (e, h) ↦ refused e (ground arith)
  | inl h ↦ elim (Bool-cases (option_eq b.selected_media_profile (some wss_profile))) [
    | inr g ↦ refused (code (codes "transport_mismatch")) (ground arith)
    | inl g ↦ decoded h g (parse raw) refl
  ]
]
  where
    decoded :
        ensure_open b ≡ none
        → option_eq b.selected_media_profile (some wss_profile) ≡ true
        → (r : Result FrameError MediaFrame) → parse raw ≡ r
        → ReceiveOutcome b (receive_media raw b)
    decoded h g (err e) k = refused (frame e) (ground arith)
    decoded h g (ok f) k = elim (Option-cases (check_frame f b)) [
      | inr (e, c) ↦ refused e (ground arith)
      | inl c ↦
          taken
            (record {
              sequence = f.header.sequence;
              timestamp = f.header.timestamp;
              payload = f.payload;
            })
            (ground arith) (ground arith)
    ]

-- Whatever frames come in, those that a binding gives to its audio port are numbered without a gap from the
-- number that it stands at.
pub uplink_is_gapless :
    (raws : List Text) (b : Binding) → CountsFrom b.next_uplink_sequence (receive_all raws b)
unfolding receive_all
uplink_is_gapless [] b = tt
uplink_is_gapless (raw ∷ raws) b = elim (receive_media-ReceiveOutcome raw b) [
  | refused e h ↦ rw h (uplink_is_gapless raws b)
  | taken p h same ↦ rw h (
    same,
    uplink_is_gapless raws (record b { next_uplink_sequence = b.next_uplink_sequence + 1 }),
  )
]
