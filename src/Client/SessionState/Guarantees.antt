-- ===== src/Client/SessionState/Guarantees.antt =====
-- Fences, media order, generations and the closed session, over any calls.
use realtime_voice_agent.Common.{
  ℕ, ◌+◌, ◌≡◌, ◌≤◌, ◌<◌, Bool, true, false, inl, inr, Option, none, some, List, arith, text_key,
  nat_key, Result, ok, err, is_ok,
}
use realtime_voice_agent.Client.SessionState.{PlaybackTarget, State, ClientError, session_closed}
use realtime_voice_agent.Client.SessionState.Control.{
  Message, accept_control, accept_body, accept_begin, response_begin,
}
use realtime_voice_agent.Client.SessionState.MediaGate.{accept_media, out_of_sequence, record_frame}
use realtime_voice_agent.Client.SessionState.Progress.{Call, run, run-Grows, accept_control_cases}
use realtime_voice_agent.Media.Frame.{Header}

-- Whether the frame becomes an event.
abbrev pub is_admitted : Result ClientError (Option ℕ) → Bool
is_admitted (err e) = false
is_admitted (ok none) = false
is_admitted (ok (some generation)) = true

media_moves :
    (frame : Header) (s : State)
    → is_ok (accept_media frame s).1 ≡ true
    → (s.next_downlink_sequence ≤ frame.sequence)
      × ((accept_media frame s).0.next_downlink_sequence ≡ frame.sequence + 1)
unfolding accept_media out_of_sequence record_frame
media_moves frame s h = (ground arith, ground arith)

-- Of two frames that are accepted or dropped without an error, with any calls between them, the later
-- one has the greater sequence number.
pub media_sequences_increase :
    (first later : Header) (cs : List Call) (s : State)
    → is_ok (accept_media first s).1 ≡ true
    → is_ok (accept_media later (run cs (accept_media first s).0)).1 ≡ true
    → first.sequence < later.sequence
media_sequences_increase first later cs s h k =
    let a = media_moves first s h in
    let b = media_moves later (run cs (accept_media first s).0) k in
    let grows = run-Grows cs (accept_media first s).0 in omega (arith, a, b, grows.sequence)

begin_moves :
    (m : Message) (target : PlaybackTarget) (s : State)
    → m.body ≡ response_begin target
    → is_ok (accept_control m s).1 ≡ true
    → (s.highest_generation < target.generation)
      × ((s.fence_generation ≤ target.generation)
          × ((accept_control m s).0.highest_generation ≡ target.generation))
unfolding accept_body accept_begin
begin_moves m target s b h = elim (accept_control_cases m s) [
  | inl (x, f) ↦ absurd (ground arith)
  | inr f ↦ (ground (arith, f, b), (ground (arith, f, b), ground (arith, f, b)))
]

-- Of two responses whose begin the client accepts, with any calls between them, the later one has the greater generation.
pub response_generations_increase :
    (m n : Message) (first later : PlaybackTarget) (cs : List Call) (s : State)
    → m.body ≡ response_begin first
    → n.body ≡ response_begin later
    → is_ok (accept_control m s).1 ≡ true
    → is_ok (accept_control n (run cs (accept_control m s).0)).1 ≡ true
    → first.generation < later.generation
response_generations_increase m n first later cs s b c h k =
    let (_, (_, reached)) = begin_moves m first s b h in
    let (above, _) = begin_moves n later (run cs (accept_control m s).0) c k in
    let grows = run-Grows cs (accept_control m s).0 in
    omega (arith, reached, above, grows.generation)

-- In a closed session, whatever calls follow, every message and every frame is refused and changes nothing.
pub closed_session_refuses :
    (s : State) (cs : List Call) (m : Message) (frame : Header)
    → s.closed ≡ true
    → (accept_control m (run cs s) ≡ (run cs s, err session_closed))
      × (accept_media frame (run cs s) ≡ (run cs s, err session_closed))
unfolding accept_control accept_media
closed_session_refuses s cs m frame h =
    let closed = (run-Grows cs s).closed h in (rw (closed), rw (closed))
