-- ===== src/Client/PcmFramer.antt =====
-- audio/resample.py, `PcmFramer`: bytes in, frames of one size out.
pub mod Frames
use realtime_voice_agent.Common.{
  ℕ, suc, zero, ◌-◌, Bool, true, false, not, if◌then◌else◌, leb, nat_eq, List, [], ◌∷◌, ◌++◌,
  length, take, drop, replicate, is_empty, Text, Option, none, some, Result, ok, err,
}

pub record PcmFramer : Type 0 where
  pub frame_bytes : ℕ
  pub buffer : Text

-- `none` is the `ValueError`.
unfoldable pub init : ℕ → Option PcmFramer
init frame_bytes =
    if nat_eq frame_bytes 0 then none else some (record { frame_bytes = frame_bytes; buffer = [] })

-- The loop of `push`: the frames, and the buffer that is left.
unfoldable pub cut : ℕ → ℕ → Text → List Text × Text
cut zero n buffer = ([], buffer)
cut (suc fuel) n buffer =
    let (frames, rest) = cut fuel n (drop n buffer) in
    if leb n (length buffer) then (take n buffer ∷ frames, rest) else ([], buffer)

-- Each round takes a byte or more: the length of the buffer is fuel enough.
unfoldable pub push : Text → PcmFramer → PcmFramer × List Text
push pcm f =
    let buffer = f.buffer ++ pcm in
    let (frames, rest) = cut (length buffer) f.frame_bytes buffer in
    (record f { buffer = rest }, frames)

pub data FramerError : Type 0 where
  partial_pcm_frame_remains : FramerError

unfoldable pub flush : Bool → PcmFramer → PcmFramer × Result FramerError (Option Text)
flush pad f =
    if is_empty f.buffer
    then (f, ok none)
    else if not pad
    then (f, err partial_pcm_frame_remains)
    else (
      record f { buffer = [] },
      ok (some (f.buffer ++ replicate (f.frame_bytes - length f.buffer) 0)),
    )
