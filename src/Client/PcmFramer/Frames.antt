-- ===== src/Client/PcmFramer/Frames.antt =====
-- On the frames of `push` and the bytes that came in.
use mathlib.Core.List.{append_assoc}
use realtime_voice_agent.Common.{
  ℕ, suc, zero, ◌≤◌, ◌<◌, ◌≡◌, ◌∙◌, refl, ap, true, leb, nat_eq, List, [], ◌∷◌, ◌++◌, length,
  length-drop, length-take, take, drop, take-append-drop, all, Text, arith, inl, inr, Bool-cases,
}
use realtime_voice_agent.Client.PcmFramer.{PcmFramer, cut, push}

abbrev pub concat : List Text → Text
concat [] = []
concat (frame ∷ frames) = frame ++ concat frames

-- All bytes in order; whole frames; and less than a frame is left.
pub record AreFrames (n : ℕ) (buffer : Text) (cuts : List Text × Text) : Type 0 where
  pub bytes : concat cuts.0 ++ cuts.1 ≡ buffer
  pub whole : all (λ frame. nat_eq (length frame) n) cuts.0 ≡ true
  pub rest : length cuts.1 < n

cut-AreFrames :
    (fuel n : ℕ) (buffer : Text)
    → 0 < n
    → length buffer ≤ fuel
    → AreFrames n buffer (cut fuel n buffer)
unfolding cut
cut-AreFrames zero n buffer p l = record { bytes = refl; whole = refl; rest = omega (arith, p, l) }
cut-AreFrames (suc fuel) n buffer p l = elim (Bool-cases (leb n (length buffer))) [
  | inr e ↦ rw e (record { bytes = refl; whole = refl; rest = ground (arith, e) })
  | inl e ↦
      let v = cut-AreFrames fuel n (drop n buffer) p (omega (arith, length-drop n buffer, p, l)) in
      rw e (record {
        bytes =
            append_assoc (take n buffer) (concat (cut fuel n (drop n buffer)).0)
              (cut fuel n (drop n buffer)).1
            ∙ ap (λ x. take n buffer ++ x) v.bytes
            ∙ take-append-drop n buffer;
        whole = ground (arith, v.whole, length-take n buffer, e);
        rest = v.rest;
      })
]

-- With a positive frame size, `push` gives whole frames and keeps less than a frame: together they are
-- the bytes that it had and those that came in, in order.
pub push-AreFrames :
    (pcm : Text) (f : PcmFramer)
    → 0 < f.frame_bytes
    → AreFrames f.frame_bytes (f.buffer ++ pcm) ((push pcm f).1, (push pcm f).0.buffer)
unfolding push
push-AreFrames pcm f p =
    cut-AreFrames (length (f.buffer ++ pcm)) f.frame_bytes (f.buffer ++ pcm) p (omega arith)
