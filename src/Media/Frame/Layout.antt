-- ===== src/Media/Frame/Layout.antt =====
-- The layout of the header: packing against unpacking.
use mathlib.Core.List.{append_assoc}
use realtime_voice_agent.Common.{
  ℕ, suc, zero, ◌+◌, ◌<◌, ◌≡◌, ◌∙◌, refl, ap, true, [], ◌∷◌, ◌++◌, length, length-append, take,
  drop, Text, text_key, text_eq, arith,
}
use realtime_voice_agent.Media.Frame.{
  Header, pack_word, pack_words, unpack_word, unpack_byte, pack_header, unpack_header, is_supported,
}

unpack_word-pack_word :
    (n : ℕ) (rest : Text) → n < 0x100000000 → unpack_word (pack_word n ++ rest) ≡ n
unfolding pack_word unpack_word
unpack_word-pack_word n rest l = omega arith

take-append : (n : ℕ) (xs ys : Text) → length xs ≡ n → take n (xs ++ ys) ≡ xs
take-append zero [] ys e = refl
take-append zero (x ∷ xs) ys e = absurd (omega (arith, e))
take-append (suc n) [] ys e = absurd (omega (arith, e))
take-append (suc n) (x ∷ xs) ys e = ap (◌∷◌ x) (take-append n xs ys (omega (arith, e)))

drop-append : (n k : ℕ) (xs ys : Text) → length xs ≡ n → drop (n + k) (xs ++ ys) ≡ drop k ys
drop-append zero k [] ys e = ap (λ m. drop m ys) (omega arith)
drop-append zero k (x ∷ xs) ys e = absurd (omega (arith, e))
drop-append (suc n) k [] ys e = absurd (omega (arith, e))
drop-append (suc n) k (x ∷ xs) ys e =
    let shift : suc n + k ≡ suc (n + k) = omega arith in
    ap (λ m. drop m (x ∷ xs ++ ys)) shift ∙ drop-append n k xs ys (omega (arith, e))

-- Fields that `pack` takes as they are.
pub record Fits (h : Header) : Type 0 where
  pub media_id : length h.media_id ≡ 8
  pub media_epoch : h.media_epoch < 0x100000000
  pub sequence : h.sequence < 0x100000000
  pub timestamp : h.timestamp < 0x100000000
  pub generation : h.generation < 0x100000000
  pub payload_length : h.payload_length < 0x100000000

module _ (h : Header) (tail : Text) where
  wire_form : pack_header h ++ tail ≡ 86 ∷ 65 ∷ 1 ∷ h.flags ∷ (h.media_id ++ (pack_words h ++ tail))
  unfolding pack_header
  wire_form = ap (λ x. 86 ∷ 65 ∷ 1 ∷ h.flags ∷ x) (append_assoc h.media_id (pack_words h) tail)

  module _ (v : Fits h) where
    behind :
        (k : ℕ)
        → drop (8 + k) (h.media_id ++ (pack_words h ++ tail)) ≡ drop k (pack_words h ++ tail)
    behind k = drop-append 8 k h.media_id (pack_words h ++ tail) v.media_id

    pub unpack_header-pack_header : unpack_header (pack_header h ++ tail) ≡ h
    unfolding unpack_header pack_words unpack_byte unpack_word
    unpack_header-pack_header = rw wire_form (
        ground (
          arith,
          take-append 8 h.media_id (pack_words h ++ tail) v.media_id,
          behind 0,
          behind 4,
          behind 8,
          behind 12,
          behind 16,
          v.media_epoch,
          v.sequence,
          v.timestamp,
          v.generation,
          v.payload_length,
        ))

    pub drop-pack_header : drop 32 (pack_header h ++ tail) ≡ tail
    unfolding pack_words
    drop-pack_header = rw wire_form (behind 20)

    pub length-pack_header : length (pack_header h ++ tail) ≡ 32 + length tail
    unfolding pack_words
    length-pack_header =
        rw wire_form (omega (arith, length-append h.media_id (pack_words h ++ tail), v.media_id))

  pub is_supported-pack_header : is_supported (pack_header h ++ tail) ≡ true
  unfolding is_supported unpack_byte text_eq
  is_supported-pack_header = rw wire_form refl
