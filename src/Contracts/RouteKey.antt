-- ===== src/Contracts/RouteKey.antt =====
-- `encode_route_key` of voice_contracts/models.py, with `urllib.parse.quote(_, safe='')` written out
-- over the UTF-8 bytes of its argument.
use realtime_voice_agent.Common.{
  ℕ, ◌+◌, ◌/◌, ◌%◌, ◌<◌, ◌≡◌, refl, sym, Bool, ◌&&◌, ◌||◌, false, [], ◌∷◌, arith, ltb, leb, nat_eq,
  if◌then◌else◌, Text, codes,
}

-- The characters that `quote` never escapes: letters, digits and `_.-~`.
unfoldable pub is_unreserved : ℕ → Bool
is_unreserved b =
    (leb b'A' b && leb b b'Z')
    || (leb b'a' b && leb b b'z')
    || (leb b'0' b && leb b b'9')
    || nat_eq b b'_'
    || nat_eq b b'.'
    || nat_eq b b'-'
    || nat_eq b b'~'

unfoldable pub hex_digit : ℕ → ℕ
hex_digit d = if ltb d 10 then b'0' + d else 55 + d

-- The character itself, or `%XX`.
unfoldable pub quote_append : ℕ → Text → Text
quote_append b rest =
    if is_unreserved b then b ∷ rest else b'%' ∷ hex_digit (b / 16) ∷ hex_digit (b % 16) ∷ rest

-- `quote(s, safe='')` followed by a rest.
unfoldable pub quote_then : Text → Text → Text
quote_then [] rest = rest
quote_then (b ∷ s) rest = quote_append b (quote_then s rest)

unfoldable pub quote : Text → Text
quote s = quote_then s []

unfoldable pub encode_route_key : Text → Text → Text
encode_route_key tenant_id device_id = quote_then tenant_id (b':' ∷ quote device_id)

-- Every element is a byte.
abbrev pub IsBytes : Text → Type 0
IsBytes [] = Unit {0}
IsBytes (b ∷ s) = (b < 256) × IsBytes s

is_unreserved_marks : (is_unreserved b'%' ≡ false) × (is_unreserved b':' ≡ false)
unfolding is_unreserved
is_unreserved_marks = (refl, refl)

hex_digit_injective : (a b : ℕ) → a < 16 → b < 16 → hex_digit a ≡ hex_digit b → a ≡ b
unfolding hex_digit
hex_digit_injective a b ha hb h = ground arith

quote_append_injective :
    (a b : ℕ) (xs ys : Text)
    → a < 256
    → b < 256
    → quote_append a xs ≡ quote_append b ys
    → (a ≡ b) × (xs ≡ ys)
unfolding quote_append
quote_append_injective a b xs ys ha hb h = ground (
  arith,
  is_unreserved_marks,
  hex_digit_injective (a / 16) (b / 16),
  hex_digit_injective (a % 16) (b % 16),
)

colon-ne-quote_append : (b : ℕ) (xs ys : Text) → b':' ∷ xs ≡ quote_append b ys → ⊥
unfolding quote_append
colon-ne-quote_append b xs ys h = ground (arith, is_unreserved_marks)

quote_then_injective :
    (s t xs ys : Text)
    → IsBytes s
    → IsBytes t
    → quote_then s (b':' ∷ xs) ≡ quote_then t (b':' ∷ ys)
    → (s ≡ t) × (xs ≡ ys)
unfolding quote_then
quote_then_injective [] [] xs ys hs ht h = ground arith
quote_then_injective [] (b ∷ t) xs ys hs ht h = absurd (colon-ne-quote_append b _ _ h)
quote_then_injective (a ∷ s) [] xs ys hs ht h = absurd (colon-ne-quote_append a _ _ (sym h))
quote_then_injective (a ∷ s) (b ∷ t) xs ys hs ht h =
    let step = quote_append_injective a b _ _ hs.0 ht.0 h in
    let rest = quote_then_injective s t xs ys hs.1 ht.1 step.1 in ground arith

nil-ne-quote_append : (b : ℕ) (ys : Text) → ◌≡◌ {A = Text} [] (quote_append b ys) → ⊥
unfolding quote_append
nil-ne-quote_append b ys h = ground arith

quote_injective : (s t : Text) → IsBytes s → IsBytes t → quote s ≡ quote t → s ≡ t
unfolding quote quote_then
quote_injective [] [] hs ht h = refl
quote_injective [] (b ∷ t) hs ht h = absurd (nil-ne-quote_append b _ h)
quote_injective (a ∷ s) [] hs ht h = absurd (nil-ne-quote_append a _ (sym h))
quote_injective (a ∷ s) (b ∷ t) hs ht h =
    let step = quote_append_injective a b _ _ hs.0 ht.0 h in
    let rest : s ≡ t = quote_injective s t hs.1 ht.1 step.1 in ground arith

encoded : encode_route_key (codes "a b") (codes "x:1") ≡ codes "a%20b:x%3A1"
unfolding encode_route_key quote quote_then quote_append is_unreserved hex_digit
encoded = refl

-- For tenants and devices given as bytes, two pairs with the same route key are the same pair.
pub encode_route_key_injective :
    (t d t' d' : Text)
    → IsBytes t
    → IsBytes d
    → IsBytes t'
    → IsBytes d'
    → encode_route_key t d ≡ encode_route_key t' d'
    → (t ≡ t') × (d ≡ d')
unfolding encode_route_key
encode_route_key_injective t d t' d' ht hd ht' hd' h =
    let parts = quote_then_injective t t' (quote d) (quote d') ht ht' h in
    (parts.0, quote_injective d d' hd hd' parts.1)
