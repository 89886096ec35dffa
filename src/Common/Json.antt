-- ===== src/Common/Json.antt =====
-- JSON values as Python's `json` gives them, and the tests that both ends make on them. A string is its
-- UTF-8 bytes; an object holds each name once, as `_unique_object` of both ends sees to.
use Prim.Native.Nat.{ℕ}
use mathlib.Core.Bool.{Bool, true, false, ◌&&◌, ◌||◌}
use mathlib.Core.Option.{Option, none, some}
use mathlib.Core.List.{List, [], ◌∷◌}
use realtime_voice_agent.Common.Tests.{if◌then◌else◌, leb, nat_eq}
use realtime_voice_agent.Common.Lists.{length, all}
use realtime_voice_agent.Common.Keys.{Text, codes, text_key, ◌==◌, contains}

mutual
  -- `whole n` is a float with the value of the natural number `n`, `fractional` any other float.
  pub data Json : Type 0 where
    null : Json
    bool : Bool → Json
    nat : ℕ → Json
    negative : ℕ → Json
    whole : ℕ → Json
    fractional : Text → Json
    str : Text → Json
    arr : Items → Json
    obj : Fields → Json

  pub data Items : Type 0 where
    nil : Items
    item : Json → Items → Items

  pub data Fields : Type 0 where
    end : Fields
    field : Text → Json → Fields → Fields

-- `message.get(name)`, where a missing name is `None`, as a JSON null is.
unfoldable pub at : Text → Fields → Json
at name end = null
at name (field n v m) = if n == name then v else at name m

-- `name in message`
unfoldable pub has : Text → Fields → Bool
has name end = false
has name (field n v m) = n == name || has name m

-- `set(message)`
unfoldable pub names : Fields → List Text
names end = []
names (field n v m) = n ∷ names m

abbrev pub as_text : Json → Option Text
as_text (str t) = some t
as_text _ = none

-- `type(value) is int`, of the integers from 0 on.
abbrev pub as_nat : Json → Option ℕ
as_nat (nat n) = some n
as_nat _ = none

abbrev pub as_object : Json → Option Fields
as_object (obj m) = some m
as_object _ = none

abbrev pub is_bool : Json → Bool
is_bool (bool b) = true
is_bool _ = false

abbrev pub is_null : Json → Bool
is_null null = true
is_null _ = false

-- `value == text`
unfoldable pub is_text : Text → Json → Bool
is_text t (str s) = s == t
is_text t _ = false

-- `value == number`: a bool counts as 0 or 1, a float by its value.
unfoldable pub equals_number : ℕ → Json → Bool
equals_number n (nat m) = nat_eq m n
equals_number n (whole m) = nat_eq m n
equals_number n (bool true) = nat_eq 1 n
equals_number n (bool false) = nat_eq 0 n
equals_number n _ = false

-- Lists and objects cannot be looked up in a set.
abbrev pub is_hashable : Json → Bool
is_hashable (arr xs) = false
is_hashable (obj m) = false
is_hashable _ = true

-- `value in set` of strings, of a value that can be looked up.
unfoldable pub is_among : List Text → Json → Bool
is_among texts (str s) = contains texts s
is_among texts _ = false

-- `not (expected - set(message))`
unfoldable pub has_all : List Text → Fields → Bool
has_all [] m = true
has_all (n ∷ ns) m = has n m && has_all ns m

-- `not (set(message) - allowed)`
unfoldable pub within : List Text → Fields → Bool
within allowed end = true
within allowed (field n v m) = contains allowed n && within allowed m

abbrev pub in_class : List ℕ → ℕ → Bool
in_class [] c = false
in_class (x ∷ xs) c = nat_eq x c || in_class xs c

abbrev pub is_alphanumeric : ℕ → Bool
is_alphanumeric c =
    (leb b'A' c && leb c b'Z') || (leb b'a' c && leb c b'z') || (leb b'0' c && leb c b'9')

-- `[A-Za-z0-9._:-]{1,128}`
unfoldable pub is_identifier : Text → Bool
is_identifier t =
    leb 1 (length t)
    && leb (length t) 128
    && all (λ c. is_alphanumeric c || in_class (b'.' ∷ b'_' ∷ b':' ∷ b'-' ∷ []) c) t

-- `[a-z0-9_]{1,64}`
unfoldable pub is_error_code : Text → Bool
is_error_code t =
    leb 1 (length t)
    && leb (length t) 64
    && all (λ c. (leb b'a' c && leb c b'z') || (leb b'0' c && leb c b'9') || nat_eq c b'_') t

-- The control profile's audio format: the dictionary that both ends compare with.
unfoldable pub is_audio_profile : Json → Bool
is_audio_profile (obj m) =
    has_all
      (codes "codec" ∷ codes "sample_rate_hz" ∷ codes "channels" ∷ codes "frame_duration_ms" ∷ []) m
    && within
        (codes "codec" ∷ codes "sample_rate_hz" ∷ codes "channels" ∷ codes "frame_duration_ms" ∷ [])
        m
    && is_text (codes "opus") (at (codes "codec") m)
    && equals_number 16000 (at (codes "sample_rate_hz") m)
    && equals_number 1 (at (codes "channels") m)
    && equals_number 60 (at (codes "frame_duration_ms") m)
is_audio_profile _ = false

unfoldable pub audio_profile : Json
audio_profile = obj (
    field (codes "codec") (str (codes "opus")) (
      field (codes "sample_rate_hz") (nat 16000)
        (field (codes "channels") (nat 1) (field (codes "frame_duration_ms") (nat 60) end))))
