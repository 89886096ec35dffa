-- ===== src/Common/Bits.antt =====
-- Bits of a number by their places: `(b >> d) & 1`, `b | (1 << d)`, `b << k` and `b & ((1 << k) - 1)`,
-- for non-negative Python integers, which have no width.
use Prim.Native.Nat.{ℕ, zero, suc, ◌+◌, ◌*◌, ◌/◌, ◌%◌, ◌<◌}
use mathlib.Core.Path.{◌≡◌, refl}
use mathlib.Core.Bool.{Bool, false, ◌&&◌, ◌||◌}
use native.Mathlib.Omega.{arith}
use realtime_voice_agent.Common.Tests.{ltb, nat_eq}

-- `(b & (1 << d)) != 0`
unfoldable pub test_bit : ℕ → ℕ → Bool
test_bit b zero = nat_eq (b % 2) 1
test_bit b (suc d) = test_bit (b / 2) d

-- `b | (1 << d)`
unfoldable pub set_bit : ℕ → ℕ → ℕ
set_bit b zero = b / 2 * 2 + 1
set_bit b (suc d) = b % 2 + set_bit (b / 2) d * 2

-- `b << k`
unfoldable pub shift_left : ℕ → ℕ → ℕ
shift_left b zero = b
shift_left b (suc k) = shift_left b k * 2

-- `b & ((1 << k) - 1)`
unfoldable pub low_bits : ℕ → ℕ → ℕ
low_bits zero b = 0
low_bits (suc k) b = b % 2 + low_bits k (b / 2) * 2

even_half : (x y : ℕ) → y < 2 → (y + x * 2) / 2 ≡ x
even_half x y h = omega arith

even_rest : (x y : ℕ) → y < 2 → (y + x * 2) % 2 ≡ y
even_rest x y h = omega arith

pub test_bit-set_bit : (b e d : ℕ) → test_bit (set_bit b e) d ≡ (nat_eq e d || test_bit b d)
unfolding test_bit set_bit
test_bit-set_bit b zero zero = ground arith
test_bit-set_bit b zero (suc d) =
    let e : (b / 2 * 2 + 1) / 2 ≡ b / 2 = omega arith in ground (arith, e)
test_bit-set_bit b (suc e) zero =
    let h = even_rest (set_bit (b / 2) e) (b % 2) (omega arith) in ground (arith, h)
test_bit-set_bit b (suc e) (suc d) =
    let h = even_half (set_bit (b / 2) e) (b % 2) (omega arith) in
    ground (arith, h, test_bit-set_bit (b / 2) e d)

pub test_bit-shift_left_lt : (b k d : ℕ) → d < k → test_bit (shift_left b k) d ≡ false
unfolding test_bit shift_left
test_bit-shift_left_lt b zero d h = absurd (omega arith)
test_bit-shift_left_lt b (suc k) zero h = ground arith
test_bit-shift_left_lt b (suc k) (suc d) h =
    let e : shift_left b k * 2 / 2 ≡ shift_left b k = omega arith in
    rw e (test_bit-shift_left_lt b k d (omega arith))

pub test_bit-shift_left : (b k d : ℕ) → test_bit (shift_left b k) (k + d) ≡ test_bit b d
unfolding test_bit shift_left
test_bit-shift_left b zero d = let e : 0 + d ≡ d = omega arith in rw e
test_bit-shift_left b (suc k) d =
    let e : suc k + d ≡ suc (k + d) = omega arith in
    let h : shift_left b k * 2 / 2 ≡ shift_left b k = omega arith in
    ground (arith, e, h, test_bit-shift_left b k d)

zero-test_bit : (d : ℕ) → test_bit 0 d ≡ false
unfolding test_bit
zero-test_bit zero = refl
zero-test_bit (suc d) = zero-test_bit d

-- Only the lowest bit of 1 is set.
pub one-test_bit : (d : ℕ) → test_bit 1 d ≡ nat_eq 0 d
unfolding test_bit
one-test_bit zero = refl
one-test_bit (suc d) = ground (arith, zero-test_bit d)

pub test_bit-low_bits : (k b d : ℕ) → test_bit (low_bits k b) d ≡ (ltb d k && test_bit b d)
unfolding test_bit low_bits
test_bit-low_bits zero b zero = refl
test_bit-low_bits zero b (suc d) = ground (arith, zero-test_bit d)
test_bit-low_bits (suc k) b zero =
    let h = even_rest (low_bits k (b / 2)) (b % 2) (omega arith) in ground (arith, h)
test_bit-low_bits (suc k) b (suc d) =
    let h = even_half (low_bits k (b / 2)) (b % 2) (omega arith) in
    ground (arith, h, test_bit-low_bits k (b / 2) d)
