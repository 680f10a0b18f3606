-- ===== src/Words.antt =====
-- The bytes of a number in memory, the lowest first, and two's complement.
use tweaktool.Common.{
  ℕ, zero, suc, ◌+◌, ◌-◌, ◌*◌, ◌/◌, ◌%◌, ◌^◌, ◌≤◌, ◌<◌, ◌≡◌, refl, ap, [], ◌∷◌, length, take, drop,
  All, Bytes, arith, ltb, if◌then◌else◌,
}
use tweaktool.Common.Int.{ℤ, pos, negsuc}
use tweaktool.Variant.Types.{InRange}

abbrev pub load_le : ℕ → Bytes → ℕ
load_le zero s = 0
load_le (suc n) [] = 0
load_le (suc n) (b ∷ s) = b + 256 * load_le n s

abbrev pub store_le : ℕ → ℕ → Bytes
store_le zero x = []
store_le (suc n) x = x % 256 ∷ store_le n (x / 256)

abbrev pub AreBytes : Bytes → Type 0
AreBytes s = All (λ b. b < 256) s

pub store_le-load_le :
    (n : ℕ) (s : Bytes) → AreBytes s → n ≤ length s → store_le n (load_le n s) ≡ take n s
store_le-load_le zero s ok h = refl
store_le-load_le (suc n) [] ok h = absurd (omega arith)
store_le-load_le (suc n) (b ∷ s) ok h =
    let low : (b + 256 * load_le n s) % 256 ≡ b = omega (arith, ok.0) in
    let high : (b + 256 * load_le n s) / 256 ≡ load_le n s = omega (arith, ok.0) in
    rw (low, high, store_le-load_le n s ok.1 (omega arith))

pub drop-AreBytes : (n : ℕ) (s : Bytes) → AreBytes s → AreBytes (drop n s)
drop-AreBytes zero s ok = ok
drop-AreBytes (suc n) [] ok = ok
drop-AreBytes (suc n) (b ∷ s) ok = drop-AreBytes n s ok.1

-- 256 ^ n, as a product that computes.
abbrev pub bound : ℕ → ℕ
bound zero = 1
bound (suc n) = 256 * bound n

bound-pos : (n : ℕ) → 0 < bound n
bound-pos zero = omega arith
bound-pos (suc n) = omega (arith, bound-pos n)

pub load_le-lt : (n : ℕ) (s : Bytes) → AreBytes s → load_le n s < bound n
load_le-lt zero s ok = omega arith
load_le-lt (suc n) [] ok = omega (arith, bound-pos (suc n))
load_le-lt (suc n) (b ∷ s) ok = omega (arith, load_le-lt n s ok.1, ok.0)

-- The `w` low bits of a number in two's complement, and the number that `w` bits stand for.
abbrev pub to_bits : ℕ → ℤ → ℕ
to_bits w (pos n) = n % 2 ^ w
to_bits w (negsuc n) = 2 ^ w - 1 - n % 2 ^ w

abbrev pub of_bits : ℕ → ℕ → ℤ
of_bits w n = if ltb n (2 ^ (w - 1)) then pos n else negsuc (2 ^ w - 1 - n)

pub of_bits-to_bits8 : (x : ℤ) → InRange 7 x → of_bits 8 (to_bits 32 x % 2 ^ 8) ≡ x
of_bits-to_bits8 (pos n) h = ground arith
of_bits-to_bits8 (negsuc n) h = ground arith

pub of_bits-to_bits16 : (x : ℤ) → InRange 15 x → of_bits 16 (to_bits 32 x % 2 ^ 16) ≡ x
of_bits-to_bits16 (pos n) h = ground arith
of_bits-to_bits16 (negsuc n) h = ground arith

pub of_bits-to_bits32 : (x : ℤ) → InRange 31 x → of_bits 32 (to_bits 32 x) ≡ x
of_bits-to_bits32 (pos n) h = ground arith
of_bits-to_bits32 (negsuc n) h = ground arith

pub of_bits-to_bits64 : (x : ℤ) → InRange 63 x → of_bits 64 (to_bits 64 x) ≡ x
of_bits-to_bits64 (pos n) h = ground arith
of_bits-to_bits64 (negsuc n) h = ground arith

pub to_bits-of_bits8 : (x : ℕ) → x < 2 ^ 8 → to_bits 8 (of_bits 8 x) ≡ x
to_bits-of_bits8 x h = ground (arith, h)

pub to_bits-of_bits16 : (x : ℕ) → x < 2 ^ 16 → to_bits 16 (of_bits 16 x) ≡ x
to_bits-of_bits16 x h = ground (arith, h)

pub to_bits-of_bits32 : (x : ℕ) → x < 2 ^ 32 → to_bits 32 (of_bits 32 x) ≡ x
to_bits-of_bits32 x h = ground (arith, h)

pub to_bits-of_bits64 : (x : ℕ) → x < 2 ^ 64 → to_bits 64 (of_bits 64 x) ≡ x
to_bits-of_bits64 x h = ground (arith, h)

pub of_bits-InRange8 : (x : ℕ) → x < 2 ^ 8 → InRange 7 (of_bits 8 x)
of_bits-InRange8 x h = ground (arith, h)

pub of_bits-InRange16 : (x : ℕ) → x < 2 ^ 16 → InRange 15 (of_bits 16 x)
of_bits-InRange16 x h = ground (arith, h)

pub of_bits-InRange32 : (x : ℕ) → x < 2 ^ 32 → InRange 31 (of_bits 32 x)
of_bits-InRange32 x h = ground (arith, h)

pub of_bits-InRange64 : (x : ℕ) → x < 2 ^ 64 → InRange 63 (of_bits 64 x)
of_bits-InRange64 x h = ground (arith, h)

pub length-store_le : (n x : ℕ) → length (store_le n x) ≡ n
length-store_le zero x = refl
length-store_le (suc n) x = ap suc (length-store_le n (x / 256))
