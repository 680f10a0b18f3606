-- ===== src/Convert/Numerals.antt =====
-- Reading a printed number (strtoll, strtoull and printf of the C library).
use tweaktool.Common.{
  ℕ, zero, suc, ◌+◌, ◌-◌, ◌*◌, ◌/◌, ◌%◌, ◌^◌, ◌<◌, ◌≤◌, ◌≡◌, refl, sym, subst, ◌∙◌, ap, Bool-cases,
  inl, inr, true, false, some, [], ◌∷◌, ◌++◌, ltb, Bytes, arith,
}
use tweaktool.Common.Int.{ℤ, pos, negsuc}
use tweaktool.Variant.Types.{InRange}
use mathlib.Core.List.{append_assoc, append-nil}
use tweaktool.Convert.Decimal.{
  is_digit, skip_space, read_digits, read_magnitude, read_sign, read_number, strtoll, strtoull,
  digits, print_unsigned, print_signed,
}

-- 10 ^ n, as a product that computes.
abbrev pow10 : ℕ → ℕ
pow10 zero = 1
pow10 (suc n) = 10 * pow10 n

-- The text starts with a digit.
abbrev pub StartsWithDigit : Bytes → Type 0
StartsWithDigit [] = ⊥
StartsWithDigit (c ∷ s) = (48 ≤ c) × (c ≤ 57)

append-StartsWithDigit : (s t : Bytes) → StartsWithDigit s → StartsWithDigit (s ++ t)
append-StartsWithDigit [] t h = absurd h
append-StartsWithDigit (c ∷ s) t h = h

digits_last : (fuel n : ℕ) → ltb n 10 ≡ true → digits (suc fuel) n ≡ (48 + n % 10) ∷ []
unfolding digits
digits_last fuel n e = rw e refl

digits_more :
    (fuel n : ℕ)
    → ltb n 10 ≡ false
    → digits (suc fuel) n ≡ digits fuel (n / 10) ++ ((48 + n % 10) ∷ [])
unfolding digits
digits_more fuel n e = rw e refl

pub digits-StartsWithDigit : (fuel n : ℕ) → StartsWithDigit (digits (suc fuel) n)
digits-StartsWithDigit zero n = elim (Bool-cases (ltb n 10)) [
  | inl e ↦ subst StartsWithDigit (sym (digits_last zero n e)) (omega arith, omega arith)
  | inr e ↦
      subst StartsWithDigit (sym (digits_more zero n e))
        (unfold digits in (omega arith, omega arith))
]
digits-StartsWithDigit (suc fuel) n = elim (Bool-cases (ltb n 10)) [
  | inl e ↦ subst StartsWithDigit (sym (digits_last (suc fuel) n e)) (omega arith, omega arith)
  | inr e ↦
      subst StartsWithDigit (sym (digits_more (suc fuel) n e)) (
        append-StartsWithDigit (digits (suc fuel) (n / 10)) _
          (digits-StartsWithDigit fuel (n / 10)))
]

read_digits_step :
    (n d : ℕ) (rest : Bytes)
    → d < 10
    → read_digits n ((48 + d) ∷ rest) ≡ read_digits (10 * n + d) rest
unfolding read_digits
read_digits_step n d rest small =
    let digit : is_digit (48 + d) ≡ true = ground arith in
    let value : 48 + d - 48 ≡ d = omega arith in rw (digit, value) refl

more_fuel : (k n : ℕ) → n < pow10 (suc k) → ltb n 10 ≡ false → 0 < k
more_fuel zero n small e = ground (arith, small)
more_fuel (suc k) n small e = omega arith

read_digits-digits :
    (fuel n : ℕ) (rest : Bytes)
    → n < pow10 fuel
    → 0 < fuel
    → read_digits 0 (digits fuel n ++ rest) ≡ read_digits n rest
read_digits-digits zero n rest small h = absurd (omega arith)
read_digits-digits (suc fuel) n rest small h = elim (Bool-cases (ltb n 10)) [
  | inl e ↦
      let same : 10 * 0 + n % 10 ≡ n = ground arith in
      ap (λ t. read_digits 0 (t ++ rest)) (digits_last fuel n e)
      ∙ read_digits_step 0 (n % 10) rest (omega arith)
      ∙ ap (λ m. read_digits m rest) same
  | inr e ↦
      let whole : 10 * (n / 10) + n % 10 ≡ n = omega arith in
      let left : 0 < fuel = more_fuel fuel n small e in
      ap (λ t. read_digits 0 (t ++ rest)) (digits_more fuel n e)
      ∙ ap (read_digits 0) (append_assoc (digits fuel (n / 10)) ((48 + n % 10) ∷ []) rest)
      ∙ read_digits-digits fuel (n / 10) ((48 + n % 10) ∷ rest) (omega arith) left
      ∙ read_digits_step (n / 10) (n % 10) rest (omega arith)
      ∙ ap (λ m. read_digits m rest) whole
]

skip_space_digit : (s : Bytes) → StartsWithDigit s → skip_space s ≡ s
unfolding skip_space
skip_space_digit [] h = absurd h
skip_space_digit (c ∷ s) h = ground (arith, h)

read_sign_digit : (s : Bytes) → StartsWithDigit s → read_sign s ≡ (false, s)
unfolding read_sign
read_sign_digit [] h = absurd h
read_sign_digit (c ∷ s) h = ground (arith, h)

read_magnitude_digit : (s : Bytes) → StartsWithDigit s → read_magnitude s ≡ some (read_digits 0 s)
unfolding read_magnitude
read_magnitude_digit [] h = absurd h
read_magnitude_digit (c ∷ s) h = ground (arith, h)

read_magnitude-print : (n : ℕ) → n < pow10 20 → read_magnitude (print_unsigned n) ≡ some (n, [])
unfolding read_digits
read_magnitude-print n small =
    read_magnitude_digit (print_unsigned n) (digits-StartsWithDigit 19 n)
    ∙ ap (λ t. some (read_digits 0 t)) (sym (append-nil (print_unsigned n)))
    ∙ ap some (read_digits-digits 20 n [] small (omega arith))

read_number-print : (n : ℕ) → n < pow10 20 → read_number (print_unsigned n) ≡ some (false, n, [])
unfolding read_number
read_number-print n small =
    let start = digits-StartsWithDigit 19 n in
    rw (
      skip_space_digit (print_unsigned n) start,
      read_sign_digit (print_unsigned n) start,
      read_magnitude-print n small,
    )

read_number-minus :
    (n : ℕ) → n < pow10 20 → read_number (b'-' ∷ print_unsigned n) ≡ some (true, n, [])
unfolding read_number skip_space read_sign
read_number-minus n small = rw (read_magnitude-print n small)

pub strtoull-print : (n : ℕ) → n < 2 ^ 64 → strtoull (print_unsigned n) ≡ some (n, [])
unfolding strtoull
strtoull-print n small = rw (read_number-print n (omega arith)) (ground arith)

pub strtoll-print : (z : ℤ) → InRange 63 z → strtoll (print_signed z) ≡ some (z, [])
unfolding strtoll
strtoll-print (pos n) small = rw (read_number-print n (omega arith)) (ground arith)
strtoll-print (negsuc n) small = rw (read_number-minus (suc n) (omega arith)) (ground arith)
