-- ===== src/Convert/Decimal.antt =====
-- What the C library does at base 10: strtoll, strtoull and printf's %d and %u. A reader gives the value
-- and what `endp` points at, or `none` where it converts nothing.
use tweaktool.Common.{
  ℕ, zero, suc, ◌+◌, ◌-◌, ◌*◌, ◌/◌, ◌%◌, ◌^◌, Bool, true, false, ◌&&◌, ◌||◌, Option, none, some, [],
  ◌∷◌, ◌++◌, ltb, leb, ◌==◌, if◌then◌else◌, ◌>>=◌, Bytes,
}
use tweaktool.Common.Int.{ℤ, pos, negsuc}

abbrev pub is_digit : ℕ → Bool
is_digit c = leb 48 c && leb c 57

-- isspace in the C locale.
abbrev pub is_space : ℕ → Bool
is_space c = c == 32 || leb 9 c && leb c 13

unfoldable pub skip_space : Bytes → Bytes
skip_space [] = []
skip_space (c ∷ s) = let rest = skip_space s in if is_space c then rest else c ∷ s

unfoldable pub read_digits : ℕ → Bytes → ℕ × Bytes
read_digits acc [] = (acc, [])
read_digits acc (c ∷ s) =
    let more = read_digits (10 * acc + (c - 48)) s in if is_digit c then more else (acc, c ∷ s)

-- The digits, of which there must be one.
unfoldable pub read_magnitude : Bytes → Option (ℕ × Bytes)
unfolding read_digits
read_magnitude [] = none
read_magnitude (c ∷ s) = if is_digit c then some (read_digits 0 (c ∷ s)) else none

-- The sign (true for minus) and the magnitude.
unfoldable pub read_sign : Bytes → Bool × Bytes
read_sign [] = (false, [])
read_sign (c ∷ s) =
    if c == b'-' then (true, s) else if c == b'+' then (false, s) else (false, c ∷ s)

abbrev pub negate : ℕ → ℤ
negate zero = pos 0
negate (suc n) = negsuc n

abbrev pub to_signed : Bool → ℕ → ℤ
to_signed minus n =
    if minus
    then (if ltb (2 ^ 63) n then negsuc (2 ^ 63 - 1) else negate n)
    else (if ltb n (2 ^ 63) then pos n else pos (2 ^ 63 - 1))

abbrev pub to_unsigned : Bool → ℕ → ℕ
to_unsigned minus n =
    if ltb n (2 ^ 64) then (if minus then (2 ^ 64 - n) % 2 ^ 64 else n) else 2 ^ 64 - 1

-- White space, a sign and digits.
unfoldable pub read_number : Bytes → Option (Bool × ℕ × Bytes)
unfolding skip_space read_sign read_magnitude
read_number s =
    let signed = read_sign (skip_space s) in
    read_magnitude signed.1 >>= λ m. some (signed.0, m.0, m.1)

unfoldable pub strtoll : Bytes → Option (ℤ × Bytes)
unfolding read_number
strtoll s = read_number s >>= λ m. some (to_signed m.0 m.1, m.2)

unfoldable pub strtoull : Bytes → Option (ℕ × Bytes)
unfolding read_number
strtoull s = read_number s >>= λ m. some (to_unsigned m.0 m.1, m.2)

-- At most `fuel` digits.
unfoldable pub digits : ℕ → ℕ → Bytes
digits zero n = []
digits (suc fuel) n =
    let front = digits fuel (n / 10) in (if ltb n 10 then [] else front) ++ ((48 + n % 10) ∷ [])

-- Numbers below 2 ^ 64 have at most 20 digits.
abbrev pub print_unsigned : ℕ → Bytes
print_unsigned n = digits 20 n

abbrev pub print_signed : ℤ → Bytes
print_signed (pos n) = print_unsigned n
print_signed (negsuc n) = b'-' ∷ print_unsigned (suc n)
