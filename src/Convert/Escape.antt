-- ===== src/Convert/Escape.antt =====
-- tweak-common/src/tweakvariant.c: `json_escape_string`, and the strings of JSON (RFC 8259) that it writes.
use mathlib.Core.List.{append_assoc}
use tweaktool.Words.{AreBytes}
use tweaktool.Common.{
  IsText, ℕ, ◌+◌, ◌-◌, ◌*◌, ◌/◌, ◌%◌, ◌<◌, ◌≡◌, refl, ap, Bool, true, false, ◌&&◌, ◌||◌, Option,
  none, some, [], ◌∷◌, ◌++◌, ltb, leb, ◌==◌, if◌then◌else◌, ◌>>=◌, Bytes, arith, sym, subst, ◌∙◌,
  zero, suc, length, Bool-cases, inl, inr, ==_iff, if_true, if_false,
}

-- iscntrl in the C locale.
abbrev is_control : ℕ → Bool
is_control c = ltb c 32 || c == 127

-- A digit of "%04x".
abbrev hex_digit : ℕ → ℕ
hex_digit d = if ltb d 10 then 48 + d else 87 + d

-- What is appended for a character.
unfoldable pub escape : ℕ → Bytes
escape c =
    if c == b'"'
    then b'\\' ∷ b'"' ∷ []
    else if c == b'\\'
    then b'\\' ∷ b'\\' ∷ []
    else if c == 8
    then b'\\' ∷ b'b' ∷ []
    else if c == 12
    then b'\\' ∷ b'f' ∷ []
    else if c == 10
    then b'\\' ∷ b'n' ∷ []
    else if c == 13
    then b'\\' ∷ b'r' ∷ []
    else if c == 9
    then b'\\' ∷ b't' ∷ []
    else if is_control c
    then b'\\' ∷ b'u' ∷ b'0' ∷ b'0' ∷ hex_digit (c / 16) ∷ hex_digit (c % 16) ∷ []
    else c ∷ []

-- A C string ends before its first zero.
unfoldable pub json_escape_string : Bytes → Bytes
unfolding escape
json_escape_string [] = []
json_escape_string (c ∷ s) =
    let more = escape c ++ json_escape_string s in if c == 0 then [] else more

-- The characters of a JSON string up to its closing quotation mark: what follows a reverse solidus, four
-- hexadecimal digits below 0x80, and the others, of which none is a control character below 32.
abbrev hex_value : ℕ → Option ℕ
hex_value c =
    if leb 48 c && leb c 57
    then some (c - 48)
    else if leb 97 c && leb c 102
    then some (c - 87)
    else none

abbrev short_escape : ℕ → Option ℕ
short_escape c =
    if c == b'"'
    then some b'"'
    else if c == b'\\'
    then some b'\\'
    else if c == b'/'
    then some b'/'
    else if c == b'b'
    then some 8
    else if c == b'f'
    then some 12
    else if c == b'n'
    then some 10
    else if c == b'r'
    then some 13
    else if c == b't'
    then some 9
    else none

-- The digits of a code after `\u`.
abbrev read_code : Bytes → Option (ℕ × Bytes)
read_code (h ∷ i ∷ j ∷ k ∷ s) =
    if h == b'0' && i == b'0'
    then (hex_value j >>= λ x. hex_value k >>= λ y. if ltb x 8 then some (16 * x + y, s) else none)
    else none
read_code _ = none

-- One character and the rest.
unfoldable pub read_char : Bytes → Option (ℕ × Bytes)
read_char [] = none
read_char (c ∷ []) = if c == b'\\' || c == b'"' || ltb c 32 then none else some (c, [])
read_char (c ∷ d ∷ s) =
    if c == b'\\'
    then (if d == b'u' then read_code s else (short_escape d >>= λ x. some (x, s)))
    else if c == b'"' || ltb c 32
    then none
    else some (c, d ∷ s)

hex_value-hex_digit : (d : ℕ) → d < 16 → hex_value (hex_digit d) ≡ some d
hex_value-hex_digit d h = ground (arith, h)

read_code_lem :
    (c : ℕ) (s : Bytes)
    → c < 128
    → read_code (b'0' ∷ b'0' ∷ hex_digit (c / 16) ∷ hex_digit (c % 16) ∷ s) ≡ some (c, s)
read_code_lem c s h =
    let high : ltb (c / 16) 8 ≡ true = ground arith in
    let whole : 16 * (c / 16) + c % 16 ≡ c = omega arith in
    rw
      (
        hex_value-hex_digit (c / 16) (omega arith),
        hex_value-hex_digit (c % 16) (omega arith),
        high,
        whole,
      )
      refl

-- The escaped character is read back, and the rest is left.
IsRead : ℕ → Type 0
IsRead c = (s : Bytes) → read_char (escape c ++ s) ≡ some (c, s)

control_IsRead :
    (c : ℕ)
    → c < 128
    → escape c ≡ b'\\' ∷ b'u' ∷ b'0' ∷ b'0' ∷ hex_digit (c / 16) ∷ hex_digit (c % 16) ∷ []
    → IsRead c
unfolding IsRead read_char
control_IsRead c h e s = rw e (read_code_lem c s h)

plain_IsRead :
    (c : ℕ)
    → (c == b'\\') ≡ false
    → (c == b'"') ≡ false
    → is_control c ≡ false
    → escape c ≡ c ∷ []
    → IsRead c
unfolding IsRead read_char
plain_IsRead c p q r e [] =
    let visible : ltb c 32 ≡ false = ground (arith, r) in rw (e, p, q, visible) refl
plain_IsRead c p q r e (d ∷ s) =
    let visible : ltb c 32 ≡ false = ground (arith, r) in rw (e, p, q, visible) refl

at : (c v : ℕ) → (c == v) ≡ true → IsRead v → IsRead c
at c v e h = subst IsRead (sym ((==_iff c v).0 e)) h

other_IsRead :
    (c : ℕ)
    → c < 256
    → (c == b'\\') ≡ false
    → (c == b'"') ≡ false
    → escape c ≡ (
        if is_control c
        then b'\\' ∷ b'u' ∷ b'0' ∷ b'0' ∷ hex_digit (c / 16) ∷ hex_digit (c % 16) ∷ []
        else c ∷ [])
    → IsRead c
other_IsRead c h p q e = elim (Bool-cases (is_control c)) [
  | inl r ↦ control_IsRead c (ground (arith, r)) (e ∙ if_true (is_control c) _ _ r)
  | inr r ↦ plain_IsRead c p q r (e ∙ if_false (is_control c) _ _ r)
]

escape-IsRead : (c : ℕ) → c < 256 → IsRead c
unfolding escape IsRead read_char
escape-IsRead c h = elim (Bool-cases (c == b'"')) [
  | inl e ↦ at c b'"' e (λ s. refl)
  | inr quote ↦ elim (Bool-cases (c == b'\\')) [
    | inl e ↦ at c b'\\' e (λ s. refl)
    | inr solidus ↦ elim (Bool-cases (c == 8)) [
      | inl e ↦ at c 8 e (λ s. refl)
      | inr backspace ↦ elim (Bool-cases (c == 12)) [
        | inl e ↦ at c 12 e (λ s. refl)
        | inr feed ↦ elim (Bool-cases (c == 10)) [
          | inl e ↦ at c 10 e (λ s. refl)
          | inr newline ↦ elim (Bool-cases (c == 13)) [
            | inl e ↦ at c 13 e (λ s. refl)
            | inr return ↦ elim (Bool-cases (c == 9)) [
              | inl e ↦ at c 9 e (λ s. refl)
              | inr tab ↦
                  other_IsRead c h solidus quote
                    (rw (escape, quote, solidus, backspace, feed, newline, return, tab) refl)
            ]
          ]
        ]
      ]
    ]
  ]
]

-- The characters up to the closing quotation mark, and what follows it; each round takes a unit of fuel.
unfoldable pub read_string : ℕ → Bytes → Option (Bytes × Bytes)
read_string zero s = none
read_string (suc fuel) [] = none
read_string (suc fuel) (c ∷ s) =
    let more = read_char (c ∷ s) >>= λ r. read_string fuel r.1 >>= λ t. some (r.0 ∷ t.0, t.1) in
    if c == b'"' then some ([], s) else more

quote_unread : (s : Bytes) → read_char (b'"' ∷ s) ≡ none
unfolding read_char
quote_unread [] = refl
quote_unread (c ∷ s) = refl

read_string_step :
    (fuel : ℕ) (u t : Bytes) (c : ℕ) (x rest : Bytes)
    → read_char u ≡ some (c, t)
    → read_string fuel t ≡ some (x, rest)
    → read_string (suc fuel) u ≡ some (c ∷ x, rest)
unfolding read_string
read_string_step fuel [] t c x rest p q = unfold read_char in cc (p)
read_string_step fuel (d ∷ u) t c x rest p q = elim (Bool-cases (d == b'"')) [
  | inl e ↦
      let none_read : read_char (d ∷ u) ≡ none =
        ap (λ v. read_char (v ∷ u)) ((==_iff d b'"').0 e) ∙ quote_unread u in
      cc (p, none_read)
  | inr e ↦ rw (e, p, q) refl
]

-- A C string that is escaped and put between quotation marks is a JSON string, and reads as the C string.
pub read_string-json_escape_string :
    (s rest : Bytes) (fuel : ℕ)
    → AreBytes s
    → IsText s
    → length s < fuel
    → read_string fuel (json_escape_string s ++ (b'"' ∷ rest)) ≡ some (s, rest)
unfolding json_escape_string read_string
read_string-json_escape_string [] rest zero ok nonzero h = absurd (omega arith)
read_string-json_escape_string [] rest (suc fuel) ok nonzero h = refl
read_string-json_escape_string (c ∷ s) rest zero ok nonzero h = absurd (omega arith)
read_string-json_escape_string (c ∷ s) rest (suc fuel) ok nonzero h =
    let shown = json_escape_string s ++ (b'"' ∷ rest) in
    let some_char : (c == 0) ≡ false = ground (arith, nonzero.0) in
    rw some_char (
      ap (read_string (suc fuel)) (append_assoc (escape c) (json_escape_string s) (b'"' ∷ rest))
      ∙ read_string_step fuel (escape c ++ shown) shown c s rest
          (unfold IsRead in escape-IsRead c (omega (arith, ok.0)) shown)
          (read_string-json_escape_string s rest fuel ok.1 nonzero.1 (omega arith)))
