-- ===== src/Text/Tests.antt =====
-- The string operations run on a short and on a long text.
use tweaktool.Common.{
  ℕ, zero, suc, ◌≢◌, ◌≡◌, refl, inl, none, some, [], ◌∷◌, ◌++◌, replicate, Bytes, IsText, arith,
}
use tweaktool.Text.{Str, empty, assign, append, copy, c_str, is_small}
use tweaktool.Text.Memory.{nul}
use tweaktool.Text.Holds.{Result, empty-Holds}
use tweaktool.Text.Assign.{assign-Holds}
use tweaktool.Text.Append.{append-Holds}
use tweaktool.Text.Copy.{copy-Holds, reassigned_copy_broken}

abbrev hello : Bytes
hello = b'h' ∷ b'e' ∷ b'l' ∷ b'l' ∷ b'o' ∷ []

abbrev empty_text : Bytes
empty_text = []

abbrev long : Bytes
long = replicate 200 b'x'

replicate-IsText : (n c : ℕ) → c ≢ 0 → IsText (replicate n c)
replicate-IsText zero c h = tt
replicate-IsText (suc n) c h = (h, replicate-IsText n c h)

long-IsText : IsText long
long-IsText = replicate-IsText 200 b'x' (λ e. omega (arith, e))

hello-IsText : IsText hello
hello-IsText = (
  λ e. omega (arith, e),
  (
    λ e. omega (arith, e),
    (λ e. omega (arith, e), (λ e. omega (arith, e), (λ e. omega (arith, e), tt))),
  ),
)

assign-Holds_example : Result (assign empty (some hello)) hello
assign-Holds_example =
    assign-Holds empty [] hello (replicate 127 nul) empty-Holds hello-IsText (omega arith)

append-Holds_example : Result (append empty long) ([] ++ long)
append-Holds_example =
    append-Holds empty [] long (replicate 127 nul) empty-Holds long-IsText (omega arith)
      (omega arith)

copy-Holds_example : Result (copy empty) []
unfolding is_small
copy-Holds_example = copy-Holds empty [] (replicate 127 nul) empty-Holds (inl refl) (omega arith)

reassigned_copy_broken_example :
    (s1 s2 s3 : Str) × (assign empty (some long) ≡ some s1)
    × (assign s1 (some hello) ≡ some s2)
    × (c_str s2 ≡ some hello)
    × (copy s2 ≡ some s3)
    × (c_str s3 ≡ none)
reassigned_copy_broken_example =
    reassigned_copy_broken long hello long-IsText hello-IsText (omega arith) (omega arith)
      (omega arith)
