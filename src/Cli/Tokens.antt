-- ===== src/Cli/Tokens.antt =====
-- tweak-app-cl/src/stringutil.c: the tokens of a command line. A pointer into a string is the rest of the
-- string from there on. Allocation succeeds.
use tweaktool.Common.{
  ℕ, zero, suc, Bool, true, false, ◌&&◌, not, List, [], ◌∷◌, ◌++◌, length, ◌==◌, if◌then◌else◌,
  Bytes,
}

-- What follows the first token of a merged line: separators before tokens.
unfoldable pub merge_more : Bytes → List Bytes → Bytes
merge_more separator [] = []
merge_more separator (t ∷ ts) = separator ++ (t ++ merge_more separator ts)

unfoldable pub merge_tokens : List Bytes → Bytes → Bytes
unfolding merge_more
merge_tokens [] separator = []
merge_tokens (t ∷ ts) separator = t ++ merge_more separator ts

-- `strchr` of a character that is not zero.
abbrev pub is_in : ℕ → Bytes → Bool
is_in c [] = false
is_in c (d ∷ ds) = let later = is_in c ds in if c == d then true else later

unfoldable pub trimleft : Bytes → Bytes → Bytes
trimleft [] separators = []
trimleft (c ∷ s) separators =
    let rest = trimleft s separators in if is_in c separators then rest else c ∷ s

-- `tweak_app_cl_strpbrk_unescaped_no_null` as one pass: what is before the first separator that does not follow
-- an escape, and the rest from it on; `prev` is the character before.
unfoldable pub strpbrk_unescaped : ℕ → Bytes → ℕ → Bytes → Bytes × Bytes
strpbrk_unescaped escape separators prev [] = ([], [])
strpbrk_unescaped escape separators prev (c ∷ s) =
    let more = strpbrk_unescaped escape separators c s in
    if is_in c separators && not (prev == escape) then ([], c ∷ s) else (c ∷ more.0, more.1)

-- The loop of `tweak_app_cl_unescape_str`: a character is copied whatever it is, and an escape right after it is
-- skipped. `fresh` says that the next character is copied.
unfoldable pub unescape : ℕ → Bool → Bytes → Bytes
unescape escape fresh [] = []
unescape escape fresh (c ∷ s) =
    let skipped = not fresh && c == escape in
    let rest = unescape escape skipped s in if skipped then rest else c ∷ rest

abbrev pub unescape_str : ℕ → Bytes → Bytes
unescape_str escape s = unescape escape true s

-- The loop of `tweak_app_cl_tokenize` from the start of a token on; each round takes a unit of fuel.
unfoldable pub read_tokens : ℕ → Bytes → ℕ → Bytes → List Bytes
unfolding trimleft strpbrk_unescaped unescape
read_tokens escape separators zero s = []
read_tokens escape separators (suc fuel) [] = []
read_tokens escape separators (suc fuel) (c ∷ s) =
    let token = strpbrk_unescaped escape separators 0 (c ∷ s) in
    unescape_str escape token.0 ∷ read_tokens escape separators fuel (trimleft token.1 separators)

-- Each token has a character, so that the length is enough fuel.
unfoldable pub tokenize : Bytes → ℕ → Bytes → List Bytes
unfolding trimleft read_tokens
tokenize line escape separators =
    read_tokens escape separators (length line) (trimleft line separators)

-- TWEAK_APP_CL_SEPARATORS
abbrev pub client_separators : Bytes
client_separators = b' ' ∷ 13 ∷ 10 ∷ 9 ∷ []

-- The loop of `tweak_app_cl_find_first_incomplete_token` from a separator on, for `separators` that contain
-- those of the client, as its caller passes them; each round takes a unit of fuel.
unfoldable pub count_tokens : ℕ → Bytes → ℕ → Bytes → ℕ
unfolding trimleft strpbrk_unescaped
count_tokens escape separators zero s = 0
count_tokens escape separators (suc fuel) [] = 0
count_tokens escape separators (suc fuel) (c ∷ s) = suc (
    count_tokens escape separators fuel
      (strpbrk_unescaped escape client_separators 0 (trimleft (c ∷ s) separators)).1)

unfoldable pub find_first_incomplete_token : Bytes → ℕ → Bytes → ℕ
unfolding trimleft strpbrk_unescaped count_tokens
find_first_incomplete_token line escape separators =
    count_tokens escape separators (suc (length line))
      (strpbrk_unescaped escape client_separators 0 (trimleft line separators)).1
