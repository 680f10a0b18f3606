-- ===== src/Cli/Merge.antt =====
-- Tokens that are merged into a line and read from it again (tweak-app-cl/src/stringutil.c).
use tweaktool.Common.{
  ℕ, zero, suc, ◌<◌, ◌≤◌, ◌≡◌, refl, ◌∙◌, ap, Bool, true, false, List, [], ◌∷◌, ◌++◌, length, ◌==◌,
  Bytes, All, arith, length-append,
}
use tweaktool.Cli.Tokens.{
  merge_more, merge_tokens, is_in, trimleft, strpbrk_unescaped, unescape, read_tokens, tokenize,
}

module _ (escape : ℕ) (separators : Bytes) (nonzero : (0 == escape) ≡ false) where
  -- A character that is neither a separator nor the escape.
  abbrev pub IsPlain : ℕ → Type 0
  IsPlain c = (is_in c separators ≡ false) × ((c == escape) ≡ false)

  -- A token that needs no escape.
  abbrev pub IsToken : Bytes → Type 0
  IsToken t = (0 < length t) × All IsPlain t

  abbrev pub AreSeparators : Bytes → Type 0
  AreSeparators s = All (λ c. is_in c separators ≡ true) s

  -- The end of the line, or a separator.
  abbrev StopsAt : Bytes → Type 0
  StopsAt [] = Unit {0}
  StopsAt (c ∷ s) = is_in c separators ≡ true

  strpbrk_unescaped_token :
      (t rest : Bytes) (prev : ℕ)
      → (prev == escape) ≡ false
      → All IsPlain t
      → StopsAt rest
      → strpbrk_unescaped escape separators prev (t ++ rest) ≡ (t, rest)
  unfolding strpbrk_unescaped
  strpbrk_unescaped_token [] [] prev p ok stop = refl
  strpbrk_unescaped_token [] (c ∷ rest) prev p ok stop = rw (p, stop) refl
  strpbrk_unescaped_token (c ∷ t) rest prev p ok stop =
      rw (ok.0.0, strpbrk_unescaped_token t rest c ok.0.1 ok.1 stop) refl

  unescape_plain : (fresh : Bool) (t : Bytes) → All IsPlain t → unescape escape fresh t ≡ t
  unfolding unescape
  unescape_plain fresh [] ok = refl
  unescape_plain true (c ∷ t) ok = ap (λ s. c ∷ s) (unescape_plain false t ok.1)
  unescape_plain false (c ∷ t) ok = rw (ok.0.1) (ap (λ s. c ∷ s) (unescape_plain false t ok.1))

  trimleft_token : (t rest : Bytes) → IsToken t → trimleft (t ++ rest) separators ≡ t ++ rest
  unfolding trimleft
  trimleft_token [] rest ok = absurd (omega (arith, ok.0))
  trimleft_token (c ∷ t) rest ok = rw (ok.1.0.0) refl

  trimleft_separators :
      (s rest : Bytes)
      → AreSeparators s
      → trimleft (s ++ rest) separators ≡ trimleft rest separators
  unfolding trimleft
  trimleft_separators [] rest ok = refl
  trimleft_separators (c ∷ s) rest ok = rw (ok.0) (trimleft_separators s rest ok.1)

  separator-StopsAt : (s rest : Bytes) → 0 < length s → AreSeparators s → StopsAt (s ++ rest)
  separator-StopsAt [] rest h ok = absurd (omega arith)
  separator-StopsAt (c ∷ s) rest h ok = ok.0

  read_tokens_step :
      (fuel : ℕ) (t rest : Bytes)
      → IsToken t
      → StopsAt rest
      → read_tokens escape separators (suc fuel) (t ++ rest)
        ≡ t ∷ read_tokens escape separators fuel (trimleft rest separators)
  unfolding read_tokens
  read_tokens_step fuel [] rest ok stop = absurd (omega (arith, ok.0))
  read_tokens_step fuel (c ∷ t) rest ok stop =
      rw
        (strpbrk_unescaped_token (c ∷ t) rest 0 nonzero ok.1 stop, unescape_plain true (c ∷ t) ok.1)
        refl

  read_tokens_end :
      (fuel : ℕ) (separator : Bytes)
      → read_tokens escape separators fuel (trimleft (merge_more separator []) separators) ≡ []
  unfolding merge_more trimleft read_tokens
  read_tokens_end zero separator = refl
  read_tokens_end (suc fuel) separator = refl

  merge_more-StopsAt :
      (separator : Bytes) (ts : List Bytes)
      → 0 < length separator
      → AreSeparators separator
      → StopsAt (merge_more separator ts)
  unfolding merge_more
  merge_more-StopsAt separator [] h ok = tt
  merge_more-StopsAt separator (t ∷ ts) h ok =
      separator-StopsAt separator (t ++ merge_more separator ts) h ok

  trimleft_more :
      (separator u : Bytes) (ts : List Bytes)
      → AreSeparators separator
      → IsToken u
      → trimleft (merge_more separator (u ∷ ts)) separators ≡ u ++ merge_more separator ts
  unfolding merge_more
  trimleft_more separator u ts ok k =
      trimleft_separators separator (u ++ merge_more separator ts) ok
      ∙ trimleft_token u (merge_more separator ts) k

  read_tokens-merge :
      (separator t : Bytes) (ts : List Bytes) (fuel : ℕ)
      → 0 < length separator
      → AreSeparators separator
      → IsToken t
      → All IsToken ts
      → length ts < fuel
      → read_tokens escape separators fuel (t ++ merge_more separator ts) ≡ t ∷ ts
  read_tokens-merge separator t ts zero h ok k oks fits = absurd (omega arith)
  read_tokens-merge separator t [] (suc fuel) h ok k oks fits =
      read_tokens_step fuel t (merge_more separator []) k (merge_more-StopsAt separator [] h ok)
      ∙ ap (λ r. t ∷ r) (read_tokens_end fuel separator)
  read_tokens-merge separator t (u ∷ ts) (suc fuel) h ok k oks fits =
      read_tokens_step fuel t (merge_more separator (u ∷ ts)) k
        (merge_more-StopsAt separator (u ∷ ts) h ok)
      ∙ ap (λ s. t ∷ read_tokens escape separators fuel s) (trimleft_more separator u ts ok oks.0)
      ∙ ap (λ r. t ∷ r) (read_tokens-merge separator u ts fuel h ok oks.0 oks.1 (omega arith))

  merge_more-long :
      (separator : Bytes) (ts : List Bytes)
      → All IsToken ts
      → length ts ≤ length (merge_more separator ts)
  unfolding merge_more
  merge_more-long separator [] oks = omega arith
  merge_more-long separator (t ∷ ts) oks = omega (
    arith,
    oks.0.0,
    merge_more-long separator ts oks.1,
    length-append separator (t ++ merge_more separator ts),
    length-append t (merge_more separator ts),
  )

  -- Tokens that are not empty and contain neither separators nor the escape, merged with one or more separators
  -- between them, are the tokens of the line.
  pub tokenize-merge_tokens :
      (ts : List Bytes) (separator : Bytes)
      → 0 < length separator
      → AreSeparators separator
      → All IsToken ts
      → tokenize (merge_tokens ts separator) escape separators ≡ ts
  unfolding tokenize merge_tokens
  tokenize-merge_tokens [] separator h ok oks = unfold trimleft read_tokens in refl
  tokenize-merge_tokens (t ∷ ts) separator h ok oks =
      let line = t ++ merge_more separator ts in
      ap (read_tokens escape separators (length line))
        (trimleft_token t (merge_more separator ts) oks.0)
      ∙ read_tokens-merge separator t ts (length line) h ok oks.0 oks.1 (
          omega (
            arith,
            oks.0.0,
            merge_more-long separator ts oks.1,
            length-append t (merge_more separator ts),
          ))
