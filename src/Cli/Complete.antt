-- ===== src/Cli/Complete.antt =====
-- The n-th completion of a prefix (tweak-app-cl/src/tweakuriutil.c).
use tweaktool.Common.{
  ℕ, zero, suc, ◌+◌, ◌-◌, ◌/◌, ◌<◌, ◌≤◌, ◌≡◌, refl, sym, ◌∙◌, ap, true, false, Option, none, some,
  List, [], ◌∷◌, length, All, Bool-cases, inl, inr, get_or, get_elem?, ltb, leb, if◌then◌else◌,
  Bytes, arith,
}
use tweaktool.Cli.Uris.{str_leb, search, lower_bound, pick_nth_match, create_sorted_uris, enumerate}
use tweaktool.Cli.Order.{
  is_prefix, startswith_lem, prefix-below, prefix-between, str_leb_trans, All-weaken, IsSorted,
  sort_uris-IsSorted,
}

-- How many of the uris are below a text, for a sorted list.
abbrev rank : Bytes → List Bytes → ℕ
rank s [] = 0
rank s (u ∷ us) = let more = rank s us in if str_leb s u then 0 else suc more

rank-length : (s : Bytes) (us : List Bytes) → rank s us ≤ length us
rank-length s [] = omega arith
rank-length s (u ∷ us) = ground (arith, rank-length s us)

All-get_or :
    (u : Bytes) (us : List Bytes) (i : ℕ)
    → All (λ v. str_leb u v ≡ true) us
    → i < length us
    → str_leb u (get_or us i []) ≡ true
All-get_or u [] i h k = absurd (omega arith)
All-get_or u (v ∷ vs) zero h k = h.0
All-get_or u (v ∷ vs) (suc i) h k = All-get_or u vs i h.1 (omega arith)

-- In a sorted list, the entries from the rank on are those that are not below the text.
rank_lem :
    (s : Bytes) (us : List Bytes) (i : ℕ)
    → IsSorted us
    → i < length us
    → str_leb s (get_or us i []) ≡ leb (rank s us) i
rank_lem s [] i h k = absurd (omega arith)
rank_lem s (u ∷ us) zero h k = elim (Bool-cases (str_leb s u)) [
  | inl e ↦ rw e (ground arith)
  | inr e ↦ rw e (ground arith)
]
rank_lem s (u ∷ us) (suc i) h k = elim (Bool-cases (str_leb s u)) [
  | inl e ↦
      rw e
        (str_leb_trans s u (get_or us i []) e (All-get_or u us i h.0 (omega arith)) ∙ ground arith)
  | inr e ↦ rw e (rank_lem s us i h.1 (omega arith) ∙ ground arith)
]

search-rank :
    (s : Bytes) (us : List Bytes) (fuel low high : ℕ)
    → IsSorted us
    → low ≤ rank s us
    → rank s us ≤ high
    → high ≤ length us
    → high - low ≤ fuel
    → search s us fuel low high ≡ rank s us
unfolding search
search-rank s us zero low high sorted a b c d = omega arith
search-rank s us (suc fuel) low high sorted a b c d = elim (Bool-cases (ltb low high)) [
  | inl e ↦
      let mid = low + (high - low) / 2 in
      let inside : mid < high = ground (arith, e) in
      let test = rank_lem s us mid sorted (omega (arith, inside, c)) in
      elim (Bool-cases (str_leb s (get_or us mid []))) [
        | inl below ↦
            rw (e, below)
              (search-rank s us fuel low mid sorted a (ground (arith, below, test))
                (omega (arith, inside, c)) (ground (arith, e, d)))
        | inr above ↦
            rw (e, above)
              (search-rank s us fuel (mid + 1) high sorted (ground (arith, above, test)) b c
                (ground (arith, e, d)))
      ]
  | inr e ↦ rw e (ground (arith, e))
]

pub lower_bound-rank : (s : Bytes) (us : List Bytes) → IsSorted us → lower_bound s us ≡ rank s us
unfolding lower_bound
lower_bound-rank s us sorted =
    search-rank s us (length us) 0 (length us) sorted (omega arith) (rank-length s us) (omega arith)
      (omega arith)

-- The uris that start with a text.
abbrev pub completions : Bytes → List Bytes → List Bytes
completions s [] = []
completions s (u ∷ us) = let rest = completions s us in if is_prefix s u then u ∷ rest else rest

abbrev at : Bytes → List Bytes → ℕ → Option Bytes
at s us i =
    if leb (length us) i
    then none
    else if is_prefix s (get_or us i [])
    then some (get_or us i [])
    else none

completions_none :
    (s u : Bytes) (us : List Bytes)
    → str_leb s u ≡ true
    → is_prefix s u ≡ false
    → All (λ v. str_leb u v ≡ true) us
    → completions s us ≡ []
completions_none s u [] h k l = refl
completions_none s u (v ∷ vs) h k l = elim (Bool-cases (is_prefix s v)) [
  | inl e ↦ let other = prefix-between s u v h l.0 e in cc (k, other)
  | inr e ↦ rw e (completions_none s u vs h k l.1)
]

at-none :
    (s u : Bytes) (us : List Bytes) (i : ℕ)
    → str_leb s u ≡ true
    → is_prefix s u ≡ false
    → All (λ v. str_leb u v ≡ true) us
    → at s us i ≡ none
at-none s u us i h k l = elim (Bool-cases (leb (length us) i)) [
  | inl e ↦ rw e
  | inr e ↦ elim (Bool-cases (is_prefix s (get_or us i []))) [
    | inl p ↦
        let other =
          prefix-between s u (get_or us i []) h (All-get_or u us i l (ground (arith, e))) p in
        cc (k, other)
    | inr p ↦ rw (e, p)
  ]
]

at-suc : (s u : Bytes) (us : List Bytes) (i : ℕ) → at s (u ∷ us) (suc i) ≡ at s us i
at-suc s u us i = ground arith

-- All the uris are at least the text.
from_text :
    (s : Bytes) (us : List Bytes) (n : ℕ)
    → IsSorted us
    → All (λ v. str_leb s v ≡ true) us
    → at s us n ≡ get_elem? (completions s us) n
from_text s [] n h k = ground arith
from_text s (u ∷ us) zero h k =
    let some_entry : leb (suc (length us)) 0 ≡ false = ground arith in
    elim (Bool-cases (is_prefix s u)) [
      | inl e ↦ rw (e, some_entry) refl
      | inr e ↦ rw (e, completions_none s u us k.0 e h.0, some_entry) refl
    ]
from_text s (u ∷ us) (suc n) h k = elim (Bool-cases (is_prefix s u)) [
  | inl e ↦ rw e (at-suc s u us n ∙ from_text s us n h.1 k.1)
  | inr e ↦ rw (e, completions_none s u us k.0 e h.0) (at-suc s u us n ∙ at-none s u us n k.0 e h.0)
]

rank_here : (s u : Bytes) (us : List Bytes) (n : ℕ) → str_leb s u ≡ true → rank s (u ∷ us) + n ≡ n
rank_here s u us n e = ground (arith, e)

rank_later :
    (s u : Bytes) (us : List Bytes) (n : ℕ)
    → str_leb s u ≡ false
    → rank s (u ∷ us) + n ≡ suc (rank s us + n)
rank_later s u us n e = ground (arith, e)

completions_skip :
    (s u : Bytes) (us : List Bytes)
    → is_prefix s u ≡ false
    → completions s (u ∷ us) ≡ completions s us
completions_skip s u us e = rw e refl

from_rank :
    (s : Bytes) (us : List Bytes) (n : ℕ)
    → IsSorted us
    → at s us (rank s us + n) ≡ get_elem? (completions s us) n
from_rank s [] n h = ground arith
from_rank s (u ∷ us) n h = elim (Bool-cases (str_leb s u)) [
  | inl e ↦
      ap (at s (u ∷ us)) (rank_here s u us n e)
      ∙ from_text s (u ∷ us) n h (e, All-weaken s u us e h.0)
  | inr e ↦ elim (Bool-cases (is_prefix s u)) [
    | inl p ↦ cc (e, prefix-below s u p)
    | inr p ↦
        ap (at s (u ∷ us)) (rank_later s u us n e)
        ∙ at-suc s u us (rank s us + n)
        ∙ from_rank s us n h.1
        ∙ ap (λ l. get_elem? l n) (sym (completions_skip s u us p))
  ]
]

pick_lem :
    (us : List Bytes) (s : Bytes) (n : ℕ)
    → IsSorted us
    → pick_nth_match us s n ≡ get_elem? (completions s us) n
unfolding pick_nth_match
pick_lem us s n sorted =
    let pos : lower_bound s us + n ≡ rank s us + n =
      ap (λ r. r + n) (lower_bound-rank s us sorted) in
    rw (pos, startswith_lem s (get_or us (rank s us + n) [])) (from_rank s us n sorted)

-- From the list of uris that contain a text, the n-th match of a prefix is the n-th uri of the list that starts
-- with it, counted from 0, and none if there are not so many.
pub pick_nth_match_lem :
    (uris : List Bytes) (sub : Option Bytes) (pre : Bytes) (n : ℕ)
    → pick_nth_match (create_sorted_uris sub uris) pre n
      ≡ get_elem? (completions pre (create_sorted_uris sub uris)) n
unfolding create_sorted_uris
pick_nth_match_lem uris sub pre n =
    pick_lem (create_sorted_uris sub uris) pre n (sort_uris-IsSorted (enumerate sub uris))
