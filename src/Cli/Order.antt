-- ===== src/Cli/Order.antt =====
-- The order of strcmp, sorted lists and prefixes (tweak-app-cl/src/tweakuriutil.c).
use tweaktool.Common.{
  ◌≡◌, refl, Bool, true, false, List, [], ◌∷◌, All, Bool-cases, inl, inr, ◌==◌, str_eq,
  if◌then◌else◌, Bytes, arith,
}
use tweaktool.Cli.Uris.{str_leb, startswith, insert_sorted, sort_uris}

-- A prefix, by its characters.
abbrev pub is_prefix : Bytes → Bytes → Bool
is_prefix [] t = true
is_prefix (c ∷ s) [] = false
is_prefix (c ∷ s) (d ∷ t) = let rest = is_prefix s t in if c == d then rest else false

pub startswith_lem : (s t : Bytes) → startswith s t ≡ is_prefix s t
unfolding startswith str_eq
startswith_lem [] t = ground arith
startswith_lem (c ∷ s) [] = ground arith
startswith_lem (c ∷ s) (d ∷ t) = ground (arith, startswith_lem s t)

-- A string with the prefix is not below it, and one between the prefix and such a string has it too.
pub prefix-below : (s t : Bytes) → is_prefix s t ≡ true → str_leb s t ≡ true
unfolding str_leb
prefix-below [] t h = refl
prefix-below (c ∷ s) [] h = cc (h)
prefix-below (c ∷ s) (d ∷ t) h = ground (arith, prefix-below s t)

pub prefix-between :
    (s u v : Bytes)
    → str_leb s u ≡ true
    → str_leb u v ≡ true
    → is_prefix s v ≡ true
    → is_prefix s u ≡ true
unfolding str_leb
prefix-between [] u v h k p = refl
prefix-between (c ∷ s) [] v h k p = cc (h)
prefix-between (c ∷ s) (d ∷ u) [] h k p = cc (k)
prefix-between (c ∷ s) (d ∷ u) (e ∷ v) h k p = ground (arith, prefix-between s u v)

pub str_leb_trans : (s t u : Bytes) → str_leb s t ≡ true → str_leb t u ≡ true → str_leb s u ≡ true
unfolding str_leb
str_leb_trans [] t u h k = refl
str_leb_trans (c ∷ s) [] u h k = cc (h)
str_leb_trans (c ∷ s) (d ∷ t) [] h k = cc (k)
str_leb_trans (c ∷ s) (d ∷ t) (e ∷ u) h k = ground (arith, str_leb_trans s t u)

str_leb_total : (s t : Bytes) → str_leb s t ≡ false → str_leb t s ≡ true
unfolding str_leb
str_leb_total [] t h = cc (h)
str_leb_total (c ∷ s) [] h = refl
str_leb_total (c ∷ s) (d ∷ t) h = ground (arith, str_leb_total s t)

abbrev pub IsSorted : List Bytes → Type 0
IsSorted [] = Unit {0}
IsSorted (u ∷ us) = All (λ v. str_leb u v ≡ true) us × IsSorted us

All-insert_sorted :
    (w u : Bytes) (us : List Bytes)
    → str_leb w u ≡ true
    → All (λ v. str_leb w v ≡ true) us
    → All (λ v. str_leb w v ≡ true) (insert_sorted u us)
unfolding insert_sorted
All-insert_sorted w u [] h k = (h, tt)
All-insert_sorted w u (v ∷ vs) h k = elim (Bool-cases (str_leb u v)) [
  | inl e ↦ rw e (h, k)
  | inr e ↦ rw e (k.0, All-insert_sorted w u vs h k.1)
]

pub All-weaken :
    (u v : Bytes) (us : List Bytes)
    → str_leb u v ≡ true
    → All (λ w. str_leb v w ≡ true) us
    → All (λ w. str_leb u w ≡ true) us
All-weaken u v [] h k = tt
All-weaken u v (w ∷ us) h k = (str_leb_trans u v w h k.0, All-weaken u v us h k.1)

insert_sorted-IsSorted : (u : Bytes) (us : List Bytes) → IsSorted us → IsSorted (insert_sorted u us)
unfolding insert_sorted
insert_sorted-IsSorted u [] h = (tt, tt)
insert_sorted-IsSorted u (v ∷ vs) h = elim (Bool-cases (str_leb u v)) [
  | inl e ↦ rw e ((e, All-weaken u v vs e h.0), h)
  | inr e ↦
      rw e (All-insert_sorted v u vs (str_leb_total u v e) h.0, insert_sorted-IsSorted u vs h.1)
]

pub sort_uris-IsSorted : (us : List Bytes) → IsSorted (sort_uris us)
unfolding sort_uris
sort_uris-IsSorted [] = tt
sort_uris-IsSorted (u ∷ us) = insert_sorted-IsSorted u (sort_uris us) (sort_uris-IsSorted us)
