-- ===== src/Cli/Uris.antt =====
-- tweak-app-cl/src/tweakuriutil.c: the sorted list of uris, and its entries that complete a prefix. Allocation succeeds.
use tweaktool.Common.{
  ℕ, zero, suc, ◌+◌, ◌-◌, ◌/◌, Bool, true, false, ◌||◌, Option, none, some, List, [], ◌∷◌, length,
  take, get_or, ltb, leb, str_eq, if◌then◌else◌, Bytes,
}

-- `strcmp(s, t) <= 0`
unfoldable pub str_leb : Bytes → Bytes → Bool
str_leb [] t = true
str_leb (c ∷ s) [] = false
str_leb (c ∷ s) (d ∷ t) =
    let rest = str_leb s t in if ltb c d then true else if ltb d c then false else rest

unfoldable pub startswith : Bytes → Bytes → Bool
unfolding str_eq
startswith pre str =
    if ltb (length str) (length pre) then false else str_eq pre (take (length pre) str)

-- `strstr(str, sub) != NULL`
unfoldable pub contains : Bytes → Bytes → Bool
unfolding startswith
contains sub [] = startswith sub []
contains sub (c ∷ s) = let later = contains sub s in startswith sub (c ∷ s) || later

-- No substring accepts every uri.
unfoldable pub matches : Option Bytes → Bytes → Bool
unfolding contains
matches none u = true
matches (some sub) u = contains sub u

-- The uris that a traversal of the items collects.
unfoldable pub enumerate : Option Bytes → List Bytes → List Bytes
unfolding matches
enumerate sub [] = []
enumerate sub (u ∷ uris) = let rest = enumerate sub uris in if matches sub u then u ∷ rest else rest

-- `qsort` by strcmp: equal strings are the same, so that every sort gives this list.
unfoldable pub insert_sorted : Bytes → List Bytes → List Bytes
unfolding str_leb
insert_sorted u [] = u ∷ []
insert_sorted u (v ∷ vs) =
    let rest = insert_sorted u vs in if str_leb u v then u ∷ v ∷ vs else v ∷ rest

unfoldable pub sort_uris : List Bytes → List Bytes
unfolding insert_sorted
sort_uris [] = []
sort_uris (u ∷ us) = insert_sorted u (sort_uris us)

unfoldable pub create_sorted_uris : Option Bytes → List Bytes → List Bytes
unfolding enumerate sort_uris
create_sorted_uris sub uris = sort_uris (enumerate sub uris)

-- The loop of `lower_bound`; the interval shrinks in each round, so that its length is enough fuel.
unfoldable pub search : Bytes → List Bytes → ℕ → ℕ → ℕ → ℕ
unfolding str_leb
search needle uris zero low high = low
search needle uris (suc fuel) low high =
    let mid = low + (high - low) / 2 in
    let below = str_leb needle (get_or uris mid []) in
    let next =
      search needle uris fuel (if below then low else mid + 1) (if below then mid else high) in
    if ltb low high then next else low

unfoldable pub lower_bound : Bytes → List Bytes → ℕ
unfolding search
lower_bound needle uris = search needle uris (length uris) 0 (length uris)

-- For a match number that is not negative.
unfoldable pub pick_nth_match : List Bytes → Bytes → ℕ → Option Bytes
unfolding lower_bound startswith
pick_nth_match uris pre n =
    let pos = lower_bound pre uris + n in
    if leb (length uris) pos
    then none
    else if startswith pre (get_or uris pos [])
    then some (get_or uris pos [])
    else none
