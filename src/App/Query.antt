-- ===== src/App/Query.antt =====
-- tweak-app/src/tweakappcommon.c: what a program asks a context about its items.
use tweaktool.Common.{
  ℕ, ◌≡◌, refl, sym, ◌∙◌, ap, Bool, true, false, Option, none, some, List, [], ◌∷◌, Bytes, All,
  if◌then◌else◌,
}
use mathlib.Core.List.{Memᴰ}
use tweaktool.Variant.{Variant, VariantType, null}
use tweaktool.App.Table.{Table}
use tweaktool.App.Item.{Item, AppError}
use tweaktool.App.Index
use tweaktool.App.Index.{walk_pairs, walk_pairs_step}
use tweaktool.App.Paired.{Paired}

-- `tweak_app_item_snapshot`
pub record Snapshot : Type 0 where
  pub id : ℕ
  pub uri : Bytes
  pub description : Bytes
  pub meta : Bytes
  pub default_value : Variant
  pub current_value : Variant

unfoldable pub snapshot_of : Item → Snapshot
snapshot_of item = record {
  id = item.id;
  uri = item.uri;
  description = item.description;
  meta = item.meta;
  default_value = item.default_value;
  current_value = item.current_value;
}

some-inj {ℓ} : {A : Type ℓ} {a b : A} → some a ≡ some b → a ≡ b
some-inj p = cc (p)

-- A callback with its cookie.
abbrev pub Callback : Type 0 → Type 0
Callback S = Snapshot → S → Bool × S

module _ (M : Table ℕ Item) (I : Table Bytes ℕ) where
  unfoldable pub index_traverse_proc :
      {S : Type 0} → Callback S → M.Map → Bytes → ℕ → S → Option (Bool × S)
  unfolding snapshot_of
  index_traverse_proc callback model uri id cookie = elim (M.find id model) [
    | none ↦ none
    | some item ↦ some (callback (snapshot_of item) cookie)
  ]

  unfoldable pub traverse_items : {S : Type 0} → Callback S → M.Map → I.Map → S → Option (Bool × S)
  unfolding index_traverse_proc Index.walk
  traverse_items callback model index cookie =
      Index.walk I (index_traverse_proc callback model) index cookie

  unfoldable pub get_snapshot : M.Map → ℕ → Option Snapshot
  unfolding snapshot_of
  get_snapshot model id = elim (M.find id model) [
    | none ↦ none
    | some item ↦ some (snapshot_of item)
  ]

  unfoldable pub get_type : M.Map → ℕ → VariantType
  get_type model id = elim (M.find id model) [ none ↦ null | some item ↦ item.default_value.type ]

  -- What is stored in `value`, if anything.
  unfoldable pub clone_current_value : M.Map → ℕ → AppError × Option Variant
  clone_current_value model id = elim (M.find id model) [
    | none ↦ (AppError.item_not_found, none)
    | some item ↦ (AppError.success, some item.current_value)
  ]

  -- A callback on snapshots in turn, until it says stop.
  abbrev pub visit : {S : Type 0} → Callback S → List Snapshot → S → Bool × S
  visit callback [] cookie = (true, cookie)
  visit callback (x ∷ xs) cookie =
      let rest = visit callback xs (callback x cookie).1 in
      if (callback x cookie).0 then rest else (false, (callback x cookie).1)

  -- The snapshots of the items that pairs of the index lead to, in their order.
  pub data Shows (model : M.Map) : List (Bytes × ℕ) → List Snapshot → Type 0 where
    end : Shows model [] []
    next :
        {uri : Bytes} {id : ℕ} {item : Item} {pairs : List (Bytes × ℕ)} {xs : List Snapshot}
        → M.find id model ≡ some item
        → Shows model pairs xs
        → Shows model ((uri, id) ∷ pairs) (snapshot_of item ∷ xs)

  shown :
      {model : M.Map} {index : I.Map}
      → Paired M I model index
      → (pairs : List (Bytes × ℕ)) → All (λ e. I.find e.0 index ≡ some e.1) pairs
      → (xs : List Snapshot) × Shows model pairs xs
  shown k [] h = ([], Shows.end)
  shown k ((uri, id) ∷ pairs) h =
      let (item, found, _) = k.indexed uri id h.0 in
      let (xs, rest) = shown k pairs h.1 in (snapshot_of item ∷ xs, Shows.next found rest)

  go_on :
      {S : Type 0} {rest : Option (Bool × S)} {more : Bool × S} (r : Bool × S)
      → rest ≡ some more
      → (if r.0 then rest else some (false, r.1)) ≡ some (if r.0 then more else (false, r.1))
  go_on (true, s) e = e
  go_on (false, s) e = refl

  visited :
      {S : Type 0} (callback : Callback S) {model : M.Map} {pairs : List (Bytes × ℕ)}
      {xs : List Snapshot}
      → Shows model pairs xs
      → (cookie : S)
      → walk_pairs (index_traverse_proc callback model) pairs cookie
        ≡ some (visit callback xs cookie)
  unfolding walk_pairs index_traverse_proc
  visited callback Shows.end cookie = refl
  visited callback {model} (Shows.next {uri} {id} {item} {pairs} {xs} found rest) cookie =
      let here : index_traverse_proc callback model uri id cookie
          ≡ some (callback (snapshot_of item) cookie) =
        rw (index_traverse_proc, found) in
      walk_pairs_step (index_traverse_proc callback model) uri id pairs cookie
        (callback (snapshot_of item) cookie).1 (callback (snapshot_of item) cookie).0 here
      ∙ go_on (callback (snapshot_of item) cookie)
          (visited callback rest (callback (snapshot_of item) cookie).1)

  Shows-Memᴰ :
      {model : M.Map} {pairs : List (Bytes × ℕ)} {xs : List Snapshot} {uri : Bytes} {id : ℕ}
      {item : Item}
      → Shows model pairs xs
      → Memᴰ (uri, id) pairs
      → M.find id model ≡ some item
      → Memᴰ (snapshot_of item) xs
  Shows-Memᴰ Shows.end m found = elim m [ ]
  Shows-Memᴰ {model} (Shows.next here rest) (Memᴰ.head e) found =
      let same = ap (λ (p : Bytes × ℕ). M.find p.1 model) e in
      Memᴰ.head (ap snapshot_of (some-inj (sym found ∙ same ∙ here)))
  Shows-Memᴰ (Shows.next here rest) (Memᴰ.tail m) found = Memᴰ.tail (Shows-Memᴰ rest m found)

  -- In a context whose model and index describe the same items, a traversal with any callback runs through
  -- without a failed assertion, and calls it on the same snapshots in the same order, until it says stop: one for
  -- each pair of the index, and among them the snapshot of every item.
  pub traverse_items_lem :
      (model : M.Map) (index : I.Map)
      → Paired M I model index
      → (xs : List Snapshot) × Shows model (I.entries index) xs
        × ((S : Type 0) (callback : Callback S) (cookie : S)
            → traverse_items callback model index cookie ≡ some (visit callback xs cookie))
        × ((id : ℕ) (item : Item) → M.find id model ≡ some item → Memᴰ (snapshot_of item) xs)
  unfolding traverse_items Index.walk
  traverse_items_lem model index k =
      let (xs, shows) = shown k (I.entries index) (I.entries-found index) in
      (
        xs,
        shows,
        λ S callback cookie. visited callback shows cookie,
        λ id item found.
            Shows-Memᴰ shows (I.found-entries item.uri id index (k.listed id item found).1) found,
      )
