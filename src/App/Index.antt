-- ===== src/App/Index.antt =====
-- tweak-app/src/tweakmodel_uri_to_tweak_id_index.c: the ids by the items' uris.
use tweaktool.Common.{
  ℕ, Bool, true, false, Option, none, some, List, [], ◌∷◌, Bytes, if◌then◌else◌, ◌>>=◌, ◌≡◌, arith,
}
use tweaktool.App.Table.{Table}
use tweaktool.App.Item.{invalid_id}

-- `tweak_model_index_result`
pub data IndexResult : Type 0 where
  success key_already_exists key_not_found no_memory : IndexResult

-- `HASH_ITER` with a call of `proc` at each pair, until one returns false; a call without defined
-- behaviour is `none`.
unfoldable pub walk_pairs {ℓ} :
    {S : Type ℓ} → (Bytes → ℕ → S → Option (Bool × S)) → List (Bytes × ℕ) → S → Option (Bool × S)
walk_pairs proc [] s = some (true, s)
walk_pairs proc ((uri, id) ∷ pairs) s = proc uri id s >>= λ r.
    let (go_on, s') = r in
    let rest = walk_pairs proc pairs s' in if go_on then rest else some (false, s')

pub walk_pairs_step {ℓ} :
    {S : Type ℓ} (proc : Bytes → ℕ → S → Option (Bool × S)) (uri : Bytes) (id : ℕ)
    (pairs : List (Bytes × ℕ)) (s s' : S) (go_on : Bool)
    → proc uri id s ≡ some (go_on, s')
    → walk_pairs proc ((uri, id) ∷ pairs) s
      ≡ (if go_on then walk_pairs proc pairs s' else some (false, s'))
unfolding walk_pairs
walk_pairs_step proc uri id pairs s s' go_on e = rw e

module _ (I : Table Bytes ℕ) where
  unfoldable pub insert : Bool → Bool → I.Map → Bytes → ℕ → IndexResult × I.Map
  insert pair_allocated key_allocated i uri id = elim (I.find uri i) [
    | some _ ↦ (key_already_exists, i)
    | none ↦
        if pair_allocated
        then (if key_allocated then (success, I.add uri id i) else (no_memory, i))
        else (no_memory, i)
  ]

  unfoldable pub walk {ℓ} :
      {S : Type ℓ} → (Bytes → ℕ → S → Option (Bool × S)) → I.Map → S → Option (Bool × S)
  unfolding walk_pairs
  walk proc i s = walk_pairs proc (I.entries i) s

  unfoldable pub lookup : I.Map → Bytes → ℕ
  lookup i uri = elim (I.find uri i) [ some id ↦ id | none ↦ invalid_id ]

  unfoldable pub remove : I.Map → Bytes → IndexResult × I.Map
  remove i uri = elim (I.find uri i) [
    | none ↦ (key_not_found, i)
    | some _ ↦ (success, I.delete uri i)
  ]

  pub lookup_found : (i : I.Map) (uri : Bytes) (id : ℕ) → I.find uri i ≡ some id → lookup i uri ≡ id
  unfolding lookup
  lookup_found i uri id e = ground arith

  pub lookup_missing : (i : I.Map) (uri : Bytes) → I.find uri i ≡ none → lookup i uri ≡ invalid_id
  unfolding lookup
  lookup_missing i uri e = ground arith
