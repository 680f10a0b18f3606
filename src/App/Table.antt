-- ===== src/App/Table.antt =====
-- The hash tables of uthash (`HASH_FIND`, `HASH_ADD`, `HASH_DEL`, `HASH_ITER`), which are not part of the
-- repository: a type of tables with the operations that the program calls, and what their manual says.
use tweaktool.Common.{
  ◌≡◌, ◌≢◌, Option, none, some, List, All, ◌⊎◌, inl, inr, sym, ◌∙◌, subst, Bool, true,
  if◌then◌else◌, ◌↔◌, Bool-cases,
}
use mathlib.Core.List.{Memᴰ}

-- `update` is a store through the pointer that `find` returned. `entries` is the order of `HASH_ITER`.
pub record Table (K V : Type 0) : Type 1 where
  pub Map : Type 0
  pub empty : Map
  pub find : K → Map → Option V
  pub add : K → V → Map → Map
  pub delete : K → Map → Map
  pub update : K → V → Map → Map
  pub entries : Map → List (K × V)
  pub find-empty : (k : K) → find k empty ≡ none
  pub find-add_self : (k : K) (v : V) (m : Map) → find k m ≡ none → find k (add k v m) ≡ some v
  pub find-add_ne :
      (k j : K) (v : V) (m : Map) → find k m ≡ none → k ≢ j → find j (add k v m) ≡ find j m
  pub find-delete_self : (k : K) (m : Map) → find k (delete k m) ≡ none
  pub find-delete_ne : (k j : K) (m : Map) → k ≢ j → find j (delete k m) ≡ find j m
  pub find-update_self :
      (k : K) (v w : V) (m : Map) → find k m ≡ some w → find k (update k v m) ≡ some v
  pub find-update_ne : (k j : K) (v : V) (m : Map) → k ≢ j → find j (update k v m) ≡ find j m
  pub entries-found : (m : Map) → All (λ e. find e.0 m ≡ some e.1) (entries m)
  pub found-entries : (k : K) (v : V) (m : Map) → find k m ≡ some v → Memᴰ (k, v) (entries m)

-- What an entry of a changed table was before the change.
module _ {K V : Type 0} (T : Table K V) (same : (a b : K) → (a ≡ b) ⊎ (a ≢ b)) where
  pub found-add :
      (k j : K) (v w : V) (m : T.Map)
      → T.find k m ≡ none
      → T.find j (T.add k v m) ≡ some w
      → (k ≡ j) × (w ≡ v) ⊎ (k ≢ j) × (T.find j m ≡ some w)
  found-add k j v w m free e = elim (same k j) [
    | inl p ↦
        inl (p, cc (subst (λ x. T.find x (T.add k v m) ≡ some v) p (T.find-add_self k v m free), e))
    | inr p ↦ inr (p, sym (T.find-add_ne k j v m free p) ∙ e)
  ]

  pub found-delete :
      (k j : K) (w : V) (m : T.Map)
      → T.find j (T.delete k m) ≡ some w
      → (k ≢ j) × (T.find j m ≡ some w)
  found-delete k j w m e = elim (same k j) [
    | inl p ↦
        absurd (cc (subst (λ x. T.find x (T.delete k m) ≡ none) p (T.find-delete_self k m), e))
    | inr p ↦ (p, sym (T.find-delete_ne k j m p) ∙ e)
  ]

  pub found-update :
      (k j : K) (v w u : V) (m : T.Map)
      → T.find k m ≡ some u
      → T.find j (T.update k v m) ≡ some w
      → (k ≡ j) × (w ≡ v) ⊎ (k ≢ j) × (T.find j m ≡ some w)
  found-update k j v w u m old e = elim (same k j) [
    | inl p ↦ inl (
      p,
      cc (subst (λ x. T.find x (T.update k v m) ≡ some v) p (T.find-update_self k v u m old), e),
    )
    | inr p ↦ inr (p, sym (T.find-update_ne k j v m p) ∙ e)
  ]

-- The laws of a change at every key, over a test of equality of keys.
module _ {K V : Type 0} (T : Table K V) (test : K → K → Bool)
    (iff : (a b : K) → (test a b ≡ true) ↔ (a ≡ b)) where
  pub find-delete :
      (k j : K) (m : T.Map) → T.find j (T.delete k m) ≡ (if test k j then none else T.find j m)
  find-delete k j m = elim (Bool-cases (test k j)) [
    | inl e ↦
        rw e (subst (λ x. T.find x (T.delete k m) ≡ none) ((iff k j).0 e) (T.find-delete_self k m))
    | inr e ↦ rw e (T.find-delete_ne k j m (λ p. cc (e, (iff k j).1 p)))
  ]

  pub find-update :
      (k j : K) (v w : V) (m : T.Map)
      → T.find k m ≡ some w
      → T.find j (T.update k v m) ≡ (if test k j then some v else T.find j m)
  find-update k j v w m old = elim (Bool-cases (test k j)) [
    | inl e ↦ rw e (
        subst (λ x. T.find x (T.update k v m) ≡ some v) ((iff k j).0 e)
          (T.find-update_self k v w m old))
    | inr e ↦ rw e (T.find-update_ne k j v m (λ p. cc (e, (iff k j).1 p)))
  ]

  pub find-add :
      (k j : K) (v : V) (m : T.Map)
      → T.find k m ≡ none
      → T.find j (T.add k v m) ≡ (if test k j then some v else T.find j m)
  find-add k j v m free = elim (Bool-cases (test k j)) [
    | inl e ↦
        rw e (
          subst (λ x. T.find x (T.add k v m) ≡ some v) ((iff k j).0 e) (T.find-add_self k v m free))
    | inr e ↦ rw e (T.find-add_ne k j v m free (λ p. cc (e, (iff k j).1 p)))
  ]
