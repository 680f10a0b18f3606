-- ===== src/App/Paired.antt =====
-- The relation between the model and the index of a context: they describe the same items.
use tweaktool.Common.{
  ℕ, ◌≡◌, sym, ◌∙◌, ap, ◌≢◌, ◌⊎◌, inl, inr, none, some, Bytes, str_eq, str_eq_iff, arith,
  Bool-cases, Option-cases, ◌==◌, ==_iff,
}
use tweaktool.App.Table.{Table, found-add, found-delete, found-update}
use tweaktool.App.Item.{Item, invalid_id}
use tweaktool.App.Index

-- To split on an equation of keys.
pub same_id : (a b : ℕ) → (a ≡ b) ⊎ (a ≢ b)
same_id a b = elim (Bool-cases (a == b)) [
  | inl e ↦ inl ((==_iff a b).0 e)
  | inr e ↦ inr (λ h. ground (arith, (==_iff a b).1 h))
]

pub same_uri : (s t : Bytes) → (s ≡ t) ⊎ (s ≢ t)
same_uri s t = elim (Bool-cases (str_eq s t)) [
  | inl e ↦ inl ((str_eq_iff s t).0 e)
  | inr e ↦ inr (λ h. cc (e, (str_eq_iff s t).1 h))
]

module _ (M : Table ℕ Item) (I : Table Bytes ℕ) where
  -- Each uri of the index leads to the item with that uri, and each item is in the index under its uri.
  pub record Paired (model : M.Map) (index : I.Map) : Type 0 where
    pub indexed :
        (uri : Bytes) (id : ℕ)
        → I.find uri index ≡ some id
        → (item : Item) × (M.find id model ≡ some item) × (item.uri ≡ uri)
    pub listed :
        (id : ℕ) (item : Item)
        → M.find id model ≡ some item
        → (item.id ≡ id) × (I.find item.uri index ≡ some id)
    pub nonzero : (id : ℕ) (item : Item) → M.find id model ≡ some item → id ≢ invalid_id

  pub empty-Paired : Paired M.empty I.empty
  empty-Paired = record {
    indexed = λ uri id e. absurd (cc (I.find-empty uri, e));
    listed = λ id item e. absurd (cc (M.find-empty id, e));
    nonzero = λ id item e. absurd (cc (M.find-empty id, e));
  }

  module _ {model : M.Map} {index : I.Map} (k : Paired model index) where
    -- The index gives the invalid id exactly where it has no entry.
    pub lookup-free :
        (uri : Bytes) → Index.lookup I index uri ≡ invalid_id → I.find uri index ≡ none
    unfolding Index.lookup
    lookup-free uri e = elim (Option-cases (I.find uri index)) [
      | inl free ↦ free
      | inr (id, taken) ↦ absurd (taken_nonzero id taken)
    ]
      where
        looked : (id : ℕ) → I.find uri index ≡ some id → id ≡ invalid_id
        looked id taken = rw (taken, Index.lookup) at e

        taken_nonzero : (id : ℕ) → I.find uri index ≡ some id → ⊥
        taken_nonzero id taken =
            let (item, found, _) = k.indexed uri id taken in
            k.nonzero id item found (looked id taken)

    pub add-Paired :
        (id : ℕ) (item : Item) (uri : Bytes)
        → item.id ≡ id
        → item.uri ≡ uri
        → id ≢ invalid_id
        → M.find id model ≡ none
        → I.find uri index ≡ none
        → Paired (M.add id item model) (I.add uri id index)
    add-Paired id item uri id_eq uri_eq valid vacant free = record {
      indexed = λ u j e. elim (found-add I same_uri uri u id j index free e) [
        | inl (p, q) ↦ (item, rw (q) (M.find-add_self id item model vacant), uri_eq ∙ p)
        | inr (p, q) ↦
            let (old, found, named) = k.indexed u j q in
            (old, M.find-add_ne id j item model vacant (λ h. differ j old h found) ∙ found, named)
      ];
      listed = λ j x e. elim (found-add M same_id id j item x model vacant e) [
        | inl (p, q) ↦ (
          ap (λ y. y.id) q ∙ id_eq ∙ p,
          cc (ap (λ y. y.uri) q, uri_eq, I.find-add_self uri id index free, p),
        )
        | inr (p, q) ↦
            let (id_of, entry) = k.listed j x q in
            (id_of, I.find-add_ne uri x.uri id index free (λ h. cc (free, entry, h)) ∙ entry)
      ];
      nonzero = λ j x e. elim (found-add M same_id id j item x model vacant e) [
        | inl (p, q) ↦ λ h. valid (p ∙ h)
        | inr (p, q) ↦ k.nonzero j x q
      ];
    }
      where
        differ : (j : ℕ) (old : Item) → id ≡ j → M.find j model ≡ some old → ⊥
        differ j old h found = cc (vacant, found, h)

    one_item :
        (i j : ℕ) (x y : Item) → i ≡ j → M.find i model ≡ some x → M.find j model ≡ some y → x ≡ y
    one_item i j x y p e f = cc

    pub remove-Paired :
        (id : ℕ) (item : Item)
        → M.find id model ≡ some item
        → Paired (M.delete id model) (I.delete item.uri index)
    remove-Paired id item found = record {
      indexed = λ u j e.
          let (other, entry) = found-delete I same_uri item.uri u j index e in
          let (old, was, named) = k.indexed u j entry in
          (
            old,
            M.find-delete_ne id j model
                  (λ h. other (ap (λ y. y.uri) (one_item id j item old h found was) ∙ named))
                ∙ was,
            named,
          );
      listed = λ j x e.
          let (other, was) = found-delete M same_id id j x model e in
          let (id_of, entry) = k.listed j x was in
          (
            id_of,
            I.find-delete_ne item.uri x.uri index
                  (λ h. other (cc ((k.listed id item found).1, entry, h)))
                ∙ entry,
          );
      nonzero = λ j x e. k.nonzero j x (found-delete M same_id id j x model e).1;
    }

    pub update-Paired :
        (id : ℕ) (item new : Item)
        → M.find id model ≡ some item
        → new.id ≡ item.id
        → new.uri ≡ item.uri
        → Paired (M.update id new model) index
    update-Paired id item new found id_eq uri_eq = record {
      indexed = λ u j e.
          let (old, was, named) = k.indexed u j e in
          elim (same_id id j) [
            | inl p ↦ (
              new,
              cc (M.find-update_self id new item model found, p),
              uri_eq ∙ ap (λ y. y.uri) (one_item id j item old p found was) ∙ named,
            )
            | inr p ↦ (old, M.find-update_ne id j new model p ∙ was, named)
          ];
      listed = λ j x e. elim (found-update M same_id id j new x item model found e) [
        | inl (p, q) ↦
            let (id_of, entry) = k.listed id item found in
            (ap (λ y. y.id) q ∙ id_eq ∙ id_of ∙ p, cc (ap (λ y. y.uri) q, uri_eq, entry, p))
        | inr (p, q) ↦ k.listed j x q
      ];
      nonzero = λ j x e. elim (found-update M same_id id j new x item model found e) [
        | inl (p, q) ↦ λ h. k.nonzero id item found (p ∙ h)
        | inr (p, q) ↦ k.nonzero j x q
      ];
    }

    pub same-Paired :
        (other : M.Map) → ((j : ℕ) → M.find j other ≡ M.find j model) → Paired other index
    same-Paired other eq = record {
      indexed = λ u j e. let (old, was, named) = k.indexed u j e in (old, eq j ∙ was, named);
      listed = λ j x e. k.listed j x (sym (eq j) ∙ e);
      nonzero = λ j x e. k.nonzero j x (sym (eq j) ∙ e);
    }
