-- ===== src/App/Server/Consistent.antt =====
-- What holds of a server context between its calls: the model and the index describe the same items, and
-- no id is used before it is given out.
use tweaktool.Common.{
  ℕ, suc, ◌^◌, ◌<◌, ◌≡◌, sym, ◌∙◌, inl, inr, none, some, Bytes, arith, Option-cases,
}
use tweaktool.App.Table.{Table, found-add, found-delete, found-update}
use tweaktool.App.Item.{Item}
use tweaktool.App.Paired.{Paired, same_id, add-Paired, remove-Paired, update-Paired, same-Paired}
use tweaktool.App.Server.{Server}

module _ (M : Table ℕ Item) (I : Table Bytes ℕ) where
  pub record Linked (model : M.Map) (index : I.Map) (seed : ℕ) : Type 0 where
    pub paired : Paired M I model index
    pub given : (id : ℕ) (item : Item) → M.find id model ≡ some item → id < seed
    pub seeded : (0 < seed) × (seed < 2 ^ 64)

  abbrev pub IsConsistent : Server M I → Type 0
  IsConsistent s = Linked s.model s.index s.seed

  module _ {model : M.Map} {index : I.Map} {seed : ℕ} (k : Linked model index seed) where
    -- An id that has not been given out is not in the model.
    pub seed-free : M.find seed model ≡ none
    seed-free = elim (Option-cases (M.find seed model)) [
      | inl e ↦ e
      | inr (item, e) ↦ absurd (omega (arith, k.given seed item e))
    ]

    pub add-Linked :
        (item : Item) (uri : Bytes)
        → item.id ≡ seed
        → item.uri ≡ uri
        → I.find uri index ≡ none
        → suc seed < 2 ^ 64
        → Linked (M.add seed item model) (I.add uri seed index) (suc seed)
    add-Linked item uri id_eq uri_eq free room = record {
      paired =
          add-Paired M I k.paired seed item uri id_eq uri_eq (λ h. omega (arith, k.seeded, h))
            seed-free free;
      given = λ id x e. elim (found-add M same_id seed id item x model seed-free e) [
        | inl (p, q) ↦ omega (arith, k.seeded)
        | inr (p, q) ↦ omega (arith, k.given id x q)
      ];
      seeded = omega arith;
    }

    pub remove-Linked :
        (id : ℕ) (item : Item)
        → M.find id model ≡ some item
        → Linked (M.delete id model) (I.delete item.uri index) seed
    remove-Linked id item found = record {
      paired = remove-Paired M I k.paired id item found;
      given = λ j x e. k.given j x (found-delete M same_id id j x model e).1;
      seeded = k.seeded;
    }

    pub update-Linked :
        (id : ℕ) (item new : Item)
        → M.find id model ≡ some item
        → new.id ≡ item.id
        → new.uri ≡ item.uri
        → Linked (M.update id new model) index seed
    update-Linked id item new found id_eq uri_eq = record {
      paired = update-Paired M I k.paired id item new found id_eq uri_eq;
      given = λ j x e. elim (found-update M same_id id j new x item model found e) [
        | inl (p, q) ↦ omega (arith, k.given id item found)
        | inr (p, q) ↦ k.given j x q
      ];
      seeded = k.seeded;
    }

    -- Taking back an item that was just added leaves every item as it was.
    pub take_back :
        (item : Item) (j : ℕ) → M.find j (M.delete seed (M.add seed item model)) ≡ M.find j model
    take_back item j = elim (same_id seed j) [
      | inl p ↦ cc (M.find-delete_self seed (M.add seed item model), seed-free, p)
      | inr p ↦
          M.find-delete_ne seed j (M.add seed item model) p
          ∙ M.find-add_ne seed j item model seed-free p
    ]

    pub same-Linked :
        (other : M.Map)
        → ((j : ℕ) → M.find j other ≡ M.find j model)
        → suc seed < 2 ^ 64
        → Linked other index (suc seed)
    same-Linked other eq room = record {
      paired = same-Paired M I k.paired other eq;
      given = λ j x e. omega (arith, k.given j x (sym (eq j) ∙ e));
      seeded = omega arith;
    }
