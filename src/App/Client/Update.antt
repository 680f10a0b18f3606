-- ===== src/App/Client/Update.antt =====
-- The handlers that change or remove an item of the mirrored model.
use tweaktool.Common.{
  ℕ, ◌≡◌, refl, sym, ◌⊎◌, inl, inr, not, ◌&&◌, none, some, [], ◌∷◌, ◌++◌, Bytes, str_eq, str_eq_iff,
  arith, Option-cases, ◌==◌, ==_iff, subst, if◌then◌else◌,
}
use tweaktool.Variant.{Variant, is_equal}
use tweaktool.App.Table.{Table, find-delete, find-update}
use tweaktool.App.Item.{Item}
use tweaktool.App.Paired.{Paired, remove-Paired, update-Paired}
use tweaktool.App.Client.{
  Client, current_value_changed, item_removed, client_change_item, client_remove_item, report,
}

module _ (M : Table ℕ Item) (I : Table Bytes ℕ) (id : ℕ) (c : Client M I) where
  -- The context after the server changed the item's value.
  abbrev changed : Variant → Item → Client M I
  changed value item =
      report M I (c.callbacks.on_current_value_changed && not (is_equal value item.current_value))
        (current_value_changed item.id value)
        (record c { model = M.update id (record item { current_value = value }) c.model })

  abbrev removed : Item → Client M I
  removed item =
      report M I c.callbacks.on_item_removed (item_removed id)
        (record c { model = M.delete id c.model; index = I.delete item.uri c.index })

  change_unknown :
      (value : Variant) → M.find id c.model ≡ none → client_change_item M I id value c ≡ c
  unfolding client_change_item
  change_unknown value e = ground arith

  change_known :
      (value : Variant) (item : Item)
      → M.find id c.model ≡ some item
      → client_change_item M I id value c ≡ changed value item
  unfolding client_change_item
  change_known value item e = ground arith

  remove_unknown : M.find id c.model ≡ none → client_remove_item M I id c ≡ c
  unfolding client_remove_item
  remove_unknown e = ground arith

  remove_known :
      Paired M I c.model c.index
      → (item : Item) → M.find id c.model ≡ some item
      → client_remove_item M I id c ≡ removed item
  unfolding client_remove_item
  remove_known k item e = ground (arith, (k.listed id item e).1)

  -- What a change by the server leaves behind.
  abbrev pub Changes : Variant → Item → Client M I → Type 0
  Changes value item t =
      ((j : ℕ)
        → M.find j t.model
          ≡ (if id == j then some (record item { current_value = value }) else M.find j c.model))
      × (t.events ≡ (
          if c.callbacks.on_current_value_changed && not (is_equal value item.current_value)
          then c.events ++ (current_value_changed id value ∷ [])
          else c.events))
      × Paired M I t.model t.index

  -- In a client context whose model and index describe the same items, a change by the server of a known item
  -- sets its value, reports it if the program asked for that and the code takes the value for another one,
  -- leaves every other item as it was, and keeps model and index describing the same items. A change of an
  -- unknown item does nothing.
  pub client_change_item_lem :
      (value : Variant)
      → Paired M I c.model c.index
      → (M.find id c.model ≡ none) × (client_change_item M I id value c ≡ c)
        ⊎ ((item : Item) × (M.find id c.model ≡ some item)
            × Changes value item (client_change_item M I id value c))
  client_change_item_lem value k = elim (Option-cases (M.find id c.model)) [
    | inl e ↦ inl (e, change_unknown value e)
    | inr (item, e) ↦ inr (
      item,
      e,
      subst (Changes value item) (sym (change_known value item e)) (
        λ j.
            find-update M (λ a b. a == b) ==_iff id j (record item { current_value = value }) item
              c.model e,
        rw (k.listed id item e).0,
        update-Paired M I k id item (record item { current_value = value }) e refl refl,
      ),
    )
  ]

  -- What a removal by the server leaves behind.
  abbrev pub Drops : Item → Client M I → Type 0
  Drops item t =
      ((j : ℕ) → M.find j t.model ≡ (if id == j then none else M.find j c.model))
      × ((uri : Bytes)
          → I.find uri t.index ≡ (if str_eq item.uri uri then none else I.find uri c.index))
      × (t.events
          ≡ (if c.callbacks.on_item_removed then c.events ++ (item_removed id ∷ []) else c.events))
      × Paired M I t.model t.index

  -- In a client context whose model and index describe the same items, a removal by the server of a known item
  -- takes it out of both, reports it if the program asked for that, leaves every other id and uri as it was,
  -- and keeps model and index describing the same items. A removal of an unknown item does nothing.
  pub client_remove_item_lem :
      Paired M I c.model c.index
      → (M.find id c.model ≡ none) × (client_remove_item M I id c ≡ c)
        ⊎ ((item : Item) × (M.find id c.model ≡ some item)
            × Drops item (client_remove_item M I id c))
  client_remove_item_lem k = elim (Option-cases (M.find id c.model)) [
    | inl e ↦ inl (e, remove_unknown e)
    | inr (item, e) ↦ inr (
      item,
      e,
      subst (Drops item) (sym (remove_known k item e)) (
        λ j. find-delete M (λ a b. a == b) ==_iff id j c.model,
        λ uri. find-delete I str_eq str_eq_iff item.uri uri c.index,
        refl,
        remove-Paired M I k id item e,
      ),
    )
  ]
