-- ===== src/App/Client/Replace.antt =====
-- `replace_current_value`: the program's own changes of mirrored values.
use tweaktool.Common.{
  ℕ, ◌≡◌, refl, sym, ◌∙◌, ap, ◌⊎◌, inl, inr, Bool, true, false, not, ◌&&◌, none, some, [], ◌∷◌,
  ◌++◌, Bytes, arith, Bool-cases, Option-cases, subst, if◌then◌else◌,
}
use tweaktool.Variant.{Variant, is_equal}
use tweaktool.App.Table.{Table}
use tweaktool.App.Item.{Item, AppError}
use tweaktool.App.Features.{check_type_compatibility}
use tweaktool.App.Compatibility.{check_value_compatibility}
use tweaktool.App.Paired.{Paired, update-Paired}
use tweaktool.App.Client.{Client, change, client_replaces_value, replace_mirrored_value, enqueue}

module _ (M : Table ℕ Item) (I : Table Bytes ℕ) (id : ℕ) (c : Client M I) where
  -- The context after the program changed the item's value.
  abbrev pub replaced : Variant → Item → Client M I
  replaced value item = record c {
    model = M.update id (record item { current_value = value }) c.model;
    pushed =
        if check_type_compatibility c.remote_peer_features item.current_value.type
        then c.pushed ++ (change id ∷ [])
        else c.pushed;
  }

  -- A change by the program, without a change of the context where it is refused.
  abbrev pub replace_result : Variant → AppError × Client M I
  replace_result value = elim (M.find id c.model) [
    | none ↦ (AppError.item_not_found, c)
    | some item ↦
        if not (check_value_compatibility item.current_value value)
        then (AppError.type_mismatch, c)
        else if not c.connected
        then (AppError.peer_disconnected, c)
        else if is_equal item.current_value value
        then (AppError.success, c)
        else (AppError.success, replaced value item)
  ]

  replace_stored : Variant → Item → Client M I
  replace_stored value item = record c {
    model = M.update id (record item { current_value = value }) c.model;
  }

  -- The three tests of a change by the program at a known id.
  replace_known :
      (value : Variant) (item : Item)
      → M.find id c.model ≡ some item
      → client_replaces_value M I id value c ≡ (
          if check_value_compatibility item.current_value value
          then (if c.connected
              then replace_mirrored_value M I id value c
              else (AppError.peer_disconnected, c))
          else (AppError.type_mismatch, c))
  unfolding client_replaces_value
  replace_known value item e = ground arith

  mirrored_known :
      (value : Variant) (item : Item)
      → M.find id c.model ≡ some item
      → replace_mirrored_value M I id value c ≡ (
          if is_equal item.current_value value then (AppError.success, c) else (
            AppError.success,
            if check_type_compatibility c.remote_peer_features item.current_value.type
                  && c.connected
                then enqueue M I (change id) (replace_stored value item)
                else replace_stored value item,
          ))
  unfolding replace_mirrored_value replace_stored
  mirrored_known value item e = ground arith

  stored-replaced :
      (value : Variant) (item : Item)
      → c.connected ≡ true
      → (if check_type_compatibility c.remote_peer_features item.current_value.type && c.connected
          then enqueue M I (change id) (replace_stored value item)
          else replace_stored value item)
        ≡ replaced value item
  unfolding replace_stored
  stored-replaced value item on =
      elim (Bool-cases (check_type_compatibility c.remote_peer_features item.current_value.type)) [
        | inl good ↦ ground (arith, good, on)
        | inr bad ↦ ground (arith, bad, on)
      ]

  result_known :
      (value : Variant) (item : Item)
      → M.find id c.model ≡ some item
      → replace_result value ≡ (
          if not (check_value_compatibility item.current_value value)
          then (AppError.type_mismatch, c)
          else if not c.connected
          then (AppError.peer_disconnected, c)
          else if is_equal item.current_value value
          then (AppError.success, c)
          else (AppError.success, replaced value item))
  result_known value item e = ground arith

  replace_missing :
      (value : Variant)
      → M.find id c.model ≡ none
      → client_replaces_value M I id value c ≡ replace_result value
  unfolding client_replaces_value
  replace_missing value e = ground arith

  replace_tests :
      (value : Variant) (item : Item)
      → M.find id c.model ≡ some item
      → (if check_value_compatibility item.current_value value
          then (if c.connected
              then replace_mirrored_value M I id value c
              else (AppError.peer_disconnected, c))
          else (AppError.type_mismatch, c))
        ≡ (if not (check_value_compatibility item.current_value value)
            then (AppError.type_mismatch, c)
            else if not c.connected
            then (AppError.peer_disconnected, c)
            else if is_equal item.current_value value
            then (AppError.success, c)
            else (AppError.success, replaced value item))
  replace_tests value item e =
      tests (check_value_compatibility item.current_value value) c.connected
        (is_equal item.current_value value)
        (λ on.
          mirrored_known value item e
          ∙ ap
              (λ t.
                if is_equal item.current_value value
                then (AppError.success, c)
                else (AppError.success, t))
              (stored-replaced value item on))
    where
      tests :
          (compatible on same : Bool)
          → (on ≡ true
              → replace_mirrored_value M I id value c
                ≡ (if same then (AppError.success, c) else (AppError.success, replaced value item)))
          → (if compatible
              then (if on
                  then replace_mirrored_value M I id value c
                  else (AppError.peer_disconnected, c))
              else (AppError.type_mismatch, c))
            ≡ (if not compatible
                then (AppError.type_mismatch, c)
                else if not on
                then (AppError.peer_disconnected, c)
                else if same
                then (AppError.success, c)
                else (AppError.success, replaced value item))
      tests false on same h = refl
      tests true false same h = refl
      tests true true same h = h refl

  pub client_replaces_value_result :
      (value : Variant) → client_replaces_value M I id value c ≡ replace_result value
  client_replaces_value_result value = elim (Option-cases (M.find id c.model)) [
    | inl e ↦ replace_missing value e
    | inr (item, e) ↦
        replace_known value item e ∙ replace_tests value item e ∙ sym (result_known value item e)
  ]

  replace_effect :
      (value : Variant)
      → ((client_replaces_value M I id value c).1 ≡ c)
        ⊎ ((item : Item) × (M.find id c.model ≡ some item)
            × ((client_replaces_value M I id value c).1 ≡ replaced value item))
  replace_effect value = elim (Option-cases (M.find id c.model)) [
    | inl e ↦ inl (ap (λ r. r.1) (client_replaces_value_result value) ∙ (ground (arith, e)))
    | inr (item, e) ↦ elim (Bool-cases (check_value_compatibility item.current_value value)) [
      | inr bad ↦
          inl (ap (λ r. r.1) (client_replaces_value_result value) ∙ (ground (arith, e, bad)))
      | inl ok ↦ elim (Bool-cases c.connected) [
        | inr off ↦
            inl (ap (λ r. r.1) (client_replaces_value_result value) ∙ (ground (arith, e, ok, off)))
        | inl on ↦ elim (Bool-cases (is_equal item.current_value value)) [
          | inl same ↦ inl (
              ap (λ r. r.1) (client_replaces_value_result value)
              ∙ (ground (arith, e, ok, on, same)))
          | inr new ↦ inr (
            item,
            e,
            ap (λ r. r.1) (client_replaces_value_result value) ∙ (ground (arith, e, ok, on, new)),
          )
        ]
      ]
    ]
  ]

  -- A change by the program keeps the mirrored model and its index describing the same items.
  pub client_replaces_value-Paired :
      (value : Variant)
      → Paired M I c.model c.index
      → Paired M I
          (client_replaces_value M I id value c).1.model
          (client_replaces_value M I id value c).1.index
  client_replaces_value-Paired value k = elim (replace_effect value) [
    | inl same ↦ subst (λ t. Paired M I t.model t.index) (sym same) k
    | inr (item, e, new) ↦
        subst (λ t. Paired M I t.model t.index) (sym new)
          (update-Paired M I k id item (record item { current_value = value }) e refl refl)
  ]
