-- ===== src/App/Client/Replies.antt =====
-- `replace_current_value`: when the program's own change of a mirrored value is refused, and what it does otherwise.
use tweaktool.Common.{
  ℕ, ◌≡◌, refl, sym, ◌∙◌, ap, ◌⊎◌, inl, inr, true, false, not, ◌&&◌, none, some, [], ◌∷◌, ◌++◌,
  Bytes, arith, Bool-cases, Option-cases, subst, if◌then◌else◌, ◌==◌, ==_iff,
}
use tweaktool.Variant.{Variant, is_equal, item_size, buffer_size}
use tweaktool.App.Table.{Table, find-update}
use tweaktool.App.Item.{Item, AppError}
use tweaktool.App.Features.{check_type_compatibility}
use tweaktool.App.Compatibility.{check_value_compatibility}
use tweaktool.App.Server.Change.{compatible-type, compatible-size}
use tweaktool.App.Client.{Client, change, client_replaces_value}
use tweaktool.App.Client.Replace.{replaced, replace_result, client_replaces_value_result}

module _ (M : Table ℕ Item) (I : Table Bytes ℕ) (id : ℕ) (c : Client M I) where
  -- Why a change is refused.
  abbrev pub Refuses : Variant → AppError → Type 0
  Refuses value error =
      (error ≡ AppError.item_not_found) × (M.find id c.model ≡ none)
      ⊎ (((item : Item) × (M.find id c.model ≡ some item)
            × (error ≡ AppError.type_mismatch)
            × (check_value_compatibility item.current_value value ≡ false))
          ⊎ (error ≡ AppError.peer_disconnected) × (c.connected ≡ false))

  -- What a change that succeeds found, and what it leaves behind.
  abbrev pub Succeeds : Variant → Item → Client M I → Type 0
  Succeeds value item t =
      (M.find id c.model ≡ some item)
      × (c.connected ≡ true)
      × (item.current_value.type ≡ value.type)
      × ((item_size value.type ≡ 0)
          ⊎ (buffer_size item.current_value.value ≡ buffer_size value.value))
      × ((j : ℕ)
          → M.find j t.model ≡ (
              if id == j
              then some (
                  if is_equal item.current_value value
                  then item
                  else record item { current_value = value })
              else M.find j c.model))
      × (t.pushed ≡ (
          if not (is_equal item.current_value value)
            && check_type_compatibility c.remote_peer_features value.type
          then c.pushed ++ (change id ∷ [])
          else c.pushed))
      × (t.index ≡ c.index)
      × (t.events ≡ c.events)

  abbrev pub Replaces : Variant → AppError × Client M I → Type 0
  Replaces value (error, t) =
      (Refuses value error × (t ≡ c))
      ⊎ ((error ≡ AppError.success) × (item : Item) × Succeeds value item t)

  unchanged :
      (item : Item)
      → M.find id c.model ≡ some item
      → (j : ℕ) → M.find j c.model ≡ (if id == j then some item else M.find j c.model)
  unchanged item e j = elim (Bool-cases (id == j)) [
    | inl p ↦ rw p (rw (← (==_iff id j).0 p) e)
    | inr p ↦ rw p
  ]

  accepted-Succeeds :
      (value : Variant) (item : Item)
      → M.find id c.model ≡ some item
      → c.connected ≡ true
      → check_value_compatibility item.current_value value ≡ true
      → Succeeds value item
          (if is_equal item.current_value value then c else replaced M I id c value item)
  accepted-Succeeds value item e on ok =
      let types = compatible-type item.current_value value ok in
      let sizes =
        subst
          (λ t.
            (item_size t ≡ 0) ⊎ (buffer_size item.current_value.value ≡ buffer_size value.value))
          types (compatible-size item.current_value value ok) in
      elim (Bool-cases (is_equal item.current_value value)) [
        | inl same ↦ rw same (e, on, types, sizes, unchanged item e, refl, refl, refl)
        | inr new ↦ rw new (
          e,
          on,
          types,
          sizes,
          λ j.
              find-update M (λ a b. a == b) ==_iff id j (record item { current_value = value }) item
                c.model e,
          ap
              (λ t.
                if check_type_compatibility c.remote_peer_features t
                then c.pushed ++ (change id ∷ [])
                else c.pushed)
              types,
          refl,
          refl,
        )
      ]

  -- A change by the program of a mirrored value is refused, without any effect, only at an unknown id, at a value
  -- that is not compatible with the current one, or without a connection, and the error says which. It succeeds
  -- only in a connected context, at a known item and with a value of the current value's type and (for a vector) size;
  -- the item then has the new value, unless the code takes it for the current one; every other item, the index and
  -- the events are as they were, and the change is queued if the server supports the type.
  pub client_replaces_value_lem :
      (value : Variant) → Replaces value (client_replaces_value M I id value c)
  client_replaces_value_lem value = elim (Option-cases (M.find id c.model)) [
    | inl e ↦ answer (AppError.item_not_found, c) (ground (arith, e)) (inl (inl (refl, e), refl))
    | inr (item, e) ↦ elim (Bool-cases (check_value_compatibility item.current_value value)) [
      | inr bad ↦
          answer (AppError.type_mismatch, c) (ground (arith, e, bad))
            (inl (inr (inl (item, e, refl, bad)), refl))
      | inl ok ↦ elim (Bool-cases c.connected) [
        | inr off ↦
            answer (AppError.peer_disconnected, c) (ground (arith, e, ok, off))
              (inl (inr (inr (refl, off)), refl))
        | inl on ↦
            answer
              (
                AppError.success,
                if is_equal item.current_value value then c else replaced M I id c value item,
              )
              (ground (arith, e, ok, on)) (inr (refl, item, accepted-Succeeds value item e on ok))
      ]
    ]
  ]
    where
      answer :
          (r : AppError × Client M I)
          → replace_result M I id c value ≡ r
          → Replaces value r
          → Replaces value (client_replaces_value M I id value c)
      answer r e h =
          subst (Replaces value) (sym (client_replaces_value_result M I id c value ∙ e)) h
