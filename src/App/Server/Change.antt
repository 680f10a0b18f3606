-- ===== src/App/Server/Change.antt =====
-- The two ways to change a current value: `change_item_pickle_impl` for the client and
-- `tweak_app_context_private_item_replace_current_value` for the program itself.
use tweaktool.Common.{
  ℕ, ◌≡◌, refl, sym, ◌∙◌, ap, ◌≢◌, ◌⊎◌, inl, inr, Bool, true, not, ◌&&◌, Option, none, some, List,
  [], ◌∷◌, ◌++◌, Bytes, arith, Option-cases, Bool-cases, ◌==◌, subst, if◌then◌else◌, ==_iff,
}
use tweaktool.Variant.{Variant, is_equal, type_code, item_size, buffer_size, null}
use tweaktool.Variant.Types.{type_code-injective}
use tweaktool.App.Table.{Table, find-update}
use tweaktool.App.Item.{Item, invalid_id, AppError}
use tweaktool.App.Features.{check_type_compatibility}
use tweaktool.App.Compatibility.{check_value_compatibility}
use tweaktool.App.Server.{Server, Message, change, client_changes_item, replace_current_value}
use tweaktool.App.Server.Consistent.{IsConsistent, update-Linked}

none≢some {ℓ} : {A : Type ℓ} {o : Option A} {a : A} → o ≡ none → o ≡ some a → ⊥
none≢some p q = cc (p, q)

some_eq {ℓ} : {A : Type ℓ} {a b : A} → some a ≡ some b → a ≡ b
some_eq p = cc (p)

module _ (sample value : Variant) (ok : check_value_compatibility sample value ≡ true) where
  -- A compatible value has the type of the sample, is not null, and a compatible vector has its size.
  pub compatible-type : sample.type ≡ value.type
  unfolding check_value_compatibility
  compatible-type = type_code-injective sample.type value.type (ground arith)

  pub compatible-size :
      (item_size sample.type ≡ 0) ⊎ (buffer_size sample.value ≡ buffer_size value.value)
  unfolding check_value_compatibility
  compatible-size = ground arith

  pub compatible-ne-null : sample.type ≢ null
  unfolding check_value_compatibility
  compatible-ne-null h = ground (arith, ap type_code h)

module _ (M : Table ℕ Item) (I : Table Bytes ℕ) (accepts : List Message → Message → Bool) (id : ℕ)
    (value : Variant) (s : Server M I) where
  -- A change request for an item that the server does not have follows the null pointer, whatever the
  -- value and the state are.
  pub client_changes_unknown :
      M.find id s.model ≡ none → client_changes_item M I accepts id value s ≡ none
  unfolding client_changes_item
  client_changes_unknown e = ground arith

  abbrev pub changed : Item → Item
  changed item = record item { current_value = value }

  -- The context after a change request for a known item.
  abbrev pub requested : Item → Server M I
  requested item =
      if check_value_compatibility item.current_value value
      then record s {
        model = M.update id (changed item) s.model;
        pushed = s.pushed ++ (change item.id ∷ []);
        changes =
            if not (is_equal value item.current_value) && s.notifies
            then s.changes ++ ((item.id, value) ∷ [])
            else s.changes;
      }
      else record s { pushed = s.pushed ++ (change invalid_id ∷ []) }

  pub client_changes_known :
      (item : Item)
      → M.find id s.model ≡ some item
      → client_changes_item M I accepts id value s ≡ some (requested item)
  unfolding client_changes_item
  client_changes_known item e = ground arith

  -- What a change request for a known item leaves behind.
  abbrev pub Respects : Item → Option (Server M I) → Type 0
  Respects item none = ⊥
  Respects item (some t) =
      (item' : Item) × (M.find id t.model ≡ some item')
      × (item'.current_value.type ≡ item.current_value.type)
      × ((item_size item.current_value.type ≡ 0)
          ⊎ (buffer_size item'.current_value.value ≡ buffer_size item.current_value.value))
      × (item'.uri ≡ item.uri)
      × (item'.variant_type ≡ item.variant_type)
      × (item'.current_value ≡ (
          if check_value_compatibility item.current_value value then value else item.current_value))
      × ((j : ℕ) → M.find j t.model ≡ (if id == j then some item' else M.find j s.model))

  unchanged :
      {item : Item}
      → M.find id s.model ≡ some item
      → (j : ℕ) → M.find j s.model ≡ (if id == j then some item else M.find j s.model)
  unchanged {item} e j = elim (Bool-cases (id == j)) [
    | inl p ↦ rw p (rw (← (==_iff id j).0 p) e)
    | inr p ↦ rw p
  ]

  -- A change request for a known item never changes the type of its value, the size of its vector, its uri
  -- or the type it was declared with, keeps every other item, and replaces the value exactly if the
  -- requested one is compatible with it.
  pub client_changes_item_lem :
      (item : Item)
      → M.find id s.model ≡ some item
      → Respects item (client_changes_item M I accepts id value s)
  client_changes_item_lem item e =
      subst (Respects item) (sym (client_changes_known item e))
        (elim (Bool-cases (check_value_compatibility item.current_value value)) [
          | inl ok ↦ rw ok (
            changed item,
            M.find-update_self id (changed item) item s.model e,
            sym (compatible-type item.current_value value ok),
            elim (compatible-size item.current_value value ok) [
              | inl z ↦ inl z
              | inr q ↦ inr (sym q)
            ],
            refl,
            refl,
            refl,
            λ j. find-update M (λ a b. a == b) ==_iff id j (changed item) item s.model e,
          )
          | inr bad ↦ rw bad (item, e, refl, inr refl, refl, refl, refl, unchanged e)
        ])

  client_changes_item-requested :
      {t : Server M I}
      → client_changes_item M I accepts id value s ≡ some t
      → (item : Item) × (M.find id s.model ≡ some item) × (t ≡ requested item)
  client_changes_item-requested {t} e = elim (Option-cases (M.find id s.model)) [
    | inl missing ↦ absurd (none≢some (client_changes_unknown missing) e)
    | inr (item, found) ↦ (item, found, some_eq (sym e ∙ client_changes_known item found))
  ]

  requested-IsConsistent :
      IsConsistent M I s
      → (item : Item) → M.find id s.model ≡ some item
      → IsConsistent M I (requested item)
  requested-IsConsistent k item found =
      elim (Bool-cases (check_value_compatibility item.current_value value)) [
        | inl ok ↦ rw ok (update-Linked M I k id item (changed item) found refl refl)
        | inr bad ↦ rw bad k
      ]

  -- A change that the client requests keeps the model and the index consistent.
  pub client_changes_item-IsConsistent :
      (t : Server M I)
      → IsConsistent M I s
      → client_changes_item M I accepts id value s ≡ some t
      → IsConsistent M I t
  client_changes_item-IsConsistent t k e =
      let (item, found, t_eq) = client_changes_item-requested e in
      subst (λ x. IsConsistent M I x) (sym t_eq) (requested-IsConsistent k item found)

  -- The context after a replacement of a known item's value.
  abbrev replaced : Item → Server M I
  replaced item = if is_equal item.current_value value then s else record s {
    model = M.update id (changed item) s.model;
    pushed =
        if check_type_compatibility s.remote_peer_features item.current_value.type && s.connected
        then s.pushed ++ (change id ∷ [])
        else s.pushed;
  }

  replace_unknown :
      M.find id s.model ≡ none
      → replace_current_value M I accepts id value s ≡ (AppError.item_not_found, s)
  unfolding replace_current_value
  replace_unknown e = ground arith

  replace_known :
      (item : Item)
      → M.find id s.model ≡ some item
      → replace_current_value M I accepts id value s ≡ (AppError.success, replaced item)
  unfolding replace_current_value
  replace_known item e = ground arith

  -- Replacing a value keeps the model and the index consistent.
  pub replace_current_value-IsConsistent :
      IsConsistent M I s → IsConsistent M I (replace_current_value M I accepts id value s).1
  replace_current_value-IsConsistent k = elim (Option-cases (M.find id s.model)) [
    | inl e ↦ subst (λ r. IsConsistent M I r.1) (sym (replace_unknown e)) k
    | inr (item, e) ↦
        subst (λ r. IsConsistent M I r.1) (sym (replace_known item e))
          (elim (Bool-cases (is_equal item.current_value value)) [
            | inl same ↦ rw same k
            | inr new ↦ rw new (update-Linked M I k id item (changed item) e refl refl)
          ])
  ]

  abbrev pub Replaces : Item → AppError × Server M I → Type 0
  Replaces item (error, t) =
      (error ≡ AppError.success)
      × ((j : ℕ)
          → M.find j t.model ≡ (
              if id == j
              then some (if is_equal item.current_value value then item else changed item)
              else M.find j s.model))
      × (t.pushed ≡ (
          if not (is_equal item.current_value value)
            && check_type_compatibility s.remote_peer_features item.current_value.type
            && s.connected
          then s.pushed ++ (change id ∷ [])
          else s.pushed))

  replaced-Replaces :
      (item : Item)
      → M.find id s.model ≡ some item
      → Replaces item (AppError.success, replaced item)
  replaced-Replaces item e = elim (Bool-cases (is_equal item.current_value value)) [
    | inl same ↦ rw same (refl, unchanged e, refl)
    | inr new ↦
        rw new
          (refl, λ j. find-update M (λ a b. a == b) ==_iff id j (changed item) item s.model e, refl)
  ]

  -- A replacement of a known item's value succeeds, whatever the type of the new value is: the item then
  -- has it (unless the code takes both for equal), keeps its declared type, and every other item is as it
  -- was; the change is queued if the peer is connected and supports the type of the old value. At an
  -- unknown id the call fails and changes nothing.
  pub replace_current_value_lem :
      (M.find id s.model ≡ none)
        × (replace_current_value M I accepts id value s ≡ (AppError.item_not_found, s))
      ⊎ ((item : Item) × (M.find id s.model ≡ some item)
          × Replaces item (replace_current_value M I accepts id value s))
  replace_current_value_lem = elim (Option-cases (M.find id s.model)) [
    | inl e ↦ inl (e, replace_unknown e)
    | inr (item, e) ↦
        inr (item, e, subst (Replaces item) (sym (replace_known item e)) (replaced-Replaces item e))
  ]
