-- ===== src/App/Server/Remove.antt =====
-- `tweak_app_server_remove_item`: what it leaves behind.
use tweaktool.Common.{
  ℕ, ◌≡◌, refl, sym, ◌⊎◌, inl, inr, Bool, true, false, ◌&&◌, none, some, List, [], ◌∷◌, ◌++◌, Bytes,
  str_eq, str_eq_iff, arith, Option-cases, ◌==◌, ==_iff, subst, if◌then◌else◌,
}
use tweaktool.App.Table.{Table, find-delete}
use tweaktool.App.Item.{Item, invalid_id}
use tweaktool.App.Features.{check_type_compatibility}
use tweaktool.App.Server.{Server, Message, remove, server_remove_item, find_id}
use tweaktool.App.Server.Consistent.{IsConsistent, remove-Linked}

module _ (M : Table ℕ Item) (I : Table Bytes ℕ) (accepts : List Message → Message → Bool) (id : ℕ)
    (s : Server M I) where
  abbrev outcome : Bool × Server M I
  outcome = server_remove_item M I accepts id s

  abbrev removed : Item → Server M I
  removed item = record s {
    model = M.delete id s.model;
    index = I.delete item.uri s.index;
    pushed =
        if check_type_compatibility s.remote_peer_features item.variant_type && s.connected
        then s.pushed ++ (remove id ∷ [])
        else s.pushed;
  }

  remove_unknown : M.find id s.model ≡ none → outcome ≡ (false, s)
  unfolding server_remove_item
  remove_unknown e = ground arith

  remove_known :
      IsConsistent M I s
      → (item : Item) → M.find id s.model ≡ some item
      → outcome ≡ (true, removed item)
  unfolding server_remove_item
  remove_known k item e = ground (arith, (k.paired.listed id item e).1)

  lookup-removed :
      (item : Item) (uri : Bytes)
      → find_id M I accepts (removed item) uri
        ≡ (if str_eq item.uri uri then invalid_id else find_id M I accepts s uri)
  unfolding find_id
  lookup-removed item uri = ground (arith, find-delete I str_eq str_eq_iff item.uri uri s.index)

  abbrev pub Removes : Item → Bool × Server M I → Type 0
  Removes item (removed, t) =
      (removed ≡ true)
      × ((j : ℕ) → M.find j t.model ≡ (if id == j then none else M.find j s.model))
      × ((uri : Bytes)
          → find_id M I accepts t uri
            ≡ (if str_eq item.uri uri then invalid_id else find_id M I accepts s uri))
      × (t.pushed ≡ (
          if check_type_compatibility s.remote_peer_features item.variant_type && s.connected
          then s.pushed ++ (remove id ∷ [])
          else s.pushed))

  -- On a consistent context a call with a known id removes that item from the model and its uri from the
  -- index, leaves every other id and uri as it was, and queues the job that tells the client if the peer is
  -- connected and supports the item's type; when the call returns, the item is gone and that job is only queued. A
  -- call with an unknown id returns false and changes nothing.
  pub server_remove_item_lem :
      IsConsistent M I s
      → (M.find id s.model ≡ none) × (outcome ≡ (false, s))
        ⊎ ((item : Item) × (M.find id s.model ≡ some item) × Removes item outcome)
  server_remove_item_lem k = elim (Option-cases (M.find id s.model)) [
    | inl e ↦ inl (e, remove_unknown e)
    | inr (item, e) ↦ inr (
      item,
      e,
      subst (Removes item) (sym (remove_known k item e))
          (refl, λ j. find-delete M (λ a b. a == b) ==_iff id j s.model, lookup-removed item, refl),
    )
  ]

  -- Removing an item keeps the model and the index consistent.
  pub server_remove_item-IsConsistent : IsConsistent M I s → IsConsistent M I outcome.1
  server_remove_item-IsConsistent k = elim (Option-cases (M.find id s.model)) [
    | inl e ↦ subst (λ r. IsConsistent M I r.1) (sym (remove_unknown e)) k
    | inr (item, e) ↦
        subst (λ r. IsConsistent M I r.1) (sym (remove_known k item e))
          (remove-Linked M I k id item e)
  ]
