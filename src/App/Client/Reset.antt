-- ===== src/App/Client/Reset.antt =====
-- `reset_model` and the events of the connection.
use tweaktool.Common.{
  if_true, if_false, ℕ, ◌≡◌, refl, sym, ◌∙◌, ap, Bool, true, false, Option, some, List, [], ◌∷◌,
  ◌++◌, Bytes, Bool-cases, if◌then◌else◌, ◌>>=◌, inl, inr,
}
use mathlib.Core.List.{append_assoc, append-nil}
use tweaktool.App.Table.{Table}
use tweaktool.App.Item.{Item, invalid_id}
use tweaktool.App.Features.{init_minimal}
use tweaktool.App.Index.{walk, walk_pairs}
use tweaktool.App.Client.{
  Client, Event, item_removed, connection_status_changed, subscribe, invoke_item_removed_callback,
  call_remove_callback_for_all_items, reset_model, client_connection_state, peer_connected, enqueue,
  report,
}

-- The reports of the removal of the items of an index.
abbrev pub removals : List (Bytes × ℕ) → List Event
removals [] = []
removals ((uri, id) ∷ pairs) = item_removed id ∷ removals pairs

module _ (M : Table ℕ Item) (I : Table Bytes ℕ) where
  walk_removals :
      (pairs : List (Bytes × ℕ)) (c : Client M I)
      → walk_pairs (invoke_item_removed_callback M I) pairs c
        ≡ some (true, record c { events = c.events ++ removals pairs })
  unfolding walk_pairs invoke_item_removed_callback
  walk_removals [] c = rw (append-nil c.events)
  walk_removals ((uri, id) ∷ pairs) c =
      walk_removals pairs (record c { events = c.events ++ (item_removed id ∷ []) })
      ∙ ap (λ l. some (true, record c { events = l }))
          (append_assoc c.events (item_removed id ∷ []) (removals pairs))

  reported :
      (pairs : I.Map) (c : Client M I)
      → call_remove_callback_for_all_items M I pairs c
        ≡ some (record c {
          events =
              c.events ++ (if c.callbacks.on_item_removed then removals (I.entries pairs) else []);
        })
  unfolding call_remove_callback_for_all_items walk
  reported pairs c = elim (Bool-cases c.callbacks.on_item_removed) [
    | inl on ↦
        if_true c.callbacks.on_item_removed _ _ on
        ∙ ap (λ r. r >>= λ x. some x.1) (walk_removals (I.entries pairs) c)
        ∙ ap (λ b. after (c.events ++ (if b then removals (I.entries pairs) else []))) (sym on)
    | inr off ↦
        if_false c.callbacks.on_item_removed _ _ off
        ∙ ap after (sym (append-nil c.events))
        ∙ ap (λ b. after (c.events ++ (if b then removals (I.entries pairs) else []))) (sym off)
  ]
    where
      after : List Event → Option (Client M I)
      after l = some (record c { events = l })

  append_if : (b : Bool) (l m : List Event) → (if b then l ++ m else l) ≡ l ++ (if b then m else [])
  append_if true l m = refl
  append_if false l m = sym (append-nil l)

  -- When the connection comes up and there is memory for a new model, the client forgets every item, reports
  -- the removal of each item of the old index if the program asked for that, takes the server to know
  -- scalars only, is connected, reports that if the program asked for it, and queues a subscription.
  pub client_connection_state_lem :
      (c : Client M I)
      → client_connection_state M I true peer_connected c
        ≡ some (record c {
          model = M.empty;
          index = I.empty;
          connected = true;
          remote_peer_features = init_minimal;
          pushed = c.pushed ++ (subscribe invalid_id ∷ []);
          events =
              c.events
              ++ (if c.callbacks.on_item_removed then removals (I.entries c.index) else [])
              ++ (if c.callbacks.on_connection_status_changed
                  then connection_status_changed true ∷ []
                  else []);
        })
  unfolding client_connection_state reset_model
  client_connection_state_lem c =
      ap (λ r. r >>= finish)
        (reported c.index
          (record c { model = M.empty; index = I.empty; remote_peer_features = init_minimal }))
      ∙ ap connected_with (
          append_if c.callbacks.on_connection_status_changed (c.events ++ reports)
            (connection_status_changed true ∷ []))
    where
      reports : List Event
      reports = if c.callbacks.on_item_removed then removals (I.entries c.index) else []

      finish : Client M I → Option (Client M I)
      finish t = some (
          enqueue M I (subscribe invalid_id) (
            report M I t.callbacks.on_connection_status_changed (connection_status_changed true)
              (record t { connected = true })))

      connected_with : List Event → Option (Client M I)
      connected_with l = some (record c {
        model = M.empty;
        index = I.empty;
        connected = true;
        remote_peer_features = init_minimal;
        pushed = c.pushed ++ (subscribe invalid_id ∷ []);
        events = l;
      })
