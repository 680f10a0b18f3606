-- ===== src/App/Client.antt =====
-- tweak-app/src/tweakappclient.c: the context of a client, which mirrors the items of its server. A
-- function that ends the program with an error or follows a null pointer is `none`.
pub mod Add
pub mod Update
pub mod Replace
pub mod Replies
pub mod Reset
pub mod Wait
mod Tests
use tweaktool.Common.{
  ℕ, Bool, true, false, not, ◌&&◌, ◌||◌, Option, none, some, List, [], ◌∷◌, ◌++◌, Bytes, ◌==◌,
  str_eq, if◌then◌else◌, ◌>>=◌,
}
use tweaktool.Variant.{Variant, is_equal}
use tweaktool.App.Table.{Table}
use tweaktool.App.Item.{Item, invalid_id, AppError}
use tweaktool.App.Features.{
  Features, Document, init_default, init_minimal, from_json, check_type_compatibility,
}
use tweaktool.App.Compatibility.{check_value_compatibility}
use tweaktool.App.Model
use tweaktool.App.Model.{ModelError, Memory}
use tweaktool.App.Index
use tweaktool.App.Index.{IndexResult}

-- A job of the queue: its procedure and its item.
pub data ClientJob : Type 0 where
  subscribe change : ℕ → ClientJob

-- A remote procedure call to the server.
pub data Request : Type 0 where
  announce_features : Features → Request
  subscribes : Request
  change_item : ℕ → Variant → Request

-- A call of a callback of the program.
pub data Event : Type 0 where
  connection_status_changed : Bool → Event
  new_item : ℕ → Event
  current_value_changed : ℕ → Variant → Event
  item_removed : ℕ → Event

-- `tweak_pickle_connection_state`, as the endpoint reports it to a client.
pub data PeerState : Type 0 where
  peer_connected peer_disconnected peer_unknown : PeerState

-- `tweak_pickle_add_item`
pub record AddItem : Type 0 where
  pub id : ℕ
  pub uri : Bytes
  pub description : Bytes
  pub meta : Bytes
  pub default_value : Variant
  pub current_value : Variant

-- `tweak_app_client_callbacks`: which callbacks are set.
pub record Callbacks : Type 0 where
  pub on_connection_status_changed : Bool
  pub on_new_item : Bool
  pub on_current_value_changed : Bool
  pub on_item_removed : Bool

-- The context. `pushed` are the jobs handed to the queue, `sent` the remote calls and `events` the calls of
-- callbacks, all in order.
pub record Client (M : Table ℕ Item) (I : Table Bytes ℕ) : Type 0 where
  pub model : M.Map
  pub index : I.Map
  pub connected : Bool
  pub remote_peer_features : Features
  pub callbacks : Callbacks
  pub pushed : List ClientJob
  pub sent : List Request
  pub events : List Event

unfoldable pub is_add_item_correct : AddItem → Item → Bool
unfolding str_eq is_equal
is_add_item_correct add item =
    item.id == add.id
    && str_eq item.uri add.uri
    && str_eq item.description add.description
    && str_eq item.meta add.meta
    && is_equal item.default_value add.default_value

module _ (M : Table ℕ Item) (I : Table Bytes ℕ) where
  -- A callback is called if it is set.
  abbrev pub report : Bool → Event → Client M I → Client M I
  report is_set event c = record c {
    events = if is_set then c.events ++ (event ∷ []) else c.events;
  }

  abbrev pub enqueue : ClientJob → Client M I → Client M I
  enqueue job c = record c { pushed = c.pushed ++ (job ∷ []) }

  -- `io_loop_subscribe`: a call that fails is only logged.
  unfoldable pub client_io_loop_subscribe : Client M I → Client M I
  unfolding init_default
  client_io_loop_subscribe c = record c {
    sent = c.sent ++ (announce_features init_default ∷ subscribes ∷ []);
  }

  -- `io_loop_change`
  unfoldable pub client_io_loop_change : ℕ → Client M I → Client M I
  client_io_loop_change id c = elim (M.find id c.model) [
    | none ↦ c
    | some item ↦
        if c.connected
        then record c { sent = c.sent ++ (change_item id item.current_value ∷ []) }
        else c
  ]

  unfoldable pub invoke_item_removed_callback : Bytes → ℕ → Client M I → Option (Bool × Client M I)
  invoke_item_removed_callback uri id c =
      some (true, record c { events = c.events ++ (item_removed id ∷ []) })

  unfoldable pub call_remove_callback_for_all_items : I.Map → Client M I → Option (Client M I)
  unfolding Index.walk invoke_item_removed_callback
  call_remove_callback_for_all_items index c =
      if c.callbacks.on_item_removed
      then (Index.walk I invoke_item_removed_callback index c >>= λ r. some r.1)
      else some c

  -- `allocated` says whether there is memory for the new model and for the new index.
  unfoldable pub reset_model : Bool → Client M I → Option (Client M I)
  unfolding call_remove_callback_for_all_items
  reset_model allocated c =
      if allocated
      then call_remove_callback_for_all_items c.index
          (record c { model = M.empty; index = I.empty })
      else none

  -- `announce_features_impl`
  unfoldable pub server_announces_features : Document → Client M I → Client M I
  unfolding from_json
  server_announces_features document c = elim (from_json document) [
    | none ↦ c
    | some features ↦ record c { remote_peer_features = features }
  ]

  -- `client_connection_state_pickle_impl`
  unfoldable pub client_connection_state : Bool → PeerState → Client M I → Option (Client M I)
  unfolding reset_model init_minimal
  client_connection_state allocated peer_connected c =
      reset_model allocated (record c { remote_peer_features = init_minimal }) >>= λ t. some (
        enqueue (subscribe invalid_id) (
          report t.callbacks.on_connection_status_changed (connection_status_changed true)
            (record t { connected = true })))
  client_connection_state allocated peer_disconnected c =
      let t = report c.callbacks.on_connection_status_changed (connection_status_changed false) c in
      some (record t { connected = false })
  client_connection_state allocated peer_unknown c = some c

  unfoldable pub add_item_to_model : Memory → AddItem → M.Map → I.Map → ℕ × (M.Map × I.Map)
  unfolding Model.create_item Model.remove_item Index.insert
  add_item_to_model memory add model index =
      let (created, model1) =
        Model.create_item M memory add.id add.uri add.description add.meta add.default_value
          add.current_value 0 model in
      let (inserted, index1) =
        Index.insert I memory.index_pair memory.index_key index add.uri add.id in
      elim created [
        | ModelError.success ↦ elim inserted [
          | IndexResult.success ↦ (add.id, (model1, index1))
          | _ ↦ (invalid_id, ((Model.remove_item M model1 add.id).1, index1))
        ]
        | _ ↦ (invalid_id, (model1, index))
      ]

  -- `client_add_item_pickle_impl`
  unfoldable pub client_add_item : Memory → AddItem → Client M I → Option (Client M I)
  unfolding Index.lookup is_add_item_correct is_equal add_item_to_model
  client_add_item memory add c =
      let id = Index.lookup I c.index add.uri in
      if not (id == invalid_id)
      then elim (M.find id c.model) [
        | none ↦ none
        | some item ↦
            if is_add_item_correct add item
            then (if is_equal item.current_value add.current_value
                then some c
                else some (
                    report c.callbacks.on_current_value_changed
                      (current_value_changed id add.current_value)
                      (record c {
                        model =
                            M.update id (record item { current_value = add.current_value }) c.model;
                      })))
            else none
      ]
      else let (new_id, (model, index)) = add_item_to_model memory add c.model c.index in
        if new_id == invalid_id
        then none
        else some (
            report c.callbacks.on_new_item (new_item new_id)
              (record c { model = model; index = index }))

  -- `client_change_item_pickle_impl`
  unfoldable pub client_change_item : ℕ → Variant → Client M I → Client M I
  unfolding is_equal
  client_change_item id value c = elim (M.find id c.model) [
    | none ↦ c
    | some item ↦
        report (c.callbacks.on_current_value_changed && not (is_equal value item.current_value))
          (current_value_changed item.id value)
          (record c { model = M.update id (record item { current_value = value }) c.model })
  ]

  -- `client_remove_item_pickle_impl`
  unfoldable pub client_remove_item : ℕ → Client M I → Client M I
  unfolding Model.remove_item Index.remove
  client_remove_item id c = elim (M.find id c.model) [
    | none ↦ c
    | some item ↦ report c.callbacks.on_item_removed (item_removed id) (record c {
      model = (Model.remove_item M c.model id).1;
      index = (Index.remove I c.index item.uri).1;
    })
  ]

  -- `tweak_app_context_private_item_replace_current_value` in a client context.
  unfoldable pub replace_mirrored_value : ℕ → Variant → Client M I → AppError × Client M I
  unfolding is_equal
  replace_mirrored_value id value c = elim (M.find id c.model) [
    | none ↦ (AppError.item_not_found, c)
    | some item ↦
        if is_equal item.current_value value
        then (AppError.success, c)
        else let c1 = record c {
          model = M.update id (record item { current_value = value }) c.model;
        } in
          let compatible =
            check_type_compatibility c.remote_peer_features item.current_value.type in
          (AppError.success, if compatible && c.connected then enqueue (change id) c1 else c1)
  ]

  -- `replace_current_value`
  unfoldable pub client_replaces_value : ℕ → Variant → Client M I → AppError × Client M I
  unfolding check_value_compatibility replace_mirrored_value
  client_replaces_value id value c = elim (M.find id c.model) [
    | none ↦ (AppError.item_not_found, c)
    | some item ↦
        if check_value_compatibility item.current_value value
        then (if c.connected
            then replace_mirrored_value id value c
            else (AppError.peer_disconnected, c))
        else (AppError.type_mismatch, c)
  ]

  -- The loop of `check_wait_condition`: the ids of the uris, or `none` if one has no item yet.
  unfoldable pub wait_ids : I.Map → List Bytes → Option (List ℕ)
  unfolding Index.lookup
  wait_ids index [] = some []
  wait_ids index (uri ∷ uris) =
      let id = Index.lookup I index uri in
      let rest = wait_ids index uris in
      if id == invalid_id then none else (rest >>= λ ids. some (id ∷ ids))

  unfoldable pub check_wait_condition : Client M I → List Bytes → Option (List ℕ)
  unfolding wait_ids
  check_wait_condition c uris = if c.connected then wait_ids c.index uris else none
