-- ===== src/App/Server/Loop.antt =====
-- tweak-app/src/tweakappserver.c: the events of the connection and the jobs of the worker thread.
use tweaktool.Common.{
  ℕ, Bool, true, false, Option, none, some, List, Bytes, if◌then◌else◌, ◌>>=◌, ◌==◌,
}
use tweaktool.App.Table.{Table}
use tweaktool.App.Item.{Item, invalid_id}
use tweaktool.App.Features.{Document, init_default, from_json, combine, check_type_compatibility}
use tweaktool.App.Index
use tweaktool.App.Server.{
  Server, Job, Message, push, send, item_message, append, change, remove, subscribe, change_item,
  remove_item, announce_features,
}

-- `tweak_pickle_connection_state`
pub data ConnectionState : Type 0 where
  connected disconnected unknown : ConnectionState

module _ (M : Table ℕ Item) (I : Table Bytes ℕ) (accepts : List Message → Message → Bool) where
  -- `connection_state_pickle_impl`
  unfoldable pub connection_state_changes : ConnectionState → Server M I → Server M I
  unfolding init_default
  connection_state_changes connected s = record s { remote_peer_features = init_default }
  connection_state_changes disconnected s = record s { connected = false }
  connection_state_changes unknown s = s

  -- `announce_features_impl`
  unfoldable pub client_announces_features : Document → Server M I → Server M I
  unfolding from_json combine init_default
  client_announces_features document s = elim (from_json document) [
    | none ↦ record s {
      remote_peer_features = combine s.remote_peer_features init_default;
      features_announced = false;
    }
    | some features ↦ record s {
      remote_peer_features = combine s.remote_peer_features features;
      features_announced = true;
    }
  ]

  -- `subscribe_tweak_pickle_impl`
  unfoldable pub client_subscribes : Server M I → Server M I
  client_subscribes s = push M I accepts (subscribe invalid_id) s

  -- `subscribe_walk_proc`: `none` is its failed assertion, or its first read of the item, which comes before the test
  -- for the null pointer.
  unfoldable pub subscribe_walk_proc : Bytes → ℕ → Server M I → Option (Bool × Server M I)
  subscribe_walk_proc uri id s = if id == invalid_id then none else elim (M.find id s.model) [
    | none ↦ none
    | some item ↦ some (
        if check_type_compatibility s.remote_peer_features item.variant_type
        then send M I accepts (item_message item) s
        else (true, s))
  ]

  -- The walk of `io_loop_subscribe` and what follows it.
  unfoldable pub walk_items : Server M I → Option (Server M I)
  unfolding subscribe_walk_proc Index.walk
  walk_items s = Index.walk I subscribe_walk_proc s.index s >>= λ r.
      let (walk_success, s1) = r in
      some (if walk_success then record s1 { connected = true } else s1)

  unfoldable pub io_loop_subscribe : Server M I → Option (Server M I)
  unfolding walk_items init_default
  io_loop_subscribe s =
      if s.features_announced
      then (let (sent, s1) = send M I accepts (announce_features init_default) s in
          if sent then walk_items (record s1 { features_announced = false }) else some s1)
      else walk_items s

  unfoldable pub io_loop_append : ℕ → Server M I → Server M I
  io_loop_append id s = elim (M.find id s.model) [
    | none ↦ s
    | some item ↦ (send M I accepts (item_message item) s).1
  ]

  unfoldable pub io_loop_change : ℕ → Server M I → Server M I
  io_loop_change id s = elim (M.find id s.model) [
    | none ↦ s
    | some item ↦
        if s.connected then (send M I accepts (change_item id item.current_value) s).1 else s
  ]

  unfoldable pub io_loop_remove : ℕ → Server M I → Server M I
  io_loop_remove id s = (send M I accepts (remove_item id) s).1

  -- The call of a job's procedure in `io_loop`.
  unfoldable pub run_job : Job → Server M I → Option (Server M I)
  unfolding io_loop_subscribe io_loop_append io_loop_change io_loop_remove
  run_job (subscribe id) s = io_loop_subscribe s
  run_job (append id) s = some (io_loop_append id s)
  run_job (change id) s = some (io_loop_change id s)
  run_job (remove id) s = some (io_loop_remove id s)
