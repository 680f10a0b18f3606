-- ===== src/App/Server/Call.antt =====
-- The calls of a context in any order, from its creation on.
use tweaktool.Common.{ℕ, Bool, false, Option, some, List, [], ◌∷◌, Bytes, ◌>>=◌}
use tweaktool.Variant.{Variant}
use tweaktool.App.Table.{Table}
use tweaktool.App.Item.{Item}
use tweaktool.App.Features.{Document}
use tweaktool.App.Model.{Memory}
use tweaktool.App.Server.{
  Server, Job, Message, server_add_item, server_remove_item, client_changes_item,
  replace_current_value,
}
use tweaktool.App.Server.Loop.{
  ConnectionState, connection_state_changes, client_announces_features, client_subscribes, run_job,
}

-- What a context is called with: by the program, by the client, and by the worker thread.
pub data Call : Type 0 where
  adds : Memory → Bytes → Bytes → Bytes → Variant → ℕ → Call
  removes : ℕ → Call
  replaces : ℕ → Variant → Call
  connection : ConnectionState → Call
  client_announces : Document → Call
  client_wants_items : Call
  client_sets : ℕ → Variant → Call
  runs : Job → Call

module _ (M : Table ℕ Item) (I : Table Bytes ℕ) (accepts : List Message → Message → Bool) where
  -- `tweak_app_create_server_context`: the memory of the context is zeroed, and no item is entered.
  unfoldable pub create : Bool → ℕ → Server M I
  create notifies seed = record {
    model = M.empty;
    index = I.empty;
    connected = false;
    remote_peer_features = record { vectors = false };
    features_announced = false;
    notifies = notifies;
    pushed = [];
    sent = [];
    changes = [];
    seed = seed;
  }

  -- One call. A call that follows a null pointer is `none`.
  unfoldable pub step : Call → Server M I → Option (Server M I)
  unfolding server_add_item server_remove_item replace_current_value connection_state_changes
      client_announces_features client_subscribes client_changes_item run_job
  step (adds memory uri description meta value cookie) s =
      some (server_add_item M I accepts memory uri description meta value cookie s).1
  step (removes id) s = some (server_remove_item M I accepts id s).1
  step (replaces id value) s = some (replace_current_value M I accepts id value s).1
  step (connection state) s = some (connection_state_changes M I accepts state s)
  step (client_announces document) s = some (client_announces_features M I accepts document s)
  step client_wants_items s = some (client_subscribes M I accepts s)
  step (client_sets id value) s = client_changes_item M I accepts id value s
  step (runs job) s = run_job M I accepts job s

  unfoldable pub run : List Call → Server M I → Option (Server M I)
  unfolding step
  run [] s = some s
  run (c ∷ calls) s = step c s >>= λ t. run calls t
