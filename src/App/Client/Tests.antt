-- ===== src/App/Client/Tests.antt =====
-- The client context on an announcement, a change and a removal.
use tweaktool.Common.{
  ℕ, ◌≡◌, refl, ◌↔◌, ◌⊎◌, true, none, some, [], ◌∷◌, ◌++◌, Bytes, arith, ◌==◌, ==_iff, str_eq,
  str_eq_iff,
}
use tweaktool.Common.Int.{pos}
use tweaktool.Variant.{Variant, VariantType, Value}
use tweaktool.App.Table.{Table}
use tweaktool.App.Assoc.{table}
use tweaktool.App.Item.{Item, invalid_id}
use tweaktool.App.Model.{Memory}
use tweaktool.App.Features.{init_minimal}
use tweaktool.App.Paired.{Paired, empty-Paired, add-Paired}
use tweaktool.App.Client.{
  Client, ClientJob, AddItem, client_change_item, client_remove_item, client_replaces_value,
  check_wait_condition, client_connection_state, PeerState, connection_status_changed,
}
use tweaktool.App.Client.Add.{Answers, client_add_item_lem, mirrored}
use tweaktool.App.Client.Update.{Changes, Drops, client_change_item_lem, client_remove_item_lem}
use tweaktool.App.Client.Replies.{Replaces, client_replaces_value_lem}
use tweaktool.App.Client.Reset.{client_connection_state_lem, removals}
use tweaktool.App.Client.Wait.{Leads, check_wait_condition_iff}

abbrev items : Table ℕ Item
items = table (λ a b. a == b) ==_iff

abbrev uris : Table Bytes ℕ
uris = table str_eq str_eq_iff

abbrev plenty : Memory
plenty = record { item = true; model_pair = true; index_pair = true; index_key = true }

abbrev gain : Bytes
gain = b'g' ∷ b'a' ∷ b'i' ∷ b'n' ∷ []

abbrev volume : Variant
volume = record { type = VariantType.sint32; value = Value.sint (pos 7) }

abbrev louder : Variant
louder = record { type = VariantType.sint32; value = Value.sint (pos 9) }

abbrev announced_gain : AddItem
announced_gain = record {
  id = 1;
  uri = gain;
  description = [];
  meta = [];
  default_value = volume;
  current_value = volume;
}

abbrev fresh : Client items uris
fresh = record {
  model = items.empty;
  index = uris.empty;
  connected = true;
  remote_peer_features = init_minimal;
  callbacks = record {
    on_connection_status_changed = true;
    on_new_item = true;
    on_current_value_changed = true;
    on_item_removed = true;
  };
  pushed = [];
  sent = [];
  events = [];
}

-- The context with the announced item.
abbrev one : Client items uris
one = record fresh {
  model = items.add 1 (mirrored announced_gain) fresh.model;
  index = uris.add gain 1 fresh.index;
}

fresh-Paired : Paired items uris fresh.model fresh.index
fresh-Paired = empty-Paired items uris

one-Paired : Paired items uris one.model one.index
one-Paired =
    add-Paired items uris fresh-Paired 1 (mirrored announced_gain) gain refl refl
      (λ e. omega (arith, e)) (items.find-empty 1) (uris.find-empty gain)

client_add_item_lem_example : Answers items uris plenty announced_gain fresh fresh-Paired
client_add_item_lem_example =
    client_add_item_lem items uris plenty announced_gain fresh fresh-Paired

client_change_item_lem_example :
    (items.find 1 one.model ≡ none) × (client_change_item items uris 1 louder one ≡ one)
    ⊎ ((item : Item) × (items.find 1 one.model ≡ some item)
        × Changes items uris 1 one louder item (client_change_item items uris 1 louder one))
client_change_item_lem_example = client_change_item_lem items uris 1 one louder one-Paired

client_remove_item_lem_example :
    (items.find 1 one.model ≡ none) × (client_remove_item items uris 1 one ≡ one)
    ⊎ ((item : Item) × (items.find 1 one.model ≡ some item)
        × Drops items uris 1 one item (client_remove_item items uris 1 one))
client_remove_item_lem_example = client_remove_item_lem items uris 1 one one-Paired

client_replaces_value_lem_example :
    Replaces items uris 1 one louder (client_replaces_value items uris 1 louder one)
client_replaces_value_lem_example = client_replaces_value_lem items uris 1 one louder

client_connection_state_lem_example :
    client_connection_state items uris true PeerState.peer_connected one
    ≡ some (record one {
      model = items.empty;
      index = uris.empty;
      connected = true;
      remote_peer_features = init_minimal;
      pushed = one.pushed ++ (ClientJob.subscribe invalid_id ∷ []);
      events =
          one.events ++ removals (uris.entries one.index) ++ (connection_status_changed true ∷ []);
    })
client_connection_state_lem_example = client_connection_state_lem items uris one

check_wait_condition_iff_example :
    (check_wait_condition items uris one (gain ∷ []) ≡ some (1 ∷ []))
    ↔ ((one.connected ≡ true) × Leads items uris one (gain ∷ []) (1 ∷ []))
check_wait_condition_iff_example =
    check_wait_condition_iff items uris one one-Paired (gain ∷ []) (1 ∷ [])
