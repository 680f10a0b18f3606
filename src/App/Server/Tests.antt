-- ===== src/App/Server/Tests.antt =====
-- The context run on a few items.
use tweaktool.Common.{
  ℕ, ◌≡◌, refl, ◌≢◌, ◌⊎◌, Bool, true, false, none, some, List, [], ◌∷◌, ◌++◌, Bytes, arith, ◌==◌,
  ==_iff, str_eq, str_eq_iff,
}
use tweaktool.Common.Int.{pos}
use tweaktool.Variant.{Variant, VariantType, Value}
use tweaktool.App.Table.{Table}
use tweaktool.App.Assoc
use tweaktool.App.Assoc.{table}
use tweaktool.App.Item.{Item, invalid_id, AppError}
use tweaktool.App.Model.{Memory, enough}
use tweaktool.App.Features.{init_default, check_type_compatibility}
use tweaktool.App.Server.{
  Server, Job, Message, server_add_item, server_remove_item, client_changes_item,
  replace_current_value, find_id,
}
use tweaktool.App.Server.Loop.{io_loop_subscribe}
use tweaktool.App.Server.Consistent.{IsConsistent}
use tweaktool.App.Server.Add.{Adds, Leaves, server_add_item_lem, server_add_item-IsConsistent}
use tweaktool.App.Server.Remove.{Removes, server_remove_item_lem}
use tweaktool.App.Server.Change.{
  Respects, Replaces, client_changes_item_lem, replace_current_value_lem,
}
use mathlib.Core.List.{Memᴰ}
use tweaktool.App.Query.{
  Snapshot, Callback, snapshot_of, traverse_items, visit, Shows, traverse_items_lem,
}
use tweaktool.App.Server.Subscribe.{
  Same, announcements, features_due, io_loop_subscribe_safe, io_loop_subscribe_lem,
}
use tweaktool.App.Server.Call.{Call, create}
use tweaktool.App.Server.Run.{create-IsConsistent, RunsThrough, ChangesUnknown, run-create}

abbrev items : Table ℕ Item
items = table (λ a b. a == b) ==_iff

abbrev uris : Table Bytes ℕ
uris = table str_eq str_eq_iff

abbrev reached : List Message → Message → Bool
reached sent message = true

abbrev plenty : Memory
plenty = record { item = true; model_pair = true; index_pair = true; index_key = true }

abbrev gain : Bytes
gain = b'g' ∷ b'a' ∷ b'i' ∷ b'n' ∷ []

abbrev volume : Variant
volume = record { type = VariantType.sint32; value = Value.sint (pos 7) }

abbrev louder : Variant
louder = record { type = VariantType.sint32; value = Value.sint (pos 9) }

abbrev fresh : Server items uris
fresh = create items uris reached true 1

fresh-IsConsistent : IsConsistent items uris fresh
fresh-IsConsistent = create-IsConsistent items uris reached true 1 (omega arith) (omega arith)

-- The context with one item, the gain, under the id 1.
abbrev one : Server items uris
one = (server_add_item items uris reached plenty gain [] [] volume 0 fresh).1

one-IsConsistent : IsConsistent items uris one
unfolding create
one-IsConsistent =
    server_add_item-IsConsistent items uris reached plenty gain [] [] volume 0 fresh
      fresh-IsConsistent (omega arith)

abbrev gain_item : Item
gain_item = record {
  id = 1;
  uri = gain;
  description = [];
  meta = [];
  variant_type = VariantType.sint32;
  current_value = volume;
  default_value = volume;
  item_cookie = 0;
  metadata_initialized = false;
}

found_gain : items.find 1 one.model ≡ some gain_item
unfolding server_add_item create Assoc.find check_type_compatibility init_default
found_gain = refl

-- The item is added whole.
server_add_item_lem_example :
    (enough plenty ≡ true)
      × (find_id items uris reached fresh gain ≡ invalid_id)
      × Adds items uris reached plenty gain [] [] volume 0 fresh
          (server_add_item items uris reached plenty gain [] [] volume 0 fresh)
    ⊎ ((enough plenty ≡ false) ⊎ (find_id items uris reached fresh gain ≢ invalid_id))
      × Leaves items uris reached plenty gain [] [] volume 0 fresh
          (server_add_item items uris reached plenty gain [] [] volume 0 fresh)
unfolding create
server_add_item_lem_example =
    server_add_item_lem items uris reached plenty gain [] [] volume 0 fresh fresh-IsConsistent
      (omega arith)

server_remove_item_lem_example :
    (items.find 1 one.model ≡ none) × (server_remove_item items uris reached 1 one ≡ (false, one))
    ⊎ ((item : Item) × (items.find 1 one.model ≡ some item)
        × Removes items uris reached 1 one item (server_remove_item items uris reached 1 one))
server_remove_item_lem_example = server_remove_item_lem items uris reached 1 one one-IsConsistent

client_changes_item_lem_example :
    Respects items uris reached 1 louder one gain_item
      (client_changes_item items uris reached 1 louder one)
client_changes_item_lem_example =
    client_changes_item_lem items uris reached 1 louder one gain_item found_gain

replace_current_value_lem_example :
    (items.find 1 one.model ≡ none)
      × (replace_current_value items uris reached 1 louder one ≡ (AppError.item_not_found, one))
    ⊎ ((item : Item) × (items.find 1 one.model ≡ some item)
        × Replaces items uris reached 1 louder one item
            (replace_current_value items uris reached 1 louder one))
replace_current_value_lem_example = replace_current_value_lem items uris reached 1 louder one

traverse_items_lem_example :
    (xs : List Snapshot) × Shows items uris one.model (uris.entries one.index) xs
    × ((S : Type 0) (callback : Callback S) (cookie : S)
        → traverse_items items uris callback one.model one.index cookie
          ≡ some (visit items uris callback xs cookie))
    × ((id : ℕ) (item : Item) → items.find id one.model ≡ some item → Memᴰ (snapshot_of item) xs)
traverse_items_lem_example =
    traverse_items_lem items uris one.model one.index one-IsConsistent.paired

io_loop_subscribe_safe_example :
    (t : Server items uris) × (io_loop_subscribe items uris reached one ≡ some t)
    × Same items uris reached one t
io_loop_subscribe_safe_example = io_loop_subscribe_safe items uris reached one one-IsConsistent

io_loop_subscribe_lem_example :
    io_loop_subscribe items uris reached one
    ≡ some (record one {
      connected = true;
      features_announced = false;
      sent =
          one.sent
          ++ features_due items uris reached one.features_announced
          ++ announcements items uris reached one.model one.remote_peer_features
              (uris.entries one.index);
    })
io_loop_subscribe_lem_example =
    io_loop_subscribe_lem items uris reached (λ sent m. refl) one one-IsConsistent

-- An item is added, the client subscribes, changes it, and it is removed.
abbrev session : List Call
session =
    Call.adds plenty gain [] [] volume 0
    ∷ Call.runs (Job.subscribe invalid_id)
    ∷ Call.client_sets 1 louder
    ∷ Call.runs (Job.change 1)
    ∷ Call.removes 1
    ∷ []

run-create_example :
    RunsThrough items uris reached session (create items uris reached true 1)
    ⊎ ChangesUnknown items uris reached session (create items uris reached true 1)
run-create_example = run-create items uris reached session true 1 (omega arith) (omega arith)
