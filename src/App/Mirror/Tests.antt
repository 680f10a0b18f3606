-- ===== src/App/Mirror/Tests.antt =====
-- A context with two items and its mirror.
use tweaktool.Common.{
  ℕ, ◌≡◌, ◌≢◌, refl, Bool, true, false, none, some, List, [], ◌∷◌, ◌++◌, Bytes, arith, ◌==◌, ==_iff,
  str_eq, str_eq_iff,
}
use tweaktool.Common.Int.{pos}
use tweaktool.Variant.{Variant, VariantType, Value}
use tweaktool.App.Table.{Table}
use tweaktool.App.Assoc
use tweaktool.App.Assoc.{table}
use tweaktool.App.Item.{Item}
use tweaktool.App.Model.{Memory}
use tweaktool.App.Features.{Features, Document, init_minimal, check_type_compatibility}
use tweaktool.App.Paired.{Paired}
use tweaktool.App.Server.{Server, Message, server_add_item}
use tweaktool.App.Server.Loop.{io_loop_subscribe}
use tweaktool.App.Server.Call.{create}
use tweaktool.App.Server.Consistent.{IsConsistent}
use tweaktool.App.Server.Add.{server_add_item-IsConsistent}
use tweaktool.App.Server.Run.{create-IsConsistent}
use tweaktool.App.Client.{Client}
use tweaktool.App.Mirror.{reflection, DistinctUris, deliver}
use tweaktool.App.Mirror.Subscription.{subscribe-deliver}

abbrev items : Table ℕ Item
items = table (λ a b. a == b) ==_iff

abbrev uris : Table Bytes ℕ
uris = table str_eq str_eq_iff

abbrev reached : List Message → Message → Bool
reached sent message = true

abbrev plenty : Memory
plenty = record { item = true; model_pair = true; index_pair = true; index_key = true }

abbrev gain : Bytes
gain = b'g' ∷ b'a' ∷ b'i' ∷ b'n' ∷ []

abbrev pitch : Bytes
pitch = b'p' ∷ b'i' ∷ b't' ∷ b'c' ∷ b'h' ∷ []

abbrev volume : Variant
volume = record { type = VariantType.sint32; value = Value.sint (pos 7) }

abbrev bare : Server items uris
bare = create items uris reached true 1

abbrev with_gain : Server items uris
with_gain = (server_add_item items uris reached plenty gain [] [] volume 0 bare).1

abbrev two : Server items uris
two = (server_add_item items uris reached plenty pitch [] [] volume 0 with_gain).1

two-IsConsistent : IsConsistent items uris two
unfolding create server_add_item Assoc.find check_type_compatibility
two-IsConsistent =
    server_add_item-IsConsistent items uris reached plenty pitch [] [] volume 0 with_gain
      (server_add_item-IsConsistent items uris reached plenty gain [] [] volume 0 bare
        (create-IsConsistent items uris reached true 1 (omega arith) (omega arith)) (omega arith))
      (omega arith)

pitch_differs : pitch ≢ gain
unfolding str_eq
pitch_differs e = cc ((str_eq_iff pitch gain).1 e)

two-DistinctUris : DistinctUris (uris.entries two.index)
unfolding create server_add_item Assoc.entries Assoc.find check_type_compatibility str_eq
two-DistinctUris = ((pitch_differs, tt), (tt, tt))

abbrev client : Client items uris
client = record {
  model = items.empty;
  index = uris.empty;
  connected = true;
  remote_peer_features = init_minimal;
  callbacks = record {
    on_connection_status_changed = true;
    on_new_item = true;
    on_current_value_changed = false;
    on_item_removed = false;
  };
  pushed = [];
  sent = [];
  events = [];
}

abbrev write : Features → Document
write f = Document.object none

subscribe-deliver_example :
    (t : Server items uris) × (messages : List Message) × (d : Client items uris)
    × (io_loop_subscribe items uris reached two ≡ some t)
    × (t.sent ≡ two.sent ++ messages)
    × (deliver items uris plenty write messages client ≡ some d)
    × Paired items uris d.model d.index
    × ((j : ℕ)
        → items.find j d.model ≡ reflection two.remote_peer_features (items.find j two.model))
subscribe-deliver_example =
    subscribe-deliver items uris plenty write reached two client (λ sent m. refl) two-IsConsistent
      two-DistinctUris (refl, refl) refl
