-- ===== src/App/Mirror.antt =====
-- The two contexts together: what a client (tweak-app/src/tweakappclient.c) makes of the remote calls of a server
-- (tweak-app/src/tweakappserver.c), if each arrives as it was sent.
pub mod Delivery
pub mod Subscription
mod Tests
use tweaktool.Common.{
  if_true, if_false, ℕ, ◌≡◌, ◌≢◌, ◌⊎◌, refl, sym, ◌∙◌, ap, ap₂, Bool, true, false, Option, none,
  some, List, [], ◌∷◌, ◌++◌, Bytes, All, arith, Bool-cases, Option-cases, subst, if◌then◌else◌, inl,
  inr, ◌>>=◌, ◌==◌, ==_iff,
}
use mathlib.Core.List.{Memᴰ}
use tweaktool.App.Table.{Table, find-add}
use tweaktool.App.Item.{Item, invalid_id}
use tweaktool.App.Features.{Features, Document, check_type_compatibility}
use tweaktool.App.Model.{Memory, enough}
use tweaktool.App.Index
use tweaktool.App.Paired.{Paired, add-Paired, empty-Paired}
use tweaktool.App.Server
use tweaktool.App.Server.{Server, Message, item_message}
use tweaktool.App.Server.Loop.{io_loop_subscribe}
use tweaktool.App.Server.Consistent.{IsConsistent, Linked}
use tweaktool.App.Server.Subscribe.{
  announcement, announcements, features_due, io_loop_subscribe_lem,
}
use tweaktool.App.Client.{
  Client, AddItem, client_add_item, client_change_item, client_remove_item,
  server_announces_features,
}
use tweaktool.App.Client.Add.{mirrored, added, add_new}
use tweaktool.Convert.Coerce.{some_eq, none≢some}

-- The announcement of an item as the client gets it.
abbrev pub add_of : Item → AddItem
add_of item = record {
  id = item.id;
  uri = item.uri;
  description = item.description;
  meta = item.meta;
  default_value = item.default_value;
  current_value = item.current_value;
}

-- What the client is to hold for an item of the server: nothing, if it does not support the type.
abbrev pub reflection : Features → Option Item → Option Item
reflection features none = none
reflection features (some item) =
    if check_type_compatibility features item.variant_type
    then some (mirrored (add_of item))
    else none

-- No uri occurs twice.
abbrev pub DistinctUris : List (Bytes × ℕ) → Type 0
DistinctUris [] = Unit {0}
DistinctUris (e ∷ es) = All (λ f. e.0 ≢ f.0) es × DistinctUris es

abbrev pub has_id : ℕ → List (Bytes × ℕ) → Bool
has_id j [] = false
has_id j (e ∷ es) = if e.1 == j then true else has_id j es

-- `write` is the JSON text of features.
module _ (M : Table ℕ Item) (I : Table Bytes ℕ) (memory : Memory)
    (write : Features → Document) where
  -- The handler of each remote call in the client.
  unfoldable pub receive : Message → Client M I → Option (Client M I)
  unfolding client_add_item client_change_item client_remove_item server_announces_features
  receive (Server.announce_features f) c = some (server_announces_features M I (write f) c)
  receive (Server.add_item id uri meta description default_value current_value) c =
      client_add_item M I memory
        (record {
          id = id;
          uri = uri;
          description = description;
          meta = meta;
          default_value = default_value;
          current_value = current_value;
        })
        c
  receive (Server.change_item id value) c = some (client_change_item M I id value c)
  receive (Server.remove_item id) c = some (client_remove_item M I id c)

  unfoldable pub deliver : List Message → Client M I → Option (Client M I)
  unfolding receive
  deliver [] c = some c
  deliver (m ∷ ms) c = receive m c >>= deliver ms
