-- ===== src/App/Server.antt =====
-- tweak-app/src/tweakappserver.c, with the parts of tweak-app/src/tweakappcommon.c that it uses and the
-- counter of tweak-common/src/tweak_id_gen_fallback.c. A function that follows a null pointer is
-- `none`.
pub mod Loop
pub mod Consistent
pub mod Add
pub mod Remove
pub mod Change
pub mod Subscribe
pub mod Call
pub mod Run
mod Tests
use tweaktool.Common.{
  ℕ, ◌+◌, ◌%◌, ◌^◌, Bool, true, false, not, ◌&&◌, Option, none, some, List, [], ◌∷◌, ◌++◌, Bytes,
  ◌==◌, if◌then◌else◌, ◌>>=◌,
}
use tweaktool.Variant.{Variant, VariantType, null, is_equal, type_code}
use tweaktool.App.Table.{Table}
use tweaktool.App.Item.{Item, invalid_id, AppError}
use tweaktool.App.Features.{
  Features, Document, init_default, from_json, combine, check_type_compatibility,
}
use tweaktool.App.Compatibility.{check_value_compatibility}
use tweaktool.App.Model
use tweaktool.App.Model.{ModelError, Memory}
use tweaktool.App.Index
use tweaktool.App.Index.{IndexResult}

-- A job of the queue: its procedure and its item. Its cookie is always the context.
pub data Job : Type 0 where
  subscribe append change remove : ℕ → Job

-- A remote procedure call to the client.
pub data Message : Type 0 where
  announce_features : Features → Message
  add_item : ℕ → Bytes → Bytes → Bytes → Variant → Variant → Message
  change_item : ℕ → Variant → Message
  remove_item : ℕ → Message

-- The context. `pushed` are the jobs handed to the queue, `sent` the remote calls and `changes` the calls
-- of `on_current_value_changed`, all in order; `seed` is the next id of `tweak_common_genid`.
pub record Server (M : Table ℕ Item) (I : Table Bytes ℕ) : Type 0 where
  pub model : M.Map
  pub index : I.Map
  pub connected : Bool
  pub remote_peer_features : Features
  pub features_announced : Bool
  pub notifies : Bool
  pub pushed : List Job
  pub sent : List Message
  pub changes : List (ℕ × Variant)
  pub seed : ℕ

abbrev pub next_seed : ℕ → ℕ
next_seed n = (n + 1) % 2 ^ 64

abbrev pub item_message : Item → Message
item_message item =
    add_item item.id item.uri item.meta item.description item.default_value item.current_value

-- `accepts` says whether a remote call succeeds, given the calls before it.
module _ (M : Table ℕ Item) (I : Table Bytes ℕ) (accepts : List Message → Message → Bool) where
  abbrev push : Job → Server M I → Server M I
  push job s = record s { pushed = s.pushed ++ (job ∷ []) }

  abbrev send : Message → Server M I → Bool × Server M I
  send message s = (accepts s.sent message, record s { sent = s.sent ++ (message ∷ []) })

  -- `tweak_app_find_id`
  unfoldable pub find_id : Server M I → Bytes → ℕ
  unfolding Index.lookup
  find_id s uri = Index.lookup I s.index uri

  -- `tweak_app_server_add_item`. The item is created under a new id and then entered into the index; what
  -- fails after the creation takes it back.
  unfoldable pub server_add_item :
      Memory → Bytes → Bytes → Bytes → Variant → ℕ → Server M I → ℕ × Server M I
  unfolding Model.create_item Model.remove_item Index.insert Index.lookup
  server_add_item memory uri description meta initial_value item_cookie s =
      let compatible = check_type_compatibility s.remote_peer_features initial_value.type in
      if not (Index.lookup I s.index uri == invalid_id)
      then (invalid_id, s)
      else let id = s.seed in
        let s1 = record s { seed = next_seed s.seed } in
        let (created, model) =
          Model.create_item M memory id uri description meta initial_value initial_value item_cookie
            s.model in
        let (inserted, index) = Index.insert I memory.index_pair memory.index_key s.index uri id in
        elim created [
          | ModelError.success ↦ elim inserted [
            | IndexResult.success ↦
                let s2 = record s1 { model = model; index = index } in
                (id, if compatible && s.connected then push (append id) s2 else s2)
            | _ ↦ (invalid_id, record s1 { model = (Model.remove_item M model id).1 })
          ]
          | _ ↦ (invalid_id, s1)
        ]

  -- `tweak_app_server_remove_item`
  unfoldable pub server_remove_item : ℕ → Server M I → Bool × Server M I
  unfolding Model.remove_item Index.remove
  server_remove_item id s = elim (M.find id s.model) [
    | none ↦ (false, s)
    | some item ↦
        let compatible = check_type_compatibility s.remote_peer_features item.variant_type in
        let s1 = record s {
          model = (Model.remove_item M s.model id).1;
          index = (Index.remove I s.index item.uri).1;
        } in
        (true, if compatible && s.connected then push (remove id) s1 else s1)
  ]

  -- `change_item_pickle_impl`: a change of a value that the client requests. At an unknown id the log line
  -- reads `item->id` through the null pointer.
  unfoldable pub client_changes_item : ℕ → Variant → Server M I → Option (Server M I)
  unfolding is_equal check_value_compatibility
  client_changes_item id value s = elim (M.find id s.model) [
    | none ↦ none
    | some item ↦
        if check_value_compatibility item.current_value value
        then (let s1 = record s {
          model = M.update id (record item { current_value = value }) s.model;
        } in
            let changed = not (is_equal value item.current_value) in
            some (
              push (change item.id) (
                if changed && s.notifies
                then record s1 { changes = s.changes ++ ((item.id, value) ∷ []) }
                else s1)))
        else some (push (change invalid_id) s)
  ]

  -- `tweak_app_context_private_item_replace_current_value`. After the swap `value` is the old value.
  unfoldable pub replace_current_value : ℕ → Variant → Server M I → AppError × Server M I
  unfolding is_equal
  replace_current_value id value s = elim (M.find id s.model) [
    | none ↦ (AppError.item_not_found, s)
    | some item ↦
        if is_equal item.current_value value
        then (AppError.success, s)
        else let s1 = record s {
          model = M.update id (record item { current_value = value }) s.model;
        } in
          let compatible =
            check_type_compatibility s.remote_peer_features item.current_value.type in
          (AppError.success, if compatible && s.connected then push (change id) s1 else s1)
  ]
