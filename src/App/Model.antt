-- ===== src/App/Model.antt =====
-- tweak-app/src/tweakmodel.c: the items by their ids.
use tweaktool.Common.{ℕ, Bool, false, Option, none, some, Bytes, if◌then◌else◌, ◌&&◌}
use tweaktool.Variant.{Variant}
use tweaktool.App.Table.{Table}
use tweaktool.App.Item.{Item}

-- `tweak_model_error_code`
pub data ModelError : Type 0 where
  success index_error bad_alloc item_not_found : ModelError

-- Which of the allocations of a call succeed: of the item, of its pair in the model, of its pair and of
-- its key in the index.
pub record Memory : Type 0 where
  pub item : Bool
  pub model_pair : Bool
  pub index_pair : Bool
  pub index_key : Bool

-- All of them succeed.
abbrev pub enough : Memory → Bool
enough memory = memory.item && memory.model_pair && memory.index_pair && memory.index_key

module _ (M : Table ℕ Item) where
  unfoldable pub attach_item : Bool → ℕ → Item → M.Map → ModelError × M.Map
  attach_item allocated id item m = elim (M.find id m) [
    | some _ ↦ (index_error, m)
    | none ↦ if allocated then (success, M.add id item m) else (bad_alloc, m)
  ]

  unfoldable pub create_item :
      Memory → ℕ → Bytes → Bytes → Bytes → Variant → Variant → ℕ → M.Map → ModelError × M.Map
  unfolding attach_item
  create_item memory id uri description meta default_value current_value item_cookie m =
      if memory.item
      then attach_item memory.model_pair id
          (record {
            id = id;
            uri = uri;
            description = description;
            meta = meta;
            variant_type = current_value.type;
            current_value = current_value;
            default_value = default_value;
            item_cookie = item_cookie;
            metadata_initialized = false;
          })
          m
      else (bad_alloc, m)

  unfoldable pub find_item_by_id : M.Map → ℕ → Option Item
  find_item_by_id m id = M.find id m

  unfoldable pub detach_item : M.Map → ℕ → Option Item × M.Map
  detach_item m id = elim (M.find id m) [
    | none ↦ (none, m)
    | some item ↦ (some item, M.delete id m)
  ]

  unfoldable pub remove_item : M.Map → ℕ → ModelError × M.Map
  unfolding detach_item
  remove_item m id =
      let (item, m') = detach_item m id in
      elim item [ some _ ↦ (success, m') | none ↦ (item_not_found, m') ]
