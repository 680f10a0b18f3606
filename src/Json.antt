-- ===== src/Json.antt =====
-- tweak-json/src/tweakjson.c and tweak-json/include/tweak2/json.h: the tree of a JSON document and its accessors.
-- A null pointer to a node is `none`.
use tweaktool.Common.{
  ℕ, zero, suc, ◌+◌, ◌-◌, ◌*◌, ◌/◌, ◌%◌, ◌^◌, Bool, true, false, not, ◌&&◌, ◌||◌, Option, none,
  some, [], ◌∷◌, ◌++◌, ltb, ◌==◌, if◌then◌else◌, ◌>>=◌, Bytes, str_eq,
}
pub mod NodeType
pub mod Accessors
pub mod Build
pub mod Stored
pub mod Calls
pub mod Placed
pub mod Built
pub mod Parsed
mod Tests

-- `tweak_json_node` with what the node of each type adds: the items of an array, the fields of an object in the order
-- of their insertion, and the text of a value.
mutual
  pub data Node : Type 0 where
    null : Node
    array : Items → Node
    object : Fields → Node
    string : Bytes → Node
    bool : Bytes → Node
    number : Bytes → Node

  pub data Items : Type 0 where
    nil : Items
    cons : Node → Items → Items

  pub data Fields : Type 0 where
    end : Fields
    field : Bytes → Node → Fields → Fields

-- `(type & mask) != 0` for a type that is one bit, or 0.
unfoldable pub has_type : ℕ → ℕ → Bool
has_type type mask = if type == 0 then false else mask / type % 2 == 1

unfoldable pub node_type : Node → ℕ
node_type null = NodeType.null
node_type (array xs) = NodeType.array
node_type (object fs) = NodeType.object
node_type (string s) = NodeType.string
node_type (bool s) = NodeType.bool
node_type (number s) = NodeType.number

unfoldable pub get_type : Option Node → ℕ
unfolding node_type
get_type none = NodeType.invalid
get_type (some n) = node_type n

unfoldable pub items_length : Items → ℕ
items_length nil = 0
items_length (cons x xs) = suc (items_length xs)

-- `none` is TWEAK_JSON_GET_SIZE_INVALID_ARG.
unfoldable pub get_array_size : Option Node → Option ℕ
unfolding items_length
get_array_size (some (array xs)) = some (items_length xs)
get_array_size _ = none

-- `utarray_eltptr`
unfoldable pub item_at : Items → ℕ → Option Node
item_at nil i = none
item_at (cons x xs) zero = some x
item_at (cons x xs) (suc i) = item_at xs i

-- A node of an expected type, or a null pointer.
unfoldable pub expect : ℕ → Node → Option Node
unfolding has_type node_type
expect mask n = if has_type (node_type n) mask then some n else none

unfoldable pub get_array_item : Option Node → ℕ → ℕ → Option Node
unfolding item_at expect
get_array_item (some (array xs)) i mask = item_at xs i >>= expect mask
get_array_item _ i mask = none

-- HASH_FIND_STR
unfoldable pub find_field : Fields → Bytes → Option Node
unfolding str_eq
find_field end name = none
find_field (field k v fs) name =
    let rest = find_field fs name in if str_eq k name then some v else rest

unfoldable pub get_object_field : Option Node → Bytes → ℕ → Option Node
unfolding find_field expect
get_object_field (some (object fs)) name mask = find_field fs name >>= expect mask
get_object_field _ name mask = none

unfoldable pub node_as_c_str : Option Node → Option Bytes
node_as_c_str (some (string s)) = some s
node_as_c_str (some (bool s)) = some s
node_as_c_str (some (number s)) = some s
node_as_c_str _ = none
