-- ===== src/Json/Accessors.antt =====
-- What the accessors of tweak-json/src/tweakjson.c give: a node of one of the expected types, from the document.
use tweaktool.Common.{
  ℕ, zero, suc, ◌≡◌, ◌≢◌, true, Option, none, some, ◌>>=◌, Bytes, str_eq, IsText, inl, inr,
  Bool-cases,
}
use tweaktool.Json.NodeType
use tweaktool.Json.{
  Node, Items, Fields, null, array, object, string, bool, number, nil, cons, end, field, has_type,
  node_type, item_at, expect, get_array_item, find_field, get_object_field, get_array_size,
}

-- Every text of the document is a C string.
unfoldable mutual
  pub HasTexts : Node → Type 0
  HasTexts null = Unit {0}
  HasTexts (array xs) = ItemsHaveTexts xs
  HasTexts (object fs) = FieldsHaveTexts fs
  HasTexts (string s) = IsText s
  HasTexts (bool s) = IsText s
  HasTexts (number s) = IsText s

  pub ItemsHaveTexts : Items → Type 0
  ItemsHaveTexts nil = Unit {0}
  ItemsHaveTexts (cons x xs) = HasTexts x × ItemsHaveTexts xs

  pub FieldsHaveTexts : Fields → Type 0
  FieldsHaveTexts end = Unit {0}
  FieldsHaveTexts (field k v fs) = HasTexts v × FieldsHaveTexts fs

-- The same of a pointer that may be null.
abbrev pub PointsToTexts : Option Node → Type 0
PointsToTexts none = Unit {0}
PointsToTexts (some n) = HasTexts n

expect_texts : (mask : ℕ) (n : Node) → HasTexts n → PointsToTexts (expect mask n)
unfolding expect
expect_texts mask n h = elim (Bool-cases (has_type (node_type n) mask)) [
  | inl e ↦ rw e h
  | inr e ↦ rw e tt
]

bind_texts : (mask : ℕ) (o : Option Node) → PointsToTexts o → PointsToTexts (o >>= expect mask)
bind_texts mask none h = tt
bind_texts mask (some n) h = expect_texts mask n h

find_field_texts :
    (fs : Fields) (name : Bytes) → FieldsHaveTexts fs → PointsToTexts (find_field fs name)
unfolding find_field HasTexts
find_field_texts end name h = tt
find_field_texts (field k v fs) name h = elim (Bool-cases (str_eq k name)) [
  | inl e ↦ rw e h.0
  | inr e ↦ rw e (find_field_texts fs name h.1)
]

item_at_texts : (xs : Items) (i : ℕ) → ItemsHaveTexts xs → PointsToTexts (item_at xs i)
unfolding item_at HasTexts
item_at_texts nil i h = tt
item_at_texts (cons x xs) zero h = h.0
item_at_texts (cons x xs) (suc i) h = item_at_texts xs i h.1

pub get_object_field_texts :
    (o : Option Node) (name : Bytes) (mask : ℕ)
    → PointsToTexts o
    → PointsToTexts (get_object_field o name mask)
unfolding get_object_field HasTexts
get_object_field_texts (some (object fs)) name mask h =
    bind_texts mask (find_field fs name) (find_field_texts fs name h)
get_object_field_texts _ name mask h = tt

pub get_array_item_texts :
    (o : Option Node) (i mask : ℕ) → PointsToTexts o → PointsToTexts (get_array_item o i mask)
unfolding get_array_item HasTexts
get_array_item_texts (some (array xs)) i mask h =
    bind_texts mask (item_at xs i) (item_at_texts xs i h)
get_array_item_texts _ i mask h = tt

-- The pointer is null or points to a node of a type in the mask.
abbrev pub Expected : ℕ → Option Node → Type 0
Expected mask none = Unit {0}
Expected mask (some n) = has_type (node_type n) mask ≡ true

expect-Expected : (mask : ℕ) (n : Node) → Expected mask (expect mask n)
unfolding expect
expect-Expected mask n = elim (Bool-cases (has_type (node_type n) mask)) [
  | inl e ↦ rw e e
  | inr e ↦ rw e tt
]

bind-Expected : (mask : ℕ) (o : Option Node) → Expected mask (o >>= expect mask)
bind-Expected mask none = tt
bind-Expected mask (some n) = expect-Expected mask n

pub get_object_field-Expected :
    (o : Option Node) (name : Bytes) (mask : ℕ) → Expected mask (get_object_field o name mask)
unfolding get_object_field
get_object_field-Expected (some (object fs)) name mask = bind-Expected mask (find_field fs name)
get_object_field-Expected _ name mask = tt

pub get_array_item-Expected :
    (o : Option Node) (i mask : ℕ) → Expected mask (get_array_item o i mask)
unfolding get_array_item
get_array_item-Expected (some (array xs)) i mask = bind-Expected mask (item_at xs i)
get_array_item-Expected _ i mask = tt

-- An array has a size.
pub array_size_known :
    (n : Node) → Expected NodeType.array (some n) → get_array_size (some n) ≢ none
unfolding has_type node_type get_array_size
array_size_known (array xs) h e = cc (e)
array_size_known null h e = cc (h)
array_size_known (object fs) h e = cc (h)
array_size_known (string s) h e = cc (h)
array_size_known (bool s) h e = cc (h)
array_size_known (number s) h e = cc (h)
