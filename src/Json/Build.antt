-- ===== src/Json/Build.antt =====
-- tweak-json/src/tweakjson.c: `tweak_json_parse`, which builds the tree of a document in memory from the calls that the
-- parser (a third-party header) makes. An address is the place of a node in the heap, in the order of allocation.
use tweaktool.Common.{
  ℕ, zero, suc, Bool, true, false, not, ◌&&◌, Option, none, some, List, [], ◌∷◌, ◌++◌, length, take,
  set, get_elem?, ◌==◌, if◌then◌else◌, Bytes, str_eq,
}

-- The nodes as they are stored: the items and the fields are pointers.
pub data Cell : Type 0 where
  null : Cell
  array : List ℕ → Cell
  object : List (Bytes × ℕ) → Cell
  string : Bytes → Cell
  bool : Bytes → Cell
  number : Bytes → Cell

-- `enum JSONType`
pub data JsonType : Type 0 where
  json_null json_array json_object json_string json_bool json_number : JsonType

abbrev pub Heap : Type 0
Heap = List Cell

-- A call of `enter_callback`: what the parser passes, with the depth of the node in the stack (`stack_size - 1`), and
-- whether the allocations succeed, of the node and of its pair in an object.
pub record Call : Type 0 where
  pub depth : ℕ
  pub type : JsonType
  pub name : Bytes
  pub text : Bytes
  pub node_allocated : Bool
  pub pair_allocated : Bool

-- `json_parse_context` with the memory and the cookies in the stack of the parser.
pub record Context : Type 0 where
  pub heap : Heap
  pub cookies : ℕ → Option ℕ
  pub document : Option ℕ
  pub was_error : Bool

abbrev pub put_cookie : ℕ → Option ℕ → (ℕ → Option ℕ) → ℕ → Option ℕ
put_cookie d v cookies i = if i == d then v else cookies i

unfoldable pub create_new_node : JsonType → Bytes → Cell
create_new_node json_null s = null
create_new_node json_array s = array []
create_new_node json_object s = object []
create_new_node json_string s = string s
create_new_node json_bool s = bool s
create_new_node json_number s = number s

unfoldable pub add_element_to_array : Heap → ℕ → List ℕ → ℕ → Heap
add_element_to_array h parent items child = set h parent (array (items ++ (child ∷ [])))

abbrev pub names : List (Bytes × ℕ) → List Bytes
names [] = []
names (f ∷ fs) = f.0 ∷ names fs

-- HASH_FIND_STR finds the name.
unfoldable pub has_name : List Bytes → Bytes → Bool
unfolding str_eq
has_name [] name = false
has_name (k ∷ ks) name = let rest = has_name ks name in if str_eq k name then true else rest

-- "duplicate_name_"
abbrev pub duplicate_prefix : Bytes
duplicate_prefix =
    b'd' ∷ b'u' ∷ b'p' ∷ b'l' ∷ b'i' ∷ b'c' ∷ b'a' ∷ b't' ∷ b'e' ∷ b'_' ∷ b'n' ∷ b'a' ∷ b'm' ∷ b'e'
    ∷ b'_' ∷ []

abbrev pub start : Context
start = record { heap = []; cookies = λ d. none; document = none; was_error = false }

-- The text that "%p" prints for an address is a parameter.
module _ (print_pointer : ℕ → Bytes) where
  unfoldable pub stored_name : List (Bytes × ℕ) → Bytes → ℕ → Bytes
  unfolding has_name
  stored_name fields name child =
      if has_name (names fields) name
      then take 63 (duplicate_prefix ++ print_pointer child)
      else name

  unfoldable pub add_element_to_object : Heap → ℕ → List (Bytes × ℕ) → Bytes → ℕ → Heap
  unfolding stored_name
  add_element_to_object h parent fields name child =
      set h parent (object (fields ++ ((stored_name fields name child, child) ∷ [])))

  -- The switch on the type of the parent, whose cell is given; a child of a single value is destroyed.
  unfoldable pub attach : Call → ℕ → ℕ → Option Cell → Context → Context
  unfolding add_element_to_array add_element_to_object
  attach e child parent (some (array items)) c = record c {
    heap = add_element_to_array c.heap parent items child;
    cookies = put_cookie e.depth (some child) c.cookies;
  }
  attach e child parent (some (object fields)) c = record c {
    heap =
        if e.pair_allocated
        then add_element_to_object c.heap parent fields e.name child
        else c.heap;
    was_error = not e.pair_allocated;
    cookies = put_cookie e.depth (some child) c.cookies;
  }
  attach e child parent _ c = record c { cookies = put_cookie e.depth none c.cookies }

  unfoldable pub attach_new : Call → ℕ → Option ℕ → Context → Context
  unfolding attach
  attach_new e child none c = record c {
    document = some child;
    cookies = put_cookie e.depth (some child) c.cookies;
  }
  attach_new e child (some parent) c = attach e child parent (get_elem? c.heap parent) c

  abbrev pub parent_of : ℕ → (ℕ → Option ℕ) → Option ℕ
  parent_of zero cookies = none
  parent_of (suc d) cookies = cookies d

  unfoldable pub enter_callback : Call → Context → Context
  unfolding create_new_node attach_new
  enter_callback e c =
      if c.was_error
      then c
      else if e.node_allocated
      then attach_new e (length c.heap) (parent_of e.depth c.cookies)
          (record c { heap = c.heap ++ (create_new_node e.type e.text ∷ []) })
      else record c { was_error = true }

  unfoldable pub run : List Call → Context → Context
  unfolding enter_callback
  run [] c = c
  run (e ∷ es) c = run es (enter_callback e c)

  -- The status of the parser with the calls that it made, and the memory with the pointer that is returned.
  unfoldable pub parse : Bool → List Call → Heap × Option ℕ
  unfolding run
  parse ok calls =
      let c = run calls start in (c.heap, if ok && not c.was_error then c.document else none)
