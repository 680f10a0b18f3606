-- ===== src/Json/Calls.antt =====
-- The calls that a JSON parser makes for a document, node by node from the root on, and their effect on the memory of
-- `tweak_json_parse` (tweak-json/src/tweakjson.c).
use tweaktool.Common.{
  ℕ, zero, suc, ◌≤◌, ◌<◌, ◌≡◌, ◌≢◌, refl, ◌∙◌, true, false, Option, some, List, [], ◌∷◌, ◌++◌,
  length, get_elem?, ◌==◌, Bytes, arith,
}
use tweaktool.Json.{Node, Items, Fields, nil, cons, end, field}
use tweaktool.Json.Build.{
  Cell, JsonType, json_null, json_array, json_object, json_string, json_bool, json_number, Call,
  Context, put_cookie, has_name, enter_callback, run,
}

abbrev pub kind : Node → JsonType
kind Node.null = json_null
kind (Node.array xs) = json_array
kind (Node.object fs) = json_object
kind (Node.string s) = json_string
kind (Node.bool s) = json_bool
kind (Node.number s) = json_number

-- The text that is passed with a node.
abbrev pub passed : Node → Bytes
passed (Node.string s) = s
passed (Node.bool s) = s
passed (Node.number s) = s
passed _ = []

abbrev pub call : ℕ → Bytes → Node → Call
call d name n = record {
  depth = d;
  type = kind n;
  name = name;
  text = passed n;
  node_allocated = true;
  pair_allocated = true;
}

-- The calls for what is inside a node at a depth.
unfoldable mutual
  pub inner : ℕ → Node → List Call
  inner d (Node.array xs) = item_calls (suc d) xs
  inner d (Node.object fs) = field_calls (suc d) fs
  inner d Node.null = []
  inner d (Node.string s) = []
  inner d (Node.bool s) = []
  inner d (Node.number s) = []

  pub item_calls : ℕ → Items → List Call
  item_calls d nil = []
  item_calls d (cons x xs) = call d [] x ∷ (inner d x ++ item_calls d xs)

  pub field_calls : ℕ → Fields → List Call
  field_calls d end = []
  field_calls d (field k v fs) = call d k v ∷ (inner d v ++ field_calls d fs)

-- A node with all that is inside, as the root of a document.
abbrev pub document_calls : Node → List Call
document_calls n = call 0 [] n ∷ inner 0 n

pub run-append :
    (P : ℕ → Bytes) (xs ys : List Call) (c : Context) → run P (xs ++ ys) c ≡ run P ys (run P xs c)
unfolding run
run-append P [] ys c = refl
run-append P (x ∷ xs) ys c = run-append P xs ys (enter_callback P x c)

pub get-append :
    {A : Type 0} (xs ys : List A) (i : ℕ) (x : A)
    → get_elem? xs i ≡ some x
    → get_elem? (xs ++ ys) i ≡ some x
get-append [] ys i x e = cc (e)
get-append (a ∷ xs) ys zero x e = e
get-append (a ∷ xs) ys (suc i) x e = get-append xs ys i x e

pub get-last : {A : Type 0} (xs : List A) (x : A) → get_elem? (xs ++ (x ∷ [])) (length xs) ≡ some x
get-last [] x = refl
get-last (a ∷ xs) x = get-last xs x

pub in_range : {A : Type 0} (xs : List A) (i : ℕ) (x : A) → get_elem? xs i ≡ some x → i < length xs
in_range [] i x e = cc (e)
in_range (a ∷ xs) zero x e = omega arith
in_range (a ∷ xs) (suc i) x e = omega (arith, in_range xs i x e)

-- No object of the document has two fields of one name; the names before are given.
unfoldable mutual
  pub HasDistinctNames : Node → Type 0
  HasDistinctNames (Node.array xs) = ItemsDistinct xs
  HasDistinctNames (Node.object fs) = FieldsDistinct [] fs
  HasDistinctNames Node.null = Unit {0}
  HasDistinctNames (Node.string s) = Unit {0}
  HasDistinctNames (Node.bool s) = Unit {0}
  HasDistinctNames (Node.number s) = Unit {0}

  pub ItemsDistinct : Items → Type 0
  ItemsDistinct nil = Unit {0}
  ItemsDistinct (cons x xs) = HasDistinctNames x × ItemsDistinct xs

  pub FieldsDistinct : List Bytes → Fields → Type 0
  FieldsDistinct ks end = Unit {0}
  FieldsDistinct ks (field k v fs) =
      (has_name ks k ≡ false) × HasDistinctNames v × FieldsDistinct (ks ++ (k ∷ [])) fs

pub put_self : (d : ℕ) (v : Option ℕ) (f : ℕ → Option ℕ) → put_cookie d v f d ≡ v
put_self d v f = let e : (d == d) ≡ true = ground arith in rw e refl

pub put_other : (d : ℕ) (v : Option ℕ) (f : ℕ → Option ℕ) (i : ℕ) → i ≢ d → put_cookie d v f i ≡ f i
put_other d v f i h = let e : (i == d) ≡ false = ground (arith, h) in rw e refl

-- The context after the calls for a part of the document under the node at an address: nothing failed, the cookies of the
-- depths above and the cells of the other nodes are as before.
pub record IsRun (d a : ℕ) (c k : Context) : Type 0 where
  pub was_error : k.was_error ≡ false
  pub document : k.document ≡ c.document
  pub cookies : (i : ℕ) → i < d → k.cookies i ≡ c.cookies i
  pub size : length c.heap ≤ length k.heap
  pub others :
      (i : ℕ) (x : Cell) → i ≢ a → get_elem? c.heap i ≡ some x → get_elem? k.heap i ≡ some x

pub IsRun-trans : (d a : ℕ) (c k l : Context) → IsRun d a c k → IsRun d a k l → IsRun d a c l
IsRun-trans d a c k l p q = record {
  was_error = q.was_error;
  document = q.document ∙ p.document;
  cookies = λ i h. q.cookies i h ∙ p.cookies i h;
  size = omega (arith, p.size, q.size);
  others = λ i x h e. q.others i x h (p.others i x h e);
}
