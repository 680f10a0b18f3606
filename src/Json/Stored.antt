-- ===== src/Json/Stored.antt =====
-- What `tweak_json_parse` of tweak-json/src/tweakjson.c builds from the calls of the parser for a document.
use tweaktool.Common.{ℕ, ◌≤◌, ◌≡◌, some, List, [], ◌∷◌, get_elem?, Bytes, arith}
use tweaktool.Json.{Node, Items, Fields, nil, cons, end, field}
use tweaktool.Json.Build.{Cell, Heap}

-- The memory from `lo` on holds the node at an address.
unfoldable mutual
  pub Stores : ℕ → Heap → ℕ → Node → Type 0
  Stores lo h a Node.null = (lo ≤ a) × (get_elem? h a ≡ some Cell.null)
  Stores lo h a (Node.array xs) =
      (lo ≤ a)
      × ((ptrs : List ℕ) × (get_elem? h a ≡ some (Cell.array ptrs)) × StoresItems lo h ptrs xs)
  Stores lo h a (Node.object fs) =
      (lo ≤ a)
      × ((ptrs : List (Bytes × ℕ)) × (get_elem? h a ≡ some (Cell.object ptrs))
          × StoresFields lo h ptrs fs)
  Stores lo h a (Node.string s) = (lo ≤ a) × (get_elem? h a ≡ some (Cell.string s))
  Stores lo h a (Node.bool s) = (lo ≤ a) × (get_elem? h a ≡ some (Cell.bool s))
  Stores lo h a (Node.number s) = (lo ≤ a) × (get_elem? h a ≡ some (Cell.number s))

  pub StoresItems : ℕ → Heap → List ℕ → Items → Type 0
  StoresItems lo h [] nil = Unit {0}
  StoresItems lo h (a ∷ ptrs) (cons x xs) = Stores lo h a x × StoresItems lo h ptrs xs
  StoresItems lo h [] (cons x xs) = ⊥
  StoresItems lo h (a ∷ ptrs) nil = ⊥

  pub StoresFields : ℕ → Heap → List (Bytes × ℕ) → Fields → Type 0
  StoresFields lo h [] end = Unit {0}
  StoresFields lo h (a ∷ ptrs) (field k v fs) =
      (a.0 ≡ k) × Stores lo h a.1 v × StoresFields lo h ptrs fs
  StoresFields lo h [] (field k v fs) = ⊥
  StoresFields lo h (a ∷ ptrs) end = ⊥

-- Cells from an address on stay as they are.
unfoldable pub Keeps : ℕ → Heap → Heap → Type 0
Keeps lo h k = (i : ℕ) (x : Cell) → lo ≤ i → get_elem? h i ≡ some x → get_elem? k i ≡ some x

mutual
  unfolding Stores Keeps

  pub kept-Stores :
      (lo low : ℕ) (h k : Heap) (a : ℕ) (n : Node)
      → low ≤ lo
      → Keeps lo h k
      → Stores lo h a n
      → Stores low k a n
  kept-Stores lo low h k a Node.null p q s = (omega (arith, p, s.0), q a _ s.0 s.1)
  kept-Stores lo low h k a (Node.string x) p q s = (omega (arith, p, s.0), q a _ s.0 s.1)
  kept-Stores lo low h k a (Node.bool x) p q s = (omega (arith, p, s.0), q a _ s.0 s.1)
  kept-Stores lo low h k a (Node.number x) p q s = (omega (arith, p, s.0), q a _ s.0 s.1)
  kept-Stores lo low h k a (Node.array xs) p q (b, (ptrs, e, r)) =
      (omega (arith, p, b), (ptrs, q a _ b e, items_kept lo low h k ptrs xs p q r))
  kept-Stores lo low h k a (Node.object fs) p q (b, (ptrs, e, r)) =
      (omega (arith, p, b), (ptrs, q a _ b e, fields_kept lo low h k ptrs fs p q r))

  pub items_kept :
      (lo low : ℕ) (h k : Heap) (ptrs : List ℕ) (xs : Items)
      → low ≤ lo
      → Keeps lo h k
      → StoresItems lo h ptrs xs
      → StoresItems low k ptrs xs
  items_kept lo low h k [] nil p q s = tt
  items_kept lo low h k (a ∷ ptrs) (cons x xs) p q s =
      (kept-Stores lo low h k a x p q s.0, items_kept lo low h k ptrs xs p q s.1)
  items_kept lo low h k [] (cons x xs) p q s = absurd s
  items_kept lo low h k (a ∷ ptrs) nil p q s = absurd s

  pub fields_kept :
      (lo low : ℕ) (h k : Heap) (ptrs : List (Bytes × ℕ)) (fs : Fields)
      → low ≤ lo
      → Keeps lo h k
      → StoresFields lo h ptrs fs
      → StoresFields low k ptrs fs
  fields_kept lo low h k [] end p q s = tt
  fields_kept lo low h k (a ∷ ptrs) (field i v fs) p q s =
      (s.0, kept-Stores lo low h k a.1 v p q s.1, fields_kept lo low h k ptrs fs p q s.2)
  fields_kept lo low h k [] (field i v fs) p q s = absurd s
  fields_kept lo low h k (a ∷ ptrs) end p q s = absurd s
