-- ===== src/Json/Tests.antt =====
-- Documents.
use tweaktool.Common.{ℕ, ◌≡◌, refl, true, some, [], ◌∷◌, Bytes}
use tweaktool.Json.{Node, cons, nil, field, end}
use tweaktool.Json.Build.{Heap, parse, has_name}
use tweaktool.Json.Stored.{Stores}
use tweaktool.Json.Calls.{document_calls, HasDistinctNames}
use tweaktool.Json.Parsed.{parse-Stores}

abbrev print_pointer : ℕ → Bytes
print_pointer a = b'0' ∷ b'x' ∷ a ∷ []

abbrev first : Bytes
first = b'a' ∷ []

abbrev second : Bytes
second = b'b' ∷ []

-- {"a": [1, null], "b": {"a": "b"}}
abbrev document : Node
document = Node.object (
    field first (Node.array (cons (Node.number (b'1' ∷ [])) (cons Node.null nil)))
      (field second (Node.object (field first (Node.string second) end)) end))

document-HasDistinctNames : HasDistinctNames document
unfolding HasDistinctNames has_name
document-HasDistinctNames = (refl, (tt, (tt, tt)), (refl, (refl, tt, tt), tt))

parse-Stores_example :
    (h : Heap) × (parse print_pointer true (document_calls document) ≡ (h, some 0))
    × Stores 0 h 0 document
parse-Stores_example = parse-Stores print_pointer document document-HasDistinctNames
