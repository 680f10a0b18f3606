-- ===== src/Metadata/Example.antt =====
-- A JSON parser that knows three documents, and the steps of a slider in hexadecimal digits of their bits.
use tweaktool.Common.{
  ◌≡◌, inl, inr, subst, Bool-cases, Option, none, some, [], ◌∷◌, Bytes, arith, str_eq,
  if◌then◌else◌,
}
use tweaktool.Convert.Example.{runtime}
use tweaktool.Json.{Node, object, array, bool, number, cons, nil, field, end}
use tweaktool.Json.Accessors.{HasTexts, PointsToTexts}
use tweaktool.Metadata.Library.{Library}
use tweaktool.Metadata.Names.{readonly_name, layout_name, dimensions_name}

abbrev pub empty_text : Bytes
empty_text = b'{' ∷ b'}' ∷ []

abbrev pub readonly_text : Bytes
readonly_text =
    b'{' ∷ b'"' ∷ b'r' ∷ b'e' ∷ b'a' ∷ b'd' ∷ b'o' ∷ b'n' ∷ b'l' ∷ b'y' ∷ b'"' ∷ b':' ∷ b't' ∷ b'r'
    ∷ b'u' ∷ b'e' ∷ b'}' ∷ []

abbrev pub layout_text : Bytes
layout_text =
    b'{' ∷ b'"' ∷ b'l' ∷ b'a' ∷ b'y' ∷ b'o' ∷ b'u' ∷ b't' ∷ b'"' ∷ b':' ∷ b'{' ∷ b'"' ∷ b'd' ∷ b'i'
    ∷ b'm' ∷ b'e' ∷ b'n' ∷ b's' ∷ b'i' ∷ b'o' ∷ b'n' ∷ b's' ∷ b'"' ∷ b':' ∷ b'[' ∷ b'3' ∷ b','
    ∷ b'2' ∷ b']' ∷ b'}' ∷ b'}' ∷ []

abbrev pub empty_document : Node
empty_document = object end

abbrev pub readonly_document : Node
readonly_document = object (field readonly_name (bool (b't' ∷ b'r' ∷ b'u' ∷ b'e' ∷ [])) end)

abbrev pub layout_document : Node
layout_document = object (
    field layout_name
      (object (
        field dimensions_name (array (cons (number (b'3' ∷ [])) (cons (number (b'2' ∷ [])) nil)))
          end))
      end)

unfoldable pub parse : Bytes → Option Node
unfolding str_eq
parse s =
    if str_eq s empty_text
    then some empty_document
    else if str_eq s readonly_text
    then some readonly_document
    else if str_eq s layout_text
    then some layout_document
    else none

texts : (s : Bytes) → PointsToTexts (parse s)
unfolding parse HasTexts
texts s = elim (Bool-cases (str_eq s empty_text)) [
  | inl e ↦ rw (parse, e) tt
  | inr e ↦ elim (Bool-cases (str_eq s readonly_text)) [
    | inl f ↦ rw (parse, e, f) (omega arith, tt)
    | inr f ↦ elim (Bool-cases (str_eq s layout_text)) [
      | inl g ↦ rw (parse, e, f, g) ((((omega arith, tt), ((omega arith, tt), tt)), tt), tt)
      | inr g ↦ rw (parse, e, f, g) tt
    ]
  ]
]

pub parse-HasTexts : (s : Bytes) (d : Node) → parse s ≡ some d → HasTexts d
parse-HasTexts s d e = subst PointsToTexts e (texts s)

abbrev pub library : Library
library = record {
  runtime = runtime;
  float_step = 0x38D1B717;
  double_step = 0x3F1A36E2EB1C432D;
  parse_document = parse;
  float_step_lt = omega arith;
  double_step_lt = omega arith;
  parse_document-HasTexts = parse-HasTexts;
}
