-- ===== src/App/Features.antt =====
-- tweak-app/src/tweakappfeatures.c: what the peers of a connection can exchange.
use tweaktool.Common.{Bool, true, false, ◌&&◌, Option, none, some, Bytes, str_eq, [], ◌∷◌}
use tweaktool.Variant.{
  VariantType, null, bool, sint8, sint16, sint32, sint64, uint8, uint16, uint32, uint64, float,
  double,
}

pub record Features : Type 0 where
  pub vectors : Bool

unfoldable pub init_minimal : Features
init_minimal = record { vectors = false }

unfoldable pub init_default : Features
init_default = record { vectors = true }

-- What the JSON parser makes of the announced text: no object, or an object and the text of its
-- boolean field "vectors", if there is one.
pub data Document : Type 0 where
  not_object : Document
  object : Option Bytes → Document

true_text : Bytes
true_text = b't' ∷ b'r' ∷ b'u' ∷ b'e' ∷ []

-- `none` where the C function returns false.
unfoldable pub from_json : Document → Option Features
unfolding str_eq true_text init_default
from_json not_object = none
from_json (object none) = some init_default
from_json (object (some vector_node)) = some (record { vectors = str_eq true_text vector_node })

unfoldable pub check_type_compatibility : Features → VariantType → Bool
check_type_compatibility f null = false
check_type_compatibility f bool = true
check_type_compatibility f sint8 = true
check_type_compatibility f sint16 = true
check_type_compatibility f sint32 = true
check_type_compatibility f sint64 = true
check_type_compatibility f uint8 = true
check_type_compatibility f uint16 = true
check_type_compatibility f uint32 = true
check_type_compatibility f uint64 = true
check_type_compatibility f float = true
check_type_compatibility f double = true
check_type_compatibility f _ = f.vectors

unfoldable pub combine : Features → Features → Features
combine f g = record f { vectors = f.vectors && g.vectors }
