-- ===== src/Convert/ToJson.antt =====
-- tweak-common/src/tweakvariant.c: `tweak_variant_to_json`. A value that is not of its variant's type is `none`.
use tweaktool.Common.{
  IsText, suc, length, ◌≡◌, refl, arith, Option, none, some, [], ◌∷◌, ◌++◌, Bytes,
}
use tweaktool.Variant.{
  VariantType, Value, null, bool, sint8, sint16, sint32, sint64, uint8, uint16, uint32, uint64,
  float, double, string, vector_sint8, vector_sint16, vector_sint32, vector_sint64, vector_uint8,
  vector_uint16, vector_uint32, vector_uint64, vector_float, vector_double, b, sint, uint, fp32,
  fp64, text, buffer,
}
use tweaktool.Convert.Decimal.{print_signed, print_unsigned}
use tweaktool.Convert.Runtime.{Runtime}
use tweaktool.Convert.Print.{null_to_string, bool_to_string, vector_to_string}
use tweaktool.Convert.Escape.{json_escape_string, read_string, read_string-json_escape_string}
use tweaktool.Words.{AreBytes}

abbrev bool_name : Bytes
bool_name = b'b' ∷ b'o' ∷ b'o' ∷ b'l' ∷ []

abbrev sint8_name : Bytes
sint8_name = b's' ∷ b'i' ∷ b'n' ∷ b't' ∷ b'8' ∷ []

abbrev sint16_name : Bytes
sint16_name = b's' ∷ b'i' ∷ b'n' ∷ b't' ∷ b'1' ∷ b'6' ∷ []

abbrev sint32_name : Bytes
sint32_name = b's' ∷ b'i' ∷ b'n' ∷ b't' ∷ b'3' ∷ b'2' ∷ []

abbrev sint64_name : Bytes
sint64_name = b's' ∷ b'i' ∷ b'n' ∷ b't' ∷ b'6' ∷ b'4' ∷ []

abbrev uint8_name : Bytes
uint8_name = b'u' ∷ b'i' ∷ b'n' ∷ b't' ∷ b'8' ∷ []

abbrev uint16_name : Bytes
uint16_name = b'u' ∷ b'i' ∷ b'n' ∷ b't' ∷ b'1' ∷ b'6' ∷ []

abbrev uint32_name : Bytes
uint32_name = b'u' ∷ b'i' ∷ b'n' ∷ b't' ∷ b'3' ∷ b'2' ∷ []

abbrev uint64_name : Bytes
uint64_name = b'u' ∷ b'i' ∷ b'n' ∷ b't' ∷ b'6' ∷ b'4' ∷ []

abbrev float_name : Bytes
float_name = b'f' ∷ b'l' ∷ b'o' ∷ b'a' ∷ b't' ∷ []

abbrev double_name : Bytes
double_name = b'd' ∷ b'o' ∷ b'u' ∷ b'b' ∷ b'l' ∷ b'e' ∷ []

-- The macro IMPLEMENT_SCALAR_ITEM_TO_JSON for a suffix, and the printed value.
unfoldable pub item_to_json : Bytes → Bytes → Bytes
item_to_json suffix s = b'{' ∷ b'"' ∷ (suffix ++ (b'"' ∷ b':' ∷ b' ' ∷ (s ++ (b'}' ∷ []))))

-- The macro IMPLEMENT_VECTOR_ITEM_TO_JSON.
unfoldable pub vector_to_json : Bytes → Bytes → Bytes
vector_to_json suffix s =
    (b'{' ∷ b'"' ∷ b'v' ∷ b'e' ∷ b'c' ∷ b't' ∷ b'o' ∷ b'r' ∷ b'"' ∷ b':' ∷ b' ' ∷ b'{' ∷ b'"' ∷ b'i'
      ∷ b't' ∷ b'e' ∷ b'm' ∷ b'_' ∷ b't' ∷ b'y' ∷ b'p' ∷ b'e' ∷ b'"' ∷ b':' ∷ b' ' ∷ b'"' ∷ [])
    ++ (suffix
        ++ ((b'"' ∷ b',' ∷ b' ' ∷ b'"' ∷ b'i' ∷ b't' ∷ b'e' ∷ b'm' ∷ b's' ∷ b'"' ∷ b':' ∷ b' ' ∷ [])
            ++ (s ++ (b'}' ∷ b'}' ∷ []))))

unfoldable pub string_to_json : Bytes → Bytes
unfolding json_escape_string
string_to_json s =
    (b'{' ∷ b'"' ∷ b's' ∷ b't' ∷ b'r' ∷ b'i' ∷ b'n' ∷ b'g' ∷ b'"' ∷ b':' ∷ b' ' ∷ b'"' ∷ [])
    ++ (json_escape_string s ++ (b'"' ∷ b'}' ∷ []))

module _ (R : Runtime) where
  unfoldable pub to_json : VariantType → Value → Option Bytes
  unfolding item_to_json vector_to_json string_to_json null_to_string bool_to_string
      vector_to_string
  to_json null x = some null_to_string
  to_json bool (b x) = some (item_to_json bool_name (bool_to_string x))
  to_json sint8 (sint x) = some (item_to_json sint8_name (print_signed x))
  to_json sint16 (sint x) = some (item_to_json sint16_name (print_signed x))
  to_json sint32 (sint x) = some (item_to_json sint32_name (print_signed x))
  to_json sint64 (sint x) = some (item_to_json sint64_name (print_signed x))
  to_json uint8 (uint x) = some (item_to_json uint8_name (print_unsigned x))
  to_json uint16 (uint x) = some (item_to_json uint16_name (print_unsigned x))
  to_json uint32 (uint x) = some (item_to_json uint32_name (print_unsigned x))
  to_json uint64 (uint x) = some (item_to_json uint64_name (print_unsigned x))
  to_json float (fp32 x) = some (item_to_json float_name (R.print_double (R.to_double x)))
  to_json double (fp64 x) = some (item_to_json double_name (R.print_double x))
  to_json string (text x) = some (string_to_json x)
  to_json vector_sint8 (buffer x) = some (vector_to_json sint8_name (vector_to_string R 1 sint8 x))
  to_json vector_sint16 (buffer x) =
      some (vector_to_json sint16_name (vector_to_string R 2 sint16 x))
  to_json vector_sint32 (buffer x) =
      some (vector_to_json sint32_name (vector_to_string R 4 sint32 x))
  to_json vector_sint64 (buffer x) =
      some (vector_to_json sint64_name (vector_to_string R 8 sint64 x))
  to_json vector_uint8 (buffer x) = some (vector_to_json uint8_name (vector_to_string R 1 uint8 x))
  to_json vector_uint16 (buffer x) =
      some (vector_to_json uint16_name (vector_to_string R 2 uint16 x))
  to_json vector_uint32 (buffer x) =
      some (vector_to_json uint32_name (vector_to_string R 4 uint32 x))
  to_json vector_uint64 (buffer x) =
      some (vector_to_json uint64_name (vector_to_string R 8 uint64 x))
  to_json vector_float (buffer x) = some (vector_to_json float_name (vector_to_string R 4 float x))
  to_json vector_double (buffer x) =
      some (vector_to_json double_name (vector_to_string R 8 double x))
  to_json _ _ = none

abbrev pub string_start : Bytes
string_start =
    b'{' ∷ b'"' ∷ b's' ∷ b't' ∷ b'r' ∷ b'i' ∷ b'n' ∷ b'g' ∷ b'"' ∷ b':' ∷ b' ' ∷ b'"' ∷ []

-- For a C string, the JSON text of a string variant is an object whose one member, "string", is a JSON string that reads as
-- the text, and nothing follows it.
pub string_json_lem :
    (R : Runtime) (s : Bytes)
    → AreBytes s
    → IsText s
    → (body : Bytes) × (to_json R string (text s) ≡ some (string_start ++ body))
      × (read_string (suc (length s)) body ≡ some (s, b'}' ∷ []))
unfolding to_json string_to_json
string_json_lem R s ok nonzero = (
  json_escape_string s ++ (b'"' ∷ b'}' ∷ []),
  refl,
  read_string-json_escape_string s (b'}' ∷ []) (suc (length s)) ok nonzero (omega arith),
)
