-- ===== src/Json/NodeType.antt =====
-- `tweak_json_node_type` of tweak-json/include/tweak2/json.h; `value` is each of the types with a text.
use tweaktool.Common.{ℕ}

abbrev pub invalid : ℕ
invalid = 0

abbrev pub null : ℕ
null = 1

abbrev pub array : ℕ
array = 2

abbrev pub object : ℕ
object = 4

abbrev pub string : ℕ
string = 8

abbrev pub bool : ℕ
bool = 16

abbrev pub number : ℕ
number = 32

abbrev pub value : ℕ
value = 56
