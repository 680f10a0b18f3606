-- ===== src/Metadata/Names.antt =====
-- The words of a document that tweak-metadata/src/tweakmetadata.c looks for.
use tweaktool.Common.{Bytes, [], ◌∷◌}

abbrev pub readonly_name : Bytes
readonly_name = b'r' ∷ b'e' ∷ b'a' ∷ b'd' ∷ b'o' ∷ b'n' ∷ b'l' ∷ b'y' ∷ []

abbrev pub unit_name : Bytes
unit_name = b'u' ∷ b'n' ∷ b'i' ∷ b't' ∷ []

abbrev pub options_name : Bytes
options_name = b'o' ∷ b'p' ∷ b't' ∷ b'i' ∷ b'o' ∷ b'n' ∷ b's' ∷ []

abbrev pub layout_name : Bytes
layout_name = b'l' ∷ b'a' ∷ b'y' ∷ b'o' ∷ b'u' ∷ b't' ∷ []

abbrev pub control_name : Bytes
control_name = b'c' ∷ b'o' ∷ b'n' ∷ b't' ∷ b'r' ∷ b'o' ∷ b'l' ∷ []

abbrev pub min_name : Bytes
min_name = b'm' ∷ b'i' ∷ b'n' ∷ []

abbrev pub max_name : Bytes
max_name = b'm' ∷ b'a' ∷ b'x' ∷ []

abbrev pub step_name : Bytes
step_name = b's' ∷ b't' ∷ b'e' ∷ b'p' ∷ []

abbrev pub decimals_name : Bytes
decimals_name = b'd' ∷ b'e' ∷ b'c' ∷ b'i' ∷ b'm' ∷ b'a' ∷ b'l' ∷ b's' ∷ []

abbrev pub caption_name : Bytes
caption_name = b'c' ∷ b'a' ∷ b'p' ∷ b't' ∷ b'i' ∷ b'o' ∷ b'n' ∷ []

abbrev pub text_name : Bytes
text_name = b't' ∷ b'e' ∷ b'x' ∷ b't' ∷ []

abbrev pub value_name : Bytes
value_name = b'v' ∷ b'a' ∷ b'l' ∷ b'u' ∷ b'e' ∷ []

abbrev pub dimensions_name : Bytes
dimensions_name = b'd' ∷ b'i' ∷ b'm' ∷ b'e' ∷ b'n' ∷ b's' ∷ b'i' ∷ b'o' ∷ b'n' ∷ b's' ∷ []

abbrev pub order_name : Bytes
order_name = b'o' ∷ b'r' ∷ b'd' ∷ b'e' ∷ b'r' ∷ []

abbrev pub checkbox_name : Bytes
checkbox_name = b'c' ∷ b'h' ∷ b'e' ∷ b'c' ∷ b'k' ∷ b'b' ∷ b'o' ∷ b'x' ∷ []

abbrev pub spinbox_name : Bytes
spinbox_name = b's' ∷ b'p' ∷ b'i' ∷ b'n' ∷ b'b' ∷ b'o' ∷ b'x' ∷ []

abbrev pub slider_name : Bytes
slider_name = b's' ∷ b'l' ∷ b'i' ∷ b'd' ∷ b'e' ∷ b'r' ∷ []

abbrev pub combobox_name : Bytes
combobox_name = b'c' ∷ b'o' ∷ b'm' ∷ b'b' ∷ b'o' ∷ b'b' ∷ b'o' ∷ b'x' ∷ []

abbrev pub button_name : Bytes
button_name = b'b' ∷ b'u' ∷ b't' ∷ b't' ∷ b'o' ∷ b'n' ∷ []

abbrev pub editbox_name : Bytes
editbox_name = b'e' ∷ b'd' ∷ b'i' ∷ b't' ∷ b'b' ∷ b'o' ∷ b'x' ∷ []

abbrev pub row_major_name : Bytes
row_major_name = b'r' ∷ b'o' ∷ b'w' ∷ b'-' ∷ b'm' ∷ b'a' ∷ b'j' ∷ b'o' ∷ b'r' ∷ []

abbrev pub column_major_name : Bytes
column_major_name =
    b'c' ∷ b'o' ∷ b'l' ∷ b'u' ∷ b'm' ∷ b'n' ∷ b'-' ∷ b'm' ∷ b'a' ∷ b'j' ∷ b'o' ∷ b'r' ∷ []
