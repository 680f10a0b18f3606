-- ===== src/Pickle/Tests.antt =====
-- Messages over a codec of fixed width.
use tweaktool.Common.{
  ℕ, zero, suc, ◌+◌, ◌*◌, ◌/◌, ◌%◌, ◌<◌, ◌≡◌, refl, ap, Option, none, some, List, [], ◌∷◌, ◌++◌,
  length, Bytes, arith, ◌>>=◌, Option-cases, inl, inr, Bool, true, ◌==◌, ==_iff, str_eq, str_eq_iff,
  false,
}
use tweaktool.Common.Int.{pos, negsuc}
use tweaktool.Variant.{Variant, VariantType, Value}
use tweaktool.App.Table.{Table}
use tweaktool.App.Assoc
use tweaktool.App.Assoc.{table}
use tweaktool.App.Item.{Item}
use tweaktool.App.Features.{check_type_compatibility, init_default}
use tweaktool.App.Model.{Memory}
use tweaktool.App.Server.{Server, Message, client_changes_item, server_add_item}
use tweaktool.App.Server.Call.{create}
use tweaktool.Pickle.Stream.{arrived, received}
use tweaktool.Pickle.RoundTrip.{delivered, received_lem}
use tweaktool.Pickle.Growth.{Growing, zeroed, get_data, append_values}
use tweaktool.Pickle.Growth.Appended.{append_values_lem}
use tweaktool.Text.Memory.{Cells}
use tweaktool.Pickle.Requests.{lost_type_immutable}
use tweaktool.Pickle.Nanopb.{Codec}
use tweaktool.Words.{store_le, bound}

abbrev read : ℕ → Bytes → Option (ℕ × Bytes)
read zero s = some (0, s)
read (suc n) [] = none
read (suc n) (b ∷ s) = read n s >>= λ r. some (b + 256 * r.0, r.1)

read-store_le :
    (n x : ℕ) (rest : Bytes) → x < bound n → read n (store_le n x ++ rest) ≡ some (x, rest)
read-store_le zero x rest h = ap (λ y. some (y, rest)) (omega arith)
read-store_le (suc n) x rest h =
    let whole : x % 256 + 256 * (x / 256) ≡ x = omega arith in
    let high : x / 256 < bound n = omega arith in
    rw (read-store_le n (x / 256) rest high, whole) refl

read_shorter :
    (n : ℕ) (s : Bytes) (x : ℕ) (rest : Bytes)
    → read n s ≡ some (x, rest)
    → length rest + n ≡ length s
read_shorter zero s x rest e = ground (arith)
read_shorter (suc n) [] x rest e = ground (arith)
read_shorter (suc n) (b ∷ s) x rest e = elim (Option-cases (read n s)) [
  | inl p ↦ ground (arith, p)
  | inr (r, p) ↦ ground (arith, p, read_shorter n s r.0 r.1 p)
]

shorter :
    (n : ℕ) (s : Bytes) (x : ℕ) (rest : Bytes)
    → read (suc n) s ≡ some (x, rest)
    → length rest < length s
shorter n s x rest e = omega (arith, read_shorter (suc n) s x rest e)

abbrev codec : Codec
codec = record {
  encode_varint = store_le 4;
  decode_varint32 = read 4;
  encode_fixed32 = store_le 4;
  decode_fixed32 = read 4;
  encode_fixed64 = store_le 8;
  decode_fixed64 = read 8;
  varint_lem = read-store_le 4;
  fixed32_lem = read-store_le 4;
  fixed64_lem = read-store_le 8;
  varint_shorter = shorter 3;
  fixed32_shorter = shorter 3;
  fixed64_shorter = shorter 7;
}

abbrev two_shorts : Bytes
two_shorts = 255 ∷ 255 ∷ 1 ∷ 2 ∷ []

abbrev shorts : Variant
shorts = record { type = VariantType.vector_sint16; value = Value.buffer two_shorts }

received_lem_example :
    received codec 13 shorts ≡ delivered VariantType.vector_sint16 (Value.buffer two_shorts)
received_lem_example =
    received_lem codec 13 (omega arith) shorts (omega arith, omega arith) (omega arith, omega arith)

abbrev items : Table ℕ Item
items = table (λ a b. a == b) ==_iff

abbrev uris : Table Bytes ℕ
uris = table str_eq str_eq_iff

abbrev reached : List Message → Message → Bool
reached sent message = true

abbrev plenty : Memory
plenty = record { item = true; model_pair = true; index_pair = true; index_key = true }

abbrev small : Variant
small = record { type = VariantType.sint8; value = Value.sint (negsuc 6) }

abbrev context : Server items uris
context =
    (server_add_item items uris reached plenty (b'g' ∷ []) [] [] small 0
      (create items uris reached true 1)).1

abbrev item : Item
item = record {
  id = 1;
  uri = b'g' ∷ [];
  description = [];
  meta = [];
  variant_type = VariantType.sint8;
  current_value = small;
  default_value = small;
  item_cookie = 0;
  metadata_initialized = false;
}

found_item : items.find 1 context.model ≡ some item
unfolding server_add_item create Assoc.find check_type_compatibility init_default
found_item = refl

abbrev other : Variant
other = record { type = VariantType.sint8; value = Value.sint (pos 5) }

abbrev widened : Variant
widened = record { type = VariantType.sint32; value = Value.sint (pos 5) }

arrives : received codec 13 other ≡ arrived widened
arrives = received_lem codec 13 (omega arith) other (omega arith) tt

lost_type_immutable_example :
    (t : Server items uris) × (client_changes_item items uris reached 1 widened context ≡ some t)
    × (t.model ≡ context.model)
lost_type_immutable_example =
    lost_type_immutable codec 13 (omega arith) items uris reached other widened 1 item context
      (omega arith) tt arrives found_item tt

-- A block of four elements.
append_values_lem_example :
    (h : Growing) × (rest : Cells) × (append_values 4 (7 ∷ 8 ∷ 9 ∷ 10 ∷ 11 ∷ []) (zeroed 4)
      ≡ some h)
    × (h.count ≡ 5)
    × (h.size ≡ 5)
    × (get_data 4 h ≡ some (some 7 ∷ some 8 ∷ some 9 ∷ some 10 ∷ some 11 ∷ rest))
append_values_lem_example = append_values_lem 4 (omega arith) (7 ∷ 8 ∷ 9 ∷ 10 ∷ 11 ∷ [])
