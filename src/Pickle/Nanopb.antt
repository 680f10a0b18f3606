-- ===== src/Pickle/Nanopb.antt =====
-- What the program uses of nanopb (tweak-pickle/src/autogen, a copy of that library): the primitives that
-- write and read the pieces of a message, with their documented laws. A reader gives the rest of the
-- stream, or `none` where it fails.
use tweaktool.Common.{ℕ, ◌^◌, ◌<◌, ◌≡◌, Option, some, ◌++◌, length, Bytes}

pub record Codec : Type 0 where
  pub encode_varint : ℕ → Bytes
  pub decode_varint32 : Bytes → Option (ℕ × Bytes)
  pub encode_fixed32 : ℕ → Bytes
  pub decode_fixed32 : Bytes → Option (ℕ × Bytes)
  pub encode_fixed64 : ℕ → Bytes
  pub decode_fixed64 : Bytes → Option (ℕ × Bytes)
  pub varint_lem :
      (n : ℕ) (rest : Bytes)
      → n < 2 ^ 32
      → decode_varint32 (encode_varint n ++ rest) ≡ some (n, rest)
  pub fixed32_lem :
      (n : ℕ) (rest : Bytes)
      → n < 2 ^ 32
      → decode_fixed32 (encode_fixed32 n ++ rest) ≡ some (n, rest)
  pub fixed64_lem :
      (n : ℕ) (rest : Bytes)
      → n < 2 ^ 64
      → decode_fixed64 (encode_fixed64 n ++ rest) ≡ some (n, rest)
  pub varint_shorter :
      (s : Bytes) (n : ℕ) (rest : Bytes)
      → decode_varint32 s ≡ some (n, rest)
      → length rest < length s
  pub fixed32_shorter :
      (s : Bytes) (n : ℕ) (rest : Bytes)
      → decode_fixed32 s ≡ some (n, rest)
      → length rest < length s
  pub fixed64_shorter :
      (s : Bytes) (n : ℕ) (rest : Bytes)
      → decode_fixed64 s ≡ some (n, rest)
      → length rest < length s
