-- ===== src/Metadata/Library.antt =====
-- What tweak-metadata/src/tweakmetadata.c calls: the conversions' C library, `powf` and `pow` at its two constants, and the
-- JSON parser, whose document is the tree of `Json`.
use tweaktool.Common.{ℕ, ◌^◌, ◌<◌, ◌≡◌, Option, some, Bytes}
use tweaktool.Convert.Runtime.{Runtime}
use tweaktool.Json.{Node}
use tweaktool.Json.Accessors.{HasTexts}

pub record Library : Type 0 where
  pub runtime : Runtime
  -- powf(10.f, -4) and pow(10., -4)
  pub float_step : ℕ
  pub double_step : ℕ
  -- `none` where the text is no JSON document.
  pub parse_document : Bytes → Option Node
  pub float_step_lt : float_step < 2 ^ 32
  pub double_step_lt : double_step < 2 ^ 64
  pub parse_document-HasTexts : (s : Bytes) (d : Node) → parse_document s ≡ some d → HasTexts d
