-- ===== src/App/Item.antt =====
-- `tweak_item` of tweak-app/src/tweakmodel.h and the error codes of
-- tweak-app/include/tweak2/appcommon.h.
use tweaktool.Common.{ℕ, Bool, Bytes}
use tweaktool.Variant.{Variant, VariantType}

-- The parsed metadata is left out: only `metadata_initialized` says whether it is there.
pub record Item : Type 0 where
  pub id : ℕ
  pub uri : Bytes
  pub description : Bytes
  pub meta : Bytes
  pub variant_type : VariantType
  pub current_value : Variant
  pub default_value : Variant
  pub item_cookie : ℕ
  pub metadata_initialized : Bool

-- TWEAK_INVALID_ID
abbrev pub invalid_id : ℕ
invalid_id = 0

-- `tweak_app_error_code`
pub data AppError : Type 0 where
  success success_last_known_value item_not_found type_mismatch invalid_argument : AppError
  peer_disconnected timeout : AppError
