-- ===== src/App/Compatibility.antt =====
-- `tweak_app_context_private_check_value_compatibility` of tweak-app/src/tweakappcommon.c.
use tweaktool.Common.{Bool, true, false, not, ◌==◌, if◌then◌else◌}
use tweaktool.Variant.{Variant, type_code, item_size, buffer_size}

-- Two variants at different addresses.
unfoldable pub check_value_compatibility : Variant → Variant → Bool
unfolding type_code item_size buffer_size
check_value_compatibility sample value =
    if not (type_code sample.type == type_code value.type)
    then false
    else if type_code sample.type == 0
    then false
    else if item_size sample.type == 0
    then true
    else buffer_size sample.value == buffer_size value.value
