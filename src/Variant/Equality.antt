-- ===== src/Variant/Equality.antt =====
-- `tweak_variant_is_equal` and equality of values.
use tweaktool.Common.{◌≡◌, refl, ◌≢◌, ◌↔◌, Bool, true, arith, ◌==◌, str_eq_iff, ap, subst, ==_iff}
use tweaktool.Common.Int.{ℤ, eqb_ℤ}
use tweaktool.Variant.{
  VariantType, Value, Variant, null, nothing, b, sint, uint, fp32, fp64, text, buffer, same_value,
  is_equal, type_code,
}
use tweaktool.Variant.Types.{type_code-injective}

-- Values on which the comparison is equality.
abbrev pub IsExact : Value → Type 0
IsExact nothing = ⊥
IsExact (fp32 x) = ⊥
IsExact (fp64 x) = ⊥
IsExact _ = Unit {0}

eqb_ℤ_iff : (x y : ℤ) → (eqb_ℤ x y ≡ true) ↔ (x ≡ y)
eqb_ℤ_iff x y = ground arith

same_value→eq : (x y : Value) → IsExact x → same_value x y ≡ true → x ≡ y
unfolding same_value
same_value→eq nothing y h e = elim h [ ]
same_value→eq (fp32 x) y h e = elim h [ ]
same_value→eq (fp64 x) y h e = elim h [ ]
same_value→eq (b x) (b y) h e = ground arith
same_value→eq (sint x) (sint y) h e = ap sint ((eqb_ℤ_iff x y).0 e)
same_value→eq (uint x) (uint y) h e = ground arith
same_value→eq (text x) (text y) h e = ap text ((str_eq_iff x y).0 e)
same_value→eq (buffer x) (buffer y) h e = ground (arith, (str_eq_iff x y).0)
same_value→eq _ _ h e = cc

same_value_refl : (x : Value) → IsExact x → same_value x x ≡ true
unfolding same_value
same_value_refl nothing h = elim h [ ]
same_value_refl (fp32 x) h = elim h [ ]
same_value_refl (fp64 x) h = elim h [ ]
same_value_refl (b x) h = ground arith
same_value_refl (sint x) h = (eqb_ℤ_iff x x).1 refl
same_value_refl (uint x) h = ground arith
same_value_refl (text x) h = (str_eq_iff x x).1 refl
same_value_refl (buffer x) h = ground (arith, (str_eq_iff x x).1 refl)

is_null : VariantType → Bool
is_null t = type_code t == 0

is_null_iff : (t : VariantType) → (is_null t ≡ true) ↔ (t ≡ null)
unfolding is_null type_code
is_null_iff t = (λ e. type_code-injective t null ((==_iff _ _).0 e), λ e. rw e)

parts_eq : (u v : Variant) → u.type ≡ v.type → u.value ≡ v.value → u ≡ v
parts_eq u v p q = λ i. record { type = p i; value = q i }

-- A value that is neither null nor a float is equal to another one for the code exactly when both have
-- the same type and the same contents.
pub is_equal_iff :
    (u v : Variant) → IsExact u.value → u.type ≢ null → (is_equal u v ≡ true) ↔ (u ≡ v)
unfolding is_equal is_null
is_equal_iff u v exact ne = (
  λ e. parts_eq u v (same_type e) (same_value→eq u.value v.value exact (ground arith)),
  λ e. subst (λ w. is_equal u w ≡ true) e (ground (arith, same_value_refl u.value exact)),
)
  where
    same_type : is_equal u v ≡ true → u.type ≡ v.type
    same_type e = type_code-injective u.type v.type (ground arith)
