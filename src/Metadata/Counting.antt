-- ===== src/Metadata/Counting.antt =====
-- Counting with `variant_increment` of tweak-metadata/src/tweakmetadata.c from zero up.
use tweaktool.Common.{
  ℕ, zero, suc, ◌^◌, ◌<◌, ◌≡◌, refl, true, false, none, some, List, [], ◌∷◌, Bytes, arith,
}
use tweaktool.Common.Int.{pos}
use tweaktool.Variant.{
  VariantType, Value, bool, sint8, sint16, sint32, sint64, uint8, uint16, uint32, uint64, float,
  double, string, b, sint, uint,
}
use tweaktool.Variant.Types.{Fits}
use tweaktool.Convert.Parse.{of}
use tweaktool.Convert.Completes.{IsElement}
use tweaktool.Metadata.{MetaOption}
use tweaktool.Metadata.Values.{increment, zero_of}

-- How many values a type has from zero up; the others have no next value.
abbrev pub capacity : VariantType → ℕ
capacity bool = 2
capacity sint8 = 2 ^ 7
capacity sint16 = 2 ^ 15
capacity sint32 = 2 ^ 31
capacity sint64 = 2 ^ 63
capacity uint8 = 2 ^ 8
capacity uint16 = 2 ^ 16
capacity uint32 = 2 ^ 32
capacity uint64 = 2 ^ 64
capacity _ = 1

pub capacity_pos : (t : VariantType) → IsElement t → 0 < capacity t
capacity_pos bool h = omega arith
capacity_pos sint8 h = omega arith
capacity_pos sint16 h = omega arith
capacity_pos sint32 h = omega arith
capacity_pos sint64 h = omega arith
capacity_pos uint8 h = omega arith
capacity_pos uint16 h = omega arith
capacity_pos uint32 h = omega arith
capacity_pos uint64 h = omega arith
capacity_pos float h = omega arith
capacity_pos double h = omega arith
capacity_pos string h = omega arith
capacity_pos _ h = absurd h

-- The `i`-th value from zero up.
abbrev pub value_at : VariantType → ℕ → Value
value_at bool zero = b false
value_at bool (suc i) = b true
value_at sint8 i = sint (pos i)
value_at sint16 i = sint (pos i)
value_at sint32 i = sint (pos i)
value_at sint64 i = sint (pos i)
value_at uint8 i = uint i
value_at uint16 i = uint i
value_at uint32 i = uint i
value_at uint64 i = uint i
value_at t i = zero_of t

abbrev pub option_at : VariantType → ℕ → Bytes → MetaOption
option_at t i s = record { text = s; value = of t (value_at t i) }

abbrev pub numbered : VariantType → ℕ → List Bytes → List MetaOption
numbered t i [] = []
numbered t i (s ∷ ss) = record { text = s; value = of t (value_at t i) } ∷ numbered t (suc i) ss

pub value_at-Fits : (t : VariantType) (i : ℕ) → IsElement t → i < capacity t → Fits t (value_at t i)
unfolding zero_of
value_at-Fits bool zero h k = tt
value_at-Fits bool (suc i) h k = tt
value_at-Fits sint8 i h k = k
value_at-Fits sint16 i h k = k
value_at-Fits sint32 i h k = k
value_at-Fits sint64 i h k = k
value_at-Fits uint8 i h k = k
value_at-Fits uint16 i h k = k
value_at-Fits uint32 i h k = k
value_at-Fits uint64 i h k = k
value_at-Fits float i h k = omega arith
value_at-Fits double i h k = omega arith
value_at-Fits string i h k = tt
value_at-Fits _ i h k = absurd h

pub increment_at :
    (t : VariantType) (i : ℕ)
    → IsElement t
    → suc i < capacity t
    → increment t (value_at t i) ≡ some (of t (value_at t (suc i)))
unfolding increment
increment_at bool zero h k = refl
increment_at bool (suc i) h k = absurd (omega (arith, k))
increment_at sint8 i h k = ground (arith, k)
increment_at sint16 i h k = ground (arith, k)
increment_at sint32 i h k = ground (arith, k)
increment_at sint64 i h k = ground (arith, k)
increment_at uint8 i h k = ground (arith, k)
increment_at uint16 i h k = ground (arith, k)
increment_at uint32 i h k = ground (arith, k)
increment_at uint64 i h k = ground (arith, k)
increment_at float i h k = absurd (omega (arith, k))
increment_at double i h k = absurd (omega (arith, k))
increment_at string i h k = absurd (omega (arith, k))
increment_at _ i h k = absurd h

pub increment_last :
    (t : VariantType) (i : ℕ) → IsElement t → suc i ≡ capacity t → increment t (value_at t i) ≡ none
unfolding increment zero_of
increment_last bool zero h k = absurd (omega (arith, k))
increment_last bool (suc i) h k = refl
increment_last sint8 i h k = ground (arith, k)
increment_last sint16 i h k = ground (arith, k)
increment_last sint32 i h k = ground (arith, k)
increment_last sint64 i h k = ground (arith, k)
increment_last uint8 i h k = ground (arith, k)
increment_last uint16 i h k = ground (arith, k)
increment_last uint32 i h k = ground (arith, k)
increment_last uint64 i h k = ground (arith, k)
increment_last float i h k = refl
increment_last double i h k = refl
increment_last string i h k = refl
increment_last _ i h k = absurd h

pub zero_at : (t : VariantType) → IsElement t → value_at t 0 ≡ zero_of t
unfolding zero_of
zero_at bool h = refl
zero_at sint8 h = refl
zero_at sint16 h = refl
zero_at sint32 h = refl
zero_at sint64 h = refl
zero_at uint8 h = refl
zero_at uint16 h = refl
zero_at uint32 h = refl
zero_at uint64 h = refl
zero_at float h = refl
zero_at double h = refl
zero_at string h = refl
zero_at _ h = absurd h
