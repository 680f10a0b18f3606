-- ===== src/Pickle/Requests.antt =====
-- A change that a client requests, from its value on the wire (tweak-pickle/src/tweakpickle_pb_util.c) to the
-- handler of the server (tweak-app/src/tweakappserver.c).
use tweaktool.Common.{
  ℕ, ◌^◌, ◌<◌, ◌≡◌, refl, sym, ◌∙◌, subst, Bool-cases, inl, inr, Bool, true, false, some, List,
  length, ltb, Bytes, if◌then◌else◌,
}
use tweaktool.Variant.{
  VariantType, Value, Variant, null, bool, sint8, sint16, sint32, sint64, uint8, uint16, uint32,
  uint64, float, double, string, vector_sint8, vector_sint16, vector_sint32, vector_sint64,
  vector_uint8, vector_uint16, vector_uint32, vector_uint64, vector_float, vector_double, nothing,
  b, sint, uint, fp32, fp64, text, buffer,
}
use tweaktool.Variant.Types.{Fits, IsWellTyped}
use tweaktool.App.Table.{Table}
use tweaktool.App.Item.{Item}
use tweaktool.App.Compatibility.{check_value_compatibility}
use tweaktool.App.Server.{Server, Message, client_changes_item}
use tweaktool.App.Server.Change.{compatible-type, requested, client_changes_known}
use tweaktool.Pickle.Nanopb.{Codec}
use tweaktool.Pickle.Stream.{Arrival, arrived, breaks, small_buffer_size, received}
use tweaktool.Pickle.RoundTrip.{IsSendable, delivered, received_lem}

-- The types that the messages do not keep.
abbrev pub IsLost : VariantType → Type 0
IsLost sint8 = Unit {0}
IsLost uint64 = Unit {0}
IsLost _ = ⊥

abbrev arrived_type : Arrival → VariantType
arrived_type (arrived u) = u.type
arrived_type _ = null

if-kept :
    (c : Bool) (v : Variant)
    → (IsLost v.type → ⊥)
    → IsLost (arrived_type (if c then breaks else arrived v))
    → ⊥
if-kept true v h l = l
if-kept false v h l = h l

delivered-kept :
    (t : VariantType) (x : Value) → Fits t x → IsLost (arrived_type (delivered t x)) → ⊥
delivered-kept null nothing h l = l
delivered-kept bool (b x) h l = l
delivered-kept sint8 (sint x) h l = l
delivered-kept sint16 (sint x) h l = l
delivered-kept sint32 (sint x) h l = l
delivered-kept sint64 (sint x) h l = l
delivered-kept uint8 (uint x) h l = l
delivered-kept uint16 (uint x) h l = l
delivered-kept uint32 (uint x) h l = l
delivered-kept uint64 (uint x) h l = l
delivered-kept float (fp32 x) h l = l
delivered-kept double (fp64 x) h l = l
delivered-kept string (text x) h l = l
delivered-kept vector_sint8 (buffer x) h l =
    if-kept (ltb small_buffer_size (length x)) (record { type = vector_sint8; value = buffer x })
      (λ k. k) l
delivered-kept vector_sint16 (buffer x) h l = l
delivered-kept vector_sint32 (buffer x) h l = l
delivered-kept vector_sint64 (buffer x) h l = l
delivered-kept vector_uint8 (buffer x) h l =
    if-kept (ltb small_buffer_size (length x)) (record { type = vector_uint8; value = buffer x })
      (λ k. k) l
delivered-kept vector_uint16 (buffer x) h l = l
delivered-kept vector_uint32 (buffer x) h l = l
delivered-kept vector_uint64 (buffer x) h l = l
delivered-kept vector_float (buffer x) h l = l
delivered-kept vector_double (buffer x) h l = l
delivered-kept _ _ h l = absurd h

module _ (C : Codec) (field_tag : ℕ) (small_tag : field_tag < 2 ^ 32) where
  received-kept :
      (v u : Variant)
      → IsWellTyped v
      → IsSendable v.value
      → received C field_tag v ≡ arrived u
      → IsLost u.type
      → ⊥
  received-kept v u typed sendable e l = delivered-kept v.type v.value typed (
      subst (λ r. IsLost (arrived_type r))
        (sym e ∙ received_lem C field_tag small_tag v typed sendable) l)

  -- Whatever value a client sends in a request to change a known item whose value is a sint8 or a uint64, well typed
  -- and small enough to be sent: if a value arrives from it (which a vector of more than 128 single bytes prevents,
  -- since it breaks the receiver), the server takes the request and keeps all its items as they are.
  pub lost_type_immutable :
      (M : Table ℕ Item) (I : Table Bytes ℕ) (accepts : List Message → Message → Bool)
      (v u : Variant) (id : ℕ) (item : Item) (s : Server M I)
      → IsWellTyped v
      → IsSendable v.value
      → received C field_tag v ≡ arrived u
      → M.find id s.model ≡ some item
      → IsLost item.current_value.type
      → (t : Server M I) × (client_changes_item M I accepts id u s ≡ some t) × (t.model ≡ s.model)
  lost_type_immutable M I accepts v u id item s typed sendable e found l =
      elim (Bool-cases (check_value_compatibility item.current_value u)) [
        | inl ok ↦ absurd (
            received-kept v u typed sendable e
              (subst IsLost (compatible-type item.current_value u ok) l))
        | inr bad ↦ (
          requested M I accepts id u s item,
          client_changes_known M I accepts id u s item found,
          rw bad refl,
        )
      ]
