-- ===== src/Text/Copy.antt =====
-- `tweak_variant_string_copy`, `tweak_variant_str_is_equal` and `tweak_variant_string_is_empty`.
use tweaktool.Common.{
  ℕ, ◌+◌, ◌^◌, ◌≤◌, ◌<◌, ◌≡◌, refl, ◌↔◌, ◌⊎◌, inl, inr, true, false, none, some, [], length, leb,
  Bytes, str_eq, str_eq_iff, IsText, arith,
}
use tweaktool.Text.{
  Str, large_buffer, inline_size, empty, is_small, c_str, assign, reserve, add_size, start,
  str_is_equal, copy,
}
use tweaktool.Text.Memory.{
  Cells, uninit, strncpy, holding, strncpy_lem, strncpy_rest, length-uninit, length-strncpy_rest,
}
use tweaktool.Text.Holds.{Holds, Result, large-Holds, c_str-Holds, empty-Holds}
use tweaktool.Text.Assign.{assign-Holds}

-- The copy that is made of a text on the heap.
heap_copy : Bytes → Str
heap_copy t = record {
  length = length t;
  capacity = length t + 1;
  buffers = large_buffer (holding t (strncpy_rest (uninit (length t + 1)) t (length t + 1)));
}

copy_step :
    (s : Str) (t : Bytes) (d : Cells) (n l : ℕ)
    → is_small s ≡ false
    → c_str s ≡ some t
    → s.length ≡ l
    → add_size l 1 ≡ n
    → strncpy (uninit n) t n ≡ some d
    → copy s ≡ some (record { length = l; capacity = n; buffers = large_buffer d })
unfolding copy
copy_step s t d n l big read counted total copied = rw (big, read, counted, total, copied)

copy-heap_copy :
    (s : Str) (t : Bytes) (rest : Cells)
    → Holds s t rest
    → is_small s ≡ false
    → length t < 2 ^ 60
    → copy s ≡ some (heap_copy t)
unfolding heap_copy
copy-heap_copy s t rest h big small =
    copy_step s t _ (length t + 1) (length t) big (c_str-Holds s t rest h) h.counted (omega arith) (
      strncpy_lem (uninit (length t + 1)) t (length t + 1) (omega arith)
        (omega (arith, length-uninit (length t + 1))))

-- The copy of a string that holds a text holds that text, if the text is stored inside the struct or
-- has at least 128 bytes.
pub copy-Holds :
    (s : Str) (t : Bytes) (rest : Cells)
    → Holds s t rest
    → (is_small s ≡ true) ⊎ (inline_size ≤ length t)
    → length t < 2 ^ 60
    → Result (copy s) t
unfolding copy heap_copy
copy-Holds s t rest h (inl e) small = (s, rest, rw e, h)
copy-Holds s t rest h (inr long) small = (
  heap_copy t,
  strncpy_rest (uninit (length t + 1)) t (length t + 1),
  copy-heap_copy s t rest h (ground (arith, h.sized)) small,
  large-Holds (record { length = length t; capacity = 0; buffers = large_buffer [] }) t _
      (length t + 1) h.text refl (omega arith)
      (omega (
        arith,
        length-strncpy_rest (uninit (length t + 1)) t (length t + 1),
        length-uninit (length t + 1),
      )),
)

-- A string on the heap whose text has become shorter than 128 bytes has a copy that reads as no text.
pub copy_broken :
    (s : Str) (t : Bytes) (rest : Cells)
    → Holds s t rest
    → is_small s ≡ false
    → length t < inline_size
    → (s' : Str) × (copy s ≡ some s') × (c_str s' ≡ none)
unfolding c_str heap_copy
copy_broken s t rest h big short =
    (heap_copy t, copy-heap_copy s t rest h big (omega arith), unreadable)
  where
    fits : leb (length t + 1) inline_size ≡ true
    fits = ground arith

    unreadable : c_str (heap_copy t) ≡ none
    unreadable = rw fits

capacity-assign :
    (s s' : Str) (arg : Bytes)
    → assign s (some arg) ≡ some s'
    → s'.capacity ≡ (reserve (start s) (add_size (length arg) 1)).capacity
unfolding assign
capacity-assign s s' arg e = ground arith

grown :
    (s1 : Str) (n : ℕ)
    → inline_size ≤ n
    → n < 2 ^ 60
    → s1.capacity ≡ (reserve (start empty) (add_size n 1)).capacity
    → inline_size < s1.capacity
unfolding reserve
grown s1 n big small e = ground arith

still_large :
    (s1 s2 : Str) (n : ℕ)
    → inline_size < s1.capacity
    → n < inline_size
    → s2.capacity ≡ (reserve (start s1) (add_size n 1)).capacity
    → is_small s2 ≡ false
unfolding reserve is_small
still_large s1 s2 n big small e = ground arith

-- A long text assigned to an empty string and then a text of less than 128 bytes: the string holds the
-- short text, and its copy reads as no text.
pub reassigned_copy_broken :
    (long short : Bytes)
    → IsText long
    → IsText short
    → inline_size ≤ length long
    → length long < 2 ^ 60
    → length short < inline_size
    → (s1 s2 s3 : Str) × (assign empty (some long) ≡ some s1)
      × (assign s1 (some short) ≡ some s2)
      × (c_str s2 ≡ some short)
      × (copy s2 ≡ some s3)
      × (c_str s3 ≡ none)
reassigned_copy_broken long short ok1 ok2 l1 l2 l3 =
    let (s1, rest1, e1, h1) = assign-Holds empty [] long _ empty-Holds ok1 (omega arith) in
    let (s2, rest2, e2, h2) = assign-Holds s1 long short rest1 h1 ok2 (omega arith) in
    let (s3, e3, r3) = copy_broken s2 short rest2 h2 (big s1 s2 e1 e2) l3 in
    (s1, s2, s3, e1, e2, c_str-Holds s2 short rest2 h2, e3, r3)
  where
    big :
        (s1 s2 : Str)
        → assign empty (some long) ≡ some s1
        → assign s1 (some short) ≡ some s2
        → is_small s2 ≡ false
    big s1 s2 e1 e2 =
        still_large s1 s2 (length short)
          (grown s1 (length long) l1 l2 (capacity-assign empty s1 long e1)) (omega arith)
          (capacity-assign s1 s2 short e2)

-- Two strings that hold texts are equal exactly when the texts are.
pub str_is_equal_iff :
    (s1 s2 : Str) (t1 t2 : Bytes) (rest1 rest2 : Cells)
    → Holds s1 t1 rest1
    → Holds s2 t2 rest2
    → (str_is_equal s1 s2 ≡ some true) ↔ (t1 ≡ t2)
unfolding str_is_equal
str_is_equal_iff s1 s2 t1 t2 rest1 rest2 h1 h2 =
    (λ e. (str_eq_iff t1 t2).0 (cc (equal, e)), λ e. rw (equal, (str_eq_iff t1 t2).1 e))
  where
    equal : str_is_equal s1 s2 ≡ some (str_eq t1 t2)
    equal = rw (c_str-Holds s1 t1 rest1 h1, c_str-Holds s2 t2 rest2 h2)
