-- ===== src/App/Assoc.antt =====
-- Association lists are a table in the sense of `Table`: an instance to run the code with.
use tweaktool.Common.{
  ◌≡◌, ◌≢◌, refl, sym, ap, ap₂, ◌∙◌, ◌↔◌, Bool, true, false, Option, none, some, List, [], ◌∷◌, All,
  if◌then◌else◌, Bool-cases, inl, inr, arith,
}
use mathlib.Core.List.{Memᴰ}
use mathlib.Core.List.Memᴰ
use tweaktool.App.Table.{Table}

module _ {K : Type 0} (test : K → K → Bool) (iff : (a b : K) → (test a b ≡ true) ↔ (a ≡ b)) where
  test_refl : (k : K) → test k k ≡ true
  test_refl k = (iff k k).1 refl

  test_ne : (k j : K) → k ≢ j → test k j ≡ false
  test_ne k j ne = elim (Bool-cases (test k j)) [ inl e ↦ absurd (ne ((iff k j).0 e)) | inr e ↦ e ]

module _ {K V : Type 0} (test : K → K → Bool) (iff : (a b : K) → (test a b ≡ true) ↔ (a ≡ b)) where
  unfoldable pub find : K → List (K × V) → Option V
  find k [] = none
  find k ((j, v) ∷ m) = if test j k then some v else find k m

  unfoldable pub delete : K → List (K × V) → List (K × V)
  delete k [] = []
  delete k ((j, v) ∷ m) = if test j k then delete k m else (j, v) ∷ delete k m

  -- The entries that no later change of the same key hides.
  unfoldable pub entries : List (K × V) → List (K × V)
  unfolding delete
  entries [] = []
  entries ((k, v) ∷ m) = (k, v) ∷ delete k (entries m)

  pub find-here : (k : K) (v : V) (m : List (K × V)) → find k ((k, v) ∷ m) ≡ some v
  unfolding find
  find-here k v m = rw (test_refl test iff k)

  pub find-there : (k j : K) (v : V) (m : List (K × V)) → k ≢ j → find j ((k, v) ∷ m) ≡ find j m
  unfolding find
  find-there k j v m ne = rw (test_ne test iff k j ne)

  pub delete_self : (k : K) (m : List (K × V)) → find k (delete k m) ≡ none
  unfolding find delete
  delete_self k [] = refl
  delete_self k ((j, v) ∷ m) = elim (Bool-cases (test j k)) [
    | inl e ↦ rw e (delete_self k m)
    | inr e ↦ rw (e, e) (delete_self k m)
  ]

  pub delete_ne : (k j : K) (m : List (K × V)) → k ≢ j → find j (delete k m) ≡ find j m
  unfolding find delete
  delete_ne k j [] ne = refl
  delete_ne k j ((i, v) ∷ m) ne = elim (Bool-cases (test i k)) [
    | inl e ↦ rw (e, test_ne test iff i j (λ p. ne (sym ((iff i k).0 e) ∙ p))) (delete_ne k j m ne)
    | inr e ↦ rw e (ap (λ r. if test i j then some v else r) (delete_ne k j m ne))
  ]

  All-delete :
      {P Q : K × V → Type 0} (k : K) (m : List (K × V))
      → ((e : K × V) → test e.0 k ≡ false → P e → Q e)
      → All P m
      → All Q (delete k m)
  unfolding delete
  All-delete k [] f h = tt
  All-delete k ((j, v) ∷ m) f h = elim (Bool-cases (test j k)) [
    | inl e ↦ rw e (All-delete k m f h.1)
    | inr e ↦ rw e (f (j, v) e h.0, All-delete k m f h.1)
  ]

  Mem-delete :
      (k : K) (a : K × V) (m : List (K × V)) → test a.0 k ≡ false → Memᴰ a m → Memᴰ a (delete k m)
  unfolding delete
  Mem-delete k a [] ne h = h
  Mem-delete k a ((i, w) ∷ m) ne h = elim (Memᴰ.cases_cons h) [
    | inl p ↦ elim (Bool-cases (test i k)) [
      | inl e ↦ absurd (cc (e, ne, ap (λ x. x.0) p))
      | inr e ↦ rw e (Memᴰ.head p)
    ]
    | inr later ↦ elim (Bool-cases (test i k)) [
      | inl e ↦ rw e (Mem-delete k a m ne later)
      | inr e ↦ rw e (Memᴰ.tail (Mem-delete k a m ne later))
    ]
  ]

  pub All-found : (m : List (K × V)) → All (λ e. find e.0 m ≡ some e.1) (entries m)
  unfolding entries
  All-found [] = tt
  All-found ((k, v) ∷ m) = (
    find-here k v m,
    All-delete k (entries m)
        (λ e ne h. find-there k e.0 v m (λ p. cc (ne, (iff e.0 k).1 (sym p))) ∙ h) (All-found m),
  )

  pub found-all : (k : K) (v : V) (m : List (K × V)) → find k m ≡ some v → Memᴰ (k, v) (entries m)
  unfolding entries find
  found-all k v [] e = absurd (cc (e))
  found-all k v ((j, w) ∷ m) e = elim (Bool-cases (test j k)) [
    | inl same ↦ Memᴰ.head (ap₂ (λ x y. (x, y)) (sym ((iff j k).0 same)) (ground arith))
    | inr other ↦
        Memᴰ.tail
          (Mem-delete j (k, v) (entries m) (reversed j other) (found-all k v m (ground arith)))
  ]
    where
      reversed : (j : K) → test j k ≡ false → test k j ≡ false
      reversed j other = test_ne test iff k j (λ p. cc (other, (iff j k).1 (sym p)))

  pub find_nil : (k : K) → find k [] ≡ none
  unfolding find
  find_nil k = refl

  abbrev pub table : Table K V
  table = record {
    Map = List (K × V);
    empty = [];
    find = find;
    add = λ k v m. (k, v) ∷ m;
    delete = delete;
    update = λ k v m. (k, v) ∷ m;
    entries = entries;
    find-empty = find_nil;
    find-add_self = λ k v m free. find-here k v m;
    find-add_ne = λ k j v m free ne. find-there k j v m ne;
    find-delete_self = delete_self;
    find-delete_ne = delete_ne;
    find-update_self = λ k v w m old. find-here k v m;
    find-update_ne = λ k j v m ne. find-there k j v m ne;
    entries-found = All-found;
    found-entries = found-all;
  }
