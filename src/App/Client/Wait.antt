-- ===== src/App/Client/Wait.antt =====
-- `check_wait_condition`, on which `tweak_app_client_wait_uris` waits.
use tweaktool.Common.{
  if_true, if_false, ℕ, ◌≡◌, refl, sym, ◌∙◌, ◌≢◌, ◌↔◌, true, false, Option, none, some, List, [],
  ◌∷◌, Bytes, arith, Bool-cases, Option-cases, subst, ◌>>=◌, inl, inr, ◌==◌,
}
use tweaktool.App.Table.{Table}
use tweaktool.App.Item.{Item, invalid_id}
use tweaktool.App.Index.{lookup_found, lookup_missing}
use tweaktool.App.Paired.{Paired}
use tweaktool.App.Client.{Client, wait_ids, check_wait_condition}

module _ (M : Table ℕ Item) (I : Table Bytes ℕ) (c : Client M I) where
  -- Each uri leads to an item with that uri, whose id stands at the same place of the list.
  abbrev pub Leads : List Bytes → List ℕ → Type 0
  Leads [] [] = Unit {0}
  Leads (uri ∷ uris) (id ∷ ids) =
      ((item : Item) × (M.find id c.model ≡ some item) × (item.uri ≡ uri)) × Leads uris ids
  Leads _ _ = ⊥

  wait_missing :
      (uri : Bytes) (uris : List Bytes)
      → I.find uri c.index ≡ none
      → wait_ids M I c.index (uri ∷ uris) ≡ none
  unfolding wait_ids
  wait_missing uri uris e = rw (lookup_missing I c.index uri e)

  wait_next :
      (uri : Bytes) (uris : List Bytes) (id : ℕ)
      → I.find uri c.index ≡ some id
      → id ≢ invalid_id
      → wait_ids M I c.index (uri ∷ uris) ≡ (wait_ids M I c.index uris >>= λ ids. some (id ∷ ids))
  unfolding wait_ids
  wait_next uri uris id e valid =
      let known : (id == invalid_id) ≡ false = ground arith in
      rw (lookup_found I c.index uri id e, known)

  none≢some {ℓ} : {A : Type ℓ} {o : Option A} {a : A} → o ≡ none → o ≡ some a → ⊥
  none≢some p q = cc (p, q)

  some_eq {ℓ} : {A : Type ℓ} {a b : A} → some a ≡ some b → a ≡ b
  some_eq p = cc (p)

  module _ (k : Paired M I c.model c.index) where
    ids-Leads :
        (uris : List Bytes) (ids : List ℕ) → wait_ids M I c.index uris ≡ some ids → Leads uris ids
    unfolding wait_ids
    ids-Leads [] ids e = subst (Leads []) (some_eq e) tt
    ids-Leads (uri ∷ uris) ids e = elim (Option-cases (I.find uri c.index)) [
      | inl missing ↦ absurd (none≢some (wait_missing uri uris missing) e)
      | inr (id, entry) ↦
          let (item, found, named) = k.indexed uri id entry in
          let step = wait_next uri uris id entry (k.nonzero id item found) in
          elim (Option-cases (wait_ids M I c.index uris)) [
            | inl stuck ↦
                let none_yet : wait_ids M I c.index (uri ∷ uris) ≡ none = step ∙ (rw stuck) in
                absurd (none≢some none_yet e)
            | inr (rest, more) ↦
                let full : wait_ids M I c.index (uri ∷ uris) ≡ some (id ∷ rest) =
                  step ∙ (rw more) in
                subst (Leads (uri ∷ uris)) (some_eq (sym full ∙ e))
                  ((item, found, named), ids-Leads uris rest more)
          ]
    ]

    Leads-ids :
        (uris : List Bytes) (ids : List ℕ) → Leads uris ids → wait_ids M I c.index uris ≡ some ids
    unfolding wait_ids
    Leads-ids [] [] h = refl
    Leads-ids [] (id ∷ ids) h = absurd h
    Leads-ids (uri ∷ uris) [] h = absurd h
    Leads-ids (uri ∷ uris) (id ∷ ids) h =
        let (item, found, named) = h.0 in
        wait_next uri uris id
          (subst (λ u. I.find u c.index ≡ some id) named (k.listed id item found).1)
          (k.nonzero id item found)
        ∙ (rw (Leads-ids uris ids h.1))

    -- The condition for which the program waits holds with some ids exactly when the client is connected and
    -- each of the uris has an item, whose id stands at the uri's place, if the model and the index describe
    -- the same items.
    pub check_wait_condition_iff :
        (uris : List Bytes) (ids : List ℕ)
        → (check_wait_condition M I c uris ≡ some ids) ↔ ((c.connected ≡ true) × Leads uris ids)
    unfolding check_wait_condition
    check_wait_condition_iff uris ids = elim (Bool-cases c.connected) [
      | inl on ↦ (
        λ e. (on, ids-Leads uris ids (sym (if_true c.connected _ _ on) ∙ e)),
        λ h. if_true c.connected _ _ on ∙ Leads-ids uris ids h.1,
      )
      | inr off ↦
          (λ e. absurd (none≢some (if_false c.connected _ _ off) e), λ h. absurd (cc (off, h.0)))
    ]
