-- ===== src/App/Client/Add.antt =====
-- `client_add_item_pickle_impl`: what it leaves behind.
use tweaktool.Common.{
  ℕ, ◌≡◌, refl, sym, ◌∙◌, ap, ◌≢◌, ◌⊎◌, inl, inr, true, false, Option, none, some, Bytes,
  str_eq_iff, arith, Bool-cases, Option-cases, ◌==◌, ==_iff, if◌then◌else◌,
}
use tweaktool.Variant.{is_equal}
use tweaktool.App.Table.{Table, find-add, find-update}
use tweaktool.App.Item.{Item, invalid_id}
use tweaktool.App.Model.{Memory, enough}
use tweaktool.App.Index
use tweaktool.App.Paired.{Paired, same_id, lookup-free, add-Paired, update-Paired}
use tweaktool.App.Client.{
  Client, AddItem, new_item, current_value_changed, report, client_add_item, is_add_item_correct,
}

-- The item that an announcement makes.
abbrev pub mirrored : AddItem → Item
mirrored add = record {
  id = add.id;
  uri = add.uri;
  description = add.description;
  meta = add.meta;
  variant_type = add.current_value.type;
  current_value = add.current_value;
  default_value = add.default_value;
  item_cookie = 0;
  metadata_initialized = false;
}

-- The item has the announced texts, and the announced value or one that the code takes for equal.
abbrev pub IsMirrored : AddItem → Item → Type 0
IsMirrored add item =
    (item.uri ≡ add.uri)
    × (item.description ≡ add.description)
    × (item.meta ≡ add.meta)
    × ((item.current_value ≡ add.current_value)
        ⊎ (is_equal item.current_value add.current_value ≡ true))

some_eq {ℓ} : {A : Type ℓ} {a b : A} → some a ≡ some b → a ≡ b
some_eq p = cc (p)

none≢some {ℓ} : {A : Type ℓ} {o : Option A} {a : A} → o ≡ none → o ≡ some a → ⊥
none≢some p q = cc (p, q)

correct-IsMirrored :
    (add : AddItem) (item : Item)
    → is_add_item_correct add item ≡ true
    → (item.id ≡ add.id)
      × (item.uri ≡ add.uri)
      × (item.description ≡ add.description)
      × (item.meta ≡ add.meta)
unfolding is_add_item_correct
correct-IsMirrored add item e = (
  ground arith,
  (str_eq_iff item.uri add.uri).0 (ground arith),
  (str_eq_iff item.description add.description).0 (ground arith),
  (str_eq_iff item.meta add.meta).0 (ground arith),
)

module _ (M : Table ℕ Item) (I : Table Bytes ℕ) (memory : Memory) (add : AddItem)
    (c : Client M I) where
  abbrev pub outcome : Option (Client M I)
  outcome = client_add_item M I memory add c

  -- The context after the item was added.
  abbrev pub added : Client M I
  added = report M I c.callbacks.on_new_item (new_item add.id) (record c {
    model = M.add add.id (mirrored add) c.model;
    index = I.add add.uri add.id c.index;
  })

  -- The context after the value of an item that was there was changed.
  abbrev updated : ℕ → Item → Client M I
  updated id item =
      report M I c.callbacks.on_current_value_changed (current_value_changed id add.current_value)
        (record c {
          model = M.update id (record item { current_value = add.current_value }) c.model;
        })

  module _ (k : Paired M I c.model c.index) where
    pub add_new :
        Index.lookup I c.index add.uri ≡ invalid_id
        → M.find add.id c.model ≡ none
        → enough memory ≡ true
        → add.id ≢ invalid_id
        → outcome ≡ some added
    unfolding client_add_item
    add_new free vacant m valid = ground (arith, lookup-free M I k add.uri free)

    add_fatal :
        Index.lookup I c.index add.uri ≡ invalid_id
        → ((item : Item) × (M.find add.id c.model ≡ some item))
          ⊎ ((enough memory ≡ false) ⊎ (add.id ≡ invalid_id))
        → outcome ≡ none
    unfolding client_add_item
    add_fatal free h = ground (arith, lookup-free M I k add.uri free)

    add_again :
        (id : ℕ) (item : Item)
        → Index.lookup I c.index add.uri ≡ id
        → id ≢ invalid_id
        → M.find id c.model ≡ some item
        → outcome ≡ (
            if is_add_item_correct add item
            then (if is_equal item.current_value add.current_value
                then some c
                else some (updated id item))
            else none)
    unfolding client_add_item
    add_again id item looked valid found =
        let known : (Index.lookup I c.index add.uri == invalid_id) ≡ false = ground arith in
        let there : M.find (Index.lookup I c.index add.uri) c.model ≡ some item = rw looked found in
        rw (known, there) (ap after looked)
      where
        after : ℕ → Option (Client M I)
        after n =
            if is_add_item_correct add item
            then (if is_equal item.current_value add.current_value
                then some c
                else some (updated n item))
            else none

    -- What an announcement that succeeds leaves behind.
    abbrev pub Mirrors : Client M I → Type 0
    Mirrors t =
        (item : Item) × (M.find add.id t.model ≡ some item)
        × IsMirrored add item
        × (Index.lookup I t.index add.uri ≡ add.id)
        × ((j : ℕ) → M.find j t.model ≡ (if add.id == j then some item else M.find j c.model))

    -- What an announcement that ends the program met: not enough memory or an invalid or used id for a new uri,
    -- or a known uri at which `is_add_item_correct` is false.
    abbrev pub Conflicts : Type 0
    Conflicts =
        (Index.lookup I c.index add.uri ≡ invalid_id)
          × (((item : Item) × (M.find add.id c.model ≡ some item))
              ⊎ ((enough memory ≡ false) ⊎ (add.id ≡ invalid_id)))
        ⊎ ((id : ℕ) × (item : Item) × (I.find add.uri c.index ≡ some id)
            × (M.find id c.model ≡ some item)
            × (is_add_item_correct add item ≡ false))

    added-Mirrors :
        Index.lookup I c.index add.uri ≡ invalid_id → M.find add.id c.model ≡ none → Mirrors added
    unfolding Index.lookup
    added-Mirrors free vacant = (
      mirrored add,
      M.find-add_self add.id (mirrored add) c.model vacant,
      (refl, refl, refl, inl refl),
      Index.lookup_found I _ add.uri add.id
          (I.find-add_self add.uri add.id c.index (lookup-free M I k add.uri free)),
      λ j. find-add M (λ a b. a == b) ==_iff add.id j (mirrored add) c.model vacant,
    )

    same_entry :
        (item : Item)
        → M.find add.id c.model ≡ some item
        → (j : ℕ) → M.find j c.model ≡ (if add.id == j then some item else M.find j c.model)
    same_entry item found j = elim (Bool-cases (add.id == j)) [
      | inl p ↦ rw p (rw (← (==_iff add.id j).0 p) found)
      | inr p ↦ rw p
    ]

    again-Mirrors :
        (item : Item)
        → I.find add.uri c.index ≡ some add.id
        → M.find add.id c.model ≡ some item
        → is_add_item_correct add item ≡ true
        → (t : Client M I) × ((if is_equal item.current_value add.current_value
              then some c
              else some (updated add.id item))
            ≡ some t)
          × Mirrors t
          × Paired M I t.model t.index
    again-Mirrors item entry found ok =
        let (_, uri_eq, description_eq, meta_eq) = correct-IsMirrored add item ok in
        elim (Bool-cases (is_equal item.current_value add.current_value)) [
          | inl same ↦ (
            c,
            rw same,
            (
              item,
              found,
              (uri_eq, description_eq, meta_eq, inr same),
              Index.lookup_found I c.index add.uri add.id entry,
              same_entry item found,
            ),
            k,
          )
          | inr new ↦ (
            updated add.id item,
            rw new,
            (
              record item { current_value = add.current_value },
              M.find-update_self add.id (record item { current_value = add.current_value }) item
                  c.model found,
              (uri_eq, description_eq, meta_eq, inl refl),
              Index.lookup_found I c.index add.uri add.id entry,
              λ j.
                  find-update M (λ a b. a == b) ==_iff add.id j
                    (record item { current_value = add.current_value }) item c.model found,
            ),
            update-Paired M I k add.id item (record item { current_value = add.current_value })
                found refl refl,
          )
        ]

    -- What an announcement does.
    abbrev pub Answers : Type 0
    Answers =
        ((t : Client M I) × (outcome ≡ some t) × Mirrors t × Paired M I t.model t.index)
        ⊎ Conflicts × (outcome ≡ none)

    answers_new : Index.lookup I c.index add.uri ≡ invalid_id → Answers
    answers_new free = elim (Option-cases (M.find add.id c.model)) [
      | inr taken ↦ inr (inl (free, inl taken), add_fatal free (inl taken))
      | inl vacant ↦ elim (Bool-cases (enough memory)) [
        | inr m ↦ inr (inl (free, inr (inl m)), add_fatal free (inr (inl m)))
        | inl m ↦ elim (same_id add.id invalid_id) [
          | inl z ↦ inr (inl (free, inr (inr z)), add_fatal free (inr (inr z)))
          | inr valid ↦ inl (
            added,
            add_new free vacant m valid,
            added-Mirrors free vacant,
            add-Paired M I k add.id (mirrored add) add.uri refl refl valid vacant
                (lookup-free M I k add.uri free),
          )
        ]
      ]
    ]

    add_same :
        (item : Item)
        → I.find add.uri c.index ≡ some add.id
        → M.find add.id c.model ≡ some item
        → is_add_item_correct add item ≡ true
        → outcome ≡ (
            if is_equal item.current_value add.current_value
            then some c
            else some (updated add.id item))
    add_same item entry found ok =
        add_again add.id item (Index.lookup_found I c.index add.uri add.id entry)
          (k.nonzero add.id item found) found
        ∙ (rw ok)

    answers_again :
        (id : ℕ) (item : Item)
        → I.find add.uri c.index ≡ some id
        → M.find id c.model ≡ some item
        → Answers
    answers_again id item entry found =
        let step =
          add_again id item (Index.lookup_found I c.index add.uri id entry)
            (k.nonzero id item found) found in
        elim (Bool-cases (is_add_item_correct add item)) [
          | inr bad ↦ inr (inr (id, item, entry, found, bad), step ∙ (rw bad))
          | inl ok ↦
              let id_eq : add.id ≡ id =
                sym (correct-IsMirrored add item ok).0 ∙ (k.listed id item found).0 in
              let entry2 : I.find add.uri c.index ≡ some add.id = rw id_eq entry in
              let found2 : M.find add.id c.model ≡ some item = rw id_eq found in
              let (t, e, mirrors, paired) = again-Mirrors item entry2 found2 ok in
              inl (t, add_same item entry2 found2 ok ∙ e, mirrors, paired)
        ]

    -- In a client context whose model and index describe the same items, an announcement has one of two outcomes.
    -- It ends the program, which it does only for a new uri when the id is in use or invalid or memory is short, and
    -- for a known uri when is_add_item_correct does not accept it for the item there (another id or text, or a default
    -- value that the comparison does not take for equal, such as a NaN). Or it leaves an item with the announced id, uri
    -- and texts and the announced value (or one that the code takes for equal), leaves every other item as it was, and
    -- keeps model and index describing the same items.
    pub client_add_item_lem : Answers
    client_add_item_lem = elim (Option-cases (I.find add.uri c.index)) [
      | inl free ↦ answers_new (Index.lookup_missing I c.index add.uri free)
      | inr (id, entry) ↦
          let (item, found, named) = k.indexed add.uri id entry in answers_again id item entry found
    ]
