-- ===== src/App/Server/Add.antt =====
-- `tweak_app_server_add_item`: what it leaves behind.
use tweaktool.Common.{
  ℕ, suc, ◌^◌, ◌<◌, ◌≡◌, refl, sym, ◌≢◌, ◌⊎◌, inl, inr, Bool, true, false, ◌&&◌, some, List, [],
  ◌∷◌, ◌++◌, Bytes, arith, Bool-cases, ◌==◌, subst, if◌then◌else◌,
}
use tweaktool.Variant.{Variant}
use tweaktool.App.Table.{Table}
use tweaktool.App.Item.{Item, invalid_id}
use tweaktool.App.Features.{check_type_compatibility}
use tweaktool.App.Model.{Memory, enough}
use tweaktool.App.Index
use tweaktool.App.Server.{Server, Message, append, next_seed, server_add_item, find_id}
use tweaktool.App.Paired.{lookup-free, same_id}
use tweaktool.App.Server.Consistent.{IsConsistent, seed-free, add-Linked, take_back, same-Linked}

-- The item that the call makes.
abbrev pub new_item : ℕ → Bytes → Bytes → Bytes → Variant → ℕ → Item
new_item id uri description meta value cookie = record {
  id = id;
  uri = uri;
  description = description;
  meta = meta;
  variant_type = value.type;
  current_value = value;
  default_value = value;
  item_cookie = cookie;
  metadata_initialized = false;
}

module _ (M : Table ℕ Item) (I : Table Bytes ℕ) (accepts : List Message → Message → Bool)
    (memory : Memory) (uri description meta : Bytes) (value : Variant) (cookie : ℕ)
    (s : Server M I) where
  abbrev outcome : ℕ × Server M I
  outcome = server_add_item M I accepts memory uri description meta value cookie s

  abbrev pub item : Item
  item = new_item s.seed uri description meta value cookie

  -- The context after a call that adds the item.
  abbrev added : Server M I
  added = record s {
    model = M.add s.seed item s.model;
    index = I.add uri s.seed s.index;
    pushed =
        if check_type_compatibility s.remote_peer_features value.type && s.connected
        then s.pushed ++ (append s.seed ∷ [])
        else s.pushed;
    seed = next_seed s.seed;
  }

  -- The context after a call that enters the item into the model only.
  abbrev taken_back : Server M I
  taken_back = record s {
    model = M.delete s.seed (M.add s.seed item s.model);
    seed = next_seed s.seed;
  }

  add_taken : (Index.lookup I s.index uri == invalid_id) ≡ false → outcome ≡ (invalid_id, s)
  unfolding server_add_item
  add_taken e = rw e

  add_whole :
      IsConsistent M I s
      → Index.lookup I s.index uri ≡ invalid_id
      → enough memory ≡ true
      → outcome ≡ (s.seed, added)
  unfolding server_add_item
  add_whole k e m = ground (arith, lookup-free M I k.paired uri e, seed-free M I k)

  add_fails :
      IsConsistent M I s
      → Index.lookup I s.index uri ≡ invalid_id
      → enough memory ≡ false
      → (outcome ≡ (invalid_id, record s { seed = next_seed s.seed }))
        ⊎ (outcome ≡ (invalid_id, taken_back))
  unfolding server_add_item
  add_fails k e m = ground (
    arith,
    lookup-free M I k.paired uri e,
    seed-free M I k,
    M.find-add_self s.seed item s.model (seed-free M I k),
  )

  -- What a call that adds its item and a call that does not leave behind.
  abbrev pub Adds : ℕ × Server M I → Type 0
  Adds (id, t) =
      (id ≡ s.seed)
      × (M.find id t.model ≡ some item)
      × (find_id M I accepts t uri ≡ id)
      × (t.pushed ≡ (
          if check_type_compatibility s.remote_peer_features value.type && s.connected
          then s.pushed ++ (append id ∷ [])
          else s.pushed))

  abbrev pub Leaves : ℕ × Server M I → Type 0
  Leaves (id, t) =
      (id ≡ invalid_id)
      × ((j : ℕ) → M.find j t.model ≡ M.find j s.model)
      × (t.index ≡ s.index)
      × (t.pushed ≡ s.pushed)

  module _ (k : IsConsistent M I s) (room : suc s.seed < 2 ^ 64) where
    added-Adds : Index.lookup I s.index uri ≡ invalid_id → Adds (s.seed, added)
    unfolding find_id
    added-Adds e = (
      refl,
      M.find-add_self s.seed item s.model (seed-free M I k),
      Index.lookup_found I _ uri s.seed
          (I.find-add_self uri s.seed s.index (lookup-free M I k.paired uri e)),
      refl,
    )

    taken_back-Leaves : Leaves (invalid_id, taken_back)
    taken_back-Leaves = (refl, take_back M I k item, refl, refl)

    -- On a consistent context whose ids have not run out, the call adds the item under a new id, finds it
    -- there by that id and by its uri, and queues its announcement if the peer is connected and supports
    -- its type, exactly when the uri was free and every allocation succeeded. Otherwise it returns the
    -- invalid id, and every item, the index and the queued jobs are as before.
    pub server_add_item_lem :
        (enough memory ≡ true) × (find_id M I accepts s uri ≡ invalid_id) × Adds outcome
        ⊎ ((enough memory ≡ false) ⊎ (find_id M I accepts s uri ≢ invalid_id)) × Leaves outcome
    unfolding find_id
    server_add_item_lem = elim (same_id (Index.lookup I s.index uri) invalid_id) [
      | inl free ↦ elim (Bool-cases (enough memory)) [
        | inl m ↦ inl (m, free, subst Adds (sym (add_whole k free m)) (added-Adds free))
        | inr m ↦ inr (
          inl m,
          elim (add_fails k free m) [
            | inl e ↦ subst Leaves (sym e) (refl, λ j. refl, refl, refl)
            | inr e ↦ subst Leaves (sym e) taken_back-Leaves
          ],
        )
      ]
      | inr taken ↦
          inr
            (inr taken, subst Leaves (sym (add_taken (ground arith))) (refl, λ j. refl, refl, refl))
    ]

    seed_eq : next_seed s.seed ≡ suc s.seed
    seed_eq = omega arith

    added-IsConsistent : Index.lookup I s.index uri ≡ invalid_id → IsConsistent M I added
    added-IsConsistent e =
        rw seed_eq (add-Linked M I k item uri refl refl (lookup-free M I k.paired uri e) room)

    taken_back-IsConsistent : IsConsistent M I taken_back
    taken_back-IsConsistent = rw seed_eq (same-Linked M I k _ (take_back M I k item) room)

    skipped-IsConsistent : IsConsistent M I (record s { seed = next_seed s.seed })
    skipped-IsConsistent = rw seed_eq (same-Linked M I k s.model (λ j. refl) room)

    -- Adding an item, successfully or not, keeps the model and the index consistent.
    pub server_add_item-IsConsistent : IsConsistent M I outcome.1
    server_add_item-IsConsistent = elim (same_id (Index.lookup I s.index uri) invalid_id) [
      | inl free ↦ elim (Bool-cases (enough memory)) [
        | inl m ↦ keeps (add_whole k free m) (added-IsConsistent free)
        | inr m ↦ elim (add_fails k free m) [
          | inl e ↦ keeps e skipped-IsConsistent
          | inr e ↦ keeps e taken_back-IsConsistent
        ]
      ]
      | inr taken ↦ keeps (add_taken (ground arith)) k
    ]
      where
        keeps :
            {id : ℕ} {t : Server M I}
            → outcome ≡ (id, t)
            → IsConsistent M I t
            → IsConsistent M I outcome.1
        keeps e h = subst (λ r. IsConsistent M I r.1) (sym e) h
