-- ===== src/App/Mirror/Delivery.antt =====
-- The announcements of a server's items, one after the other, in the client (tweak-app/src/tweakappclient.c).
use tweaktool.Common.{
  ℕ, ◌≡◌, ◌≢◌, refl, sym, ◌∙◌, ap, ap₂, Bool, true, false, Option, none, some, List, [], ◌∷◌, ◌++◌,
  Bytes, All, arith, Bool-cases, subst, if◌then◌else◌, inl, inr, ◌>>=◌, ◌==◌, ==_iff,
}
use tweaktool.App.Table.{Table, find-add}
use tweaktool.App.Item.{Item}
use tweaktool.App.Features.{Features, Document, check_type_compatibility}
use tweaktool.App.Model.{Memory, enough}
use tweaktool.App.Index
use tweaktool.App.Paired.{Paired, add-Paired}
use tweaktool.App.Server.{Server, Message, item_message}
use tweaktool.App.Server.Consistent.{IsConsistent}
use tweaktool.App.Server.Subscribe.{announcement, announcements}
use tweaktool.App.Client.{Client}
use tweaktool.App.Client.Add.{mirrored, added, add_new}
use tweaktool.Convert.Coerce.{some_eq}
use tweaktool.App.Mirror.{add_of, reflection, DistinctUris, has_id, receive, deliver}

module _ (M : Table ℕ Item) (I : Table Bytes ℕ) (memory : Memory)
    (write : Features → Document) where
  bind_deliver :
      (o : Option (Client M I)) (xs ys zs : List Message)
      → ((d : Client M I)
          → deliver M I memory write zs d
            ≡ (deliver M I memory write xs d >>= deliver M I memory write ys))
      → (o >>= deliver M I memory write zs)
        ≡ ((o >>= deliver M I memory write xs) >>= deliver M I memory write ys)
  bind_deliver none xs ys zs h = refl
  bind_deliver (some d) xs ys zs h = h d

  pub deliver-append :
      (xs ys : List Message) (c : Client M I)
      → deliver M I memory write (xs ++ ys) c
        ≡ (deliver M I memory write xs c >>= deliver M I memory write ys)
  unfolding deliver
  deliver-append [] ys c = refl
  deliver-append (x ∷ xs) ys c =
      bind_deliver (receive M I memory write x c) xs ys (xs ++ ys) (deliver-append xs ys)

  -- None of the items is in the client yet.
  abbrev pub Fresh : List (Bytes × ℕ) → Client M I → Type 0
  Fresh pairs c = All (λ e. (M.find e.1 c.model ≡ none) × (I.find e.0 c.index ≡ none)) pairs

  module _ (enough_memory : enough memory ≡ true) (s : Server M I) (k : IsConsistent M I s) where
    -- The pair is an entry of the server's index.
    abbrev pub Entry : Bytes × ℕ → Type 0
    Entry e = I.find e.0 s.index ≡ some e.1

    -- The ids of two entries with different uris are different.
    ids_differ : (e f : Bytes × ℕ) → Entry e → Entry f → e.0 ≢ f.0 → e.1 ≢ f.1
    ids_differ e f p q h id =
        let (x, found, named) = k.paired.indexed e.0 e.1 p in
        let (y, there, called) = k.paired.indexed f.0 f.1 q in
        let same : some x ≡ some y = sym found ∙ ap (λ i. M.find i s.model) id ∙ there in
        h (sym named ∙ ap (λ (i : Item). i.uri) (some_eq same) ∙ called)

    still-Fresh :
        (e : Bytes × ℕ) (pairs : List (Bytes × ℕ)) (item : Item) (c : Client M I)
        → Entry e
        → All Entry pairs
        → All (λ f. e.0 ≢ f.0) pairs
        → Fresh pairs c
        → (M.find e.1 c.model ≡ none) × (I.find e.0 c.index ≡ none)
        → (d : Client M I) → d.model ≡ M.add e.1 item c.model
        → d.index ≡ I.add e.0 e.1 c.index
        → Fresh pairs d
    still-Fresh e [] item c p q h f free d m i = tt
    still-Fresh e (g ∷ pairs) item c p q h f free d m i = (
      (
        ap (M.find g.1) m
            ∙ M.find-add_ne e.1 g.1 item c.model free.0 (ids_differ e g p q.0 h.0)
            ∙ f.0.0,
        ap (I.find g.0) i ∙ I.find-add_ne e.0 g.0 e.1 c.index free.1 h.0 ∙ f.0.1,
      ),
      still-Fresh e pairs item c p q.1 h.1 f.1 free d m i,
    )

    -- What the delivery of the announcements of some entries leaves.
    abbrev pub Delivered : Features → List (Bytes × ℕ) → Client M I → Type 0
    Delivered features pairs c =
        (d : Client M I) × (deliver M I memory write
            (announcements M I (λ l m. true) s.model features pairs) c
          ≡ some d)
        × Paired M I d.model d.index
        × ((j : ℕ)
            → M.find j d.model ≡ (
                if has_id j pairs
                then reflection features (M.find j s.model)
                else M.find j c.model))

    -- The same for one entry, and the other entries are still to come.
    abbrev Reaches : Features → Bytes × ℕ → List (Bytes × ℕ) → Client M I → Type 0
    Reaches features e pairs c =
        (d : Client M I) × (deliver M I memory write
            (announcement M I (λ l m. true) s.model features e.1) c
          ≡ some d)
        × Paired M I d.model d.index
        × ((j : ℕ)
            → M.find j d.model
              ≡ (if e.1 == j then reflection features (M.find j s.model) else M.find j c.model))
        × Fresh pairs d

    reflected :
        (features : Features) (item : Item) (c d : Client M I)
        → M.find item.id s.model ≡ some item
        → M.find item.id c.model ≡ none
        → check_type_compatibility features item.variant_type ≡ true
        → d.model ≡ M.add item.id (mirrored (add_of item)) c.model
        → (j : ℕ)
        → M.find j d.model
          ≡ (if item.id == j then reflection features (M.find j s.model) else M.find j c.model)
    reflected features item c d found vacant ok e j =
        ap (M.find j) e
        ∙ find-add M (λ a b. a == b) ==_iff item.id j (mirrored (add_of item)) c.model vacant
        ∙ (elim (Bool-cases (item.id == j)) [
          | inl p ↦ rw (p, ← (==_iff item.id j).0 p, found, ok) refl
          | inr p ↦ rw p refl
        ])

    unreflected :
        (features : Features) (item : Item) (c : Client M I)
        → M.find item.id s.model ≡ some item
        → M.find item.id c.model ≡ none
        → check_type_compatibility features item.variant_type ≡ false
        → (j : ℕ)
        → M.find j c.model
          ≡ (if item.id == j then reflection features (M.find j s.model) else M.find j c.model)
    unreflected features item c found vacant bad j = elim (Bool-cases (item.id == j)) [
      | inl p ↦ rw (p, ← (==_iff item.id j).0 p, found, bad) vacant
      | inr p ↦ rw p refl
    ]

    deliver_one :
        (features : Features) (item : Item) (c d : Client M I) (b : Bool)
        → M.find item.id s.model ≡ some item
        → check_type_compatibility features item.variant_type ≡ b
        → deliver M I memory write (if b then item_message item ∷ [] else []) c ≡ some d
        → deliver M I memory write (announcement M I (λ l m. true) s.model features item.id) c
          ≡ some d
    deliver_one features item c d b found ok e = rw (announcement, found, ok) e

    item-Reaches :
        (features : Features) (item : Item) (pairs : List (Bytes × ℕ)) (c : Client M I)
        → M.find item.id s.model ≡ some item
        → Entry (item.uri, item.id)
        → All Entry pairs
        → All (λ f. item.uri ≢ f.0) pairs
        → Paired M I c.model c.index
        → Fresh ((item.uri, item.id) ∷ pairs) c
        → Reaches features (item.uri, item.id) pairs c
    unfolding deliver receive
    item-Reaches features item pairs c found entry entries differ paired fresh =
        elim (Bool-cases (check_type_compatibility features item.variant_type)) [
          | inl ok ↦
              let add = add_of item in
              let d = added M I memory add c in
              let valid = k.paired.nonzero item.id item found in
              (
                d,
                deliver_one features item c d true found ok (
                    ap (λ (o : Option (Client M I)). o >>= deliver M I memory write [])
                      (add_new M I memory add c paired
                        (Index.lookup_missing I c.index item.uri fresh.0.1) fresh.0.0 enough_memory
                        valid)),
                add-Paired M I paired item.id (mirrored add) item.uri refl refl valid fresh.0.0
                    fresh.0.1,
                reflected features item c d found fresh.0.0 ok refl,
                still-Fresh (item.uri, item.id) pairs (mirrored add) c entry entries differ fresh.1
                    fresh.0 d refl refl,
              )
          | inr bad ↦ (
            c,
            deliver_one features item c c false found bad refl,
            paired,
            unreflected features item c found fresh.0.0 bad,
            fresh.1,
          )
        ]

    pair-Reaches :
        (features : Features) (e : Bytes × ℕ) (pairs : List (Bytes × ℕ)) (c : Client M I)
        → Entry e
        → All Entry pairs
        → All (λ f. e.0 ≢ f.0) pairs
        → Paired M I c.model c.index
        → Fresh (e ∷ pairs) c
        → Reaches features e pairs c
    pair-Reaches features e pairs c entry entries differ paired fresh =
        let (item, found, named) = k.paired.indexed e.0 e.1 entry in
        let own = (k.paired.listed e.1 item found).0 in
        let same : (item.uri, item.id) ≡ e = ap₂ (λ (u : Bytes) (i : ℕ). (u, i)) named own in
        subst
          (λ f.
            M.find f.1 s.model ≡ some item
            → Entry f
            → All (λ g. f.0 ≢ g.0) pairs
            → Fresh (f ∷ pairs) c
            → Reaches features f pairs c)
          same (λ a b d f. item-Reaches features item pairs c a b entries d paired f) found entry
          differ fresh

    pub deliver-Delivered :
        (features : Features) (pairs : List (Bytes × ℕ)) (c : Client M I)
        → All Entry pairs
        → DistinctUris pairs
        → Paired M I c.model c.index
        → Fresh pairs c
        → Delivered features pairs c
    unfolding deliver
    deliver-Delivered features [] c entries distinct paired fresh = (c, refl, paired, λ j. refl)
    deliver-Delivered features (e ∷ pairs) c entries distinct paired fresh =
        let (d, p, again, holds, later) =
          pair-Reaches features e pairs c entries.0 entries.1 distinct.0 paired fresh in
        let (r, q, last, rest) =
          deliver-Delivered features pairs d entries.1 distinct.1 again later in
        (
          r,
          deliver-append (announcement M I (λ l m. true) s.model features e.1)
                (announcements M I (λ l m. true) s.model features pairs) c
              ∙ ap
                  (λ (o : Option (Client M I)).
                    o
                    >>= deliver M I memory write
                        (announcements M I (λ l m. true) s.model features pairs))
                  p
              ∙ q,
          last,
          λ j. rest j ∙ both j (M.find j d.model) (holds j),
        )
      where
        both :
            (j : ℕ) (x : Option Item)
            → x ≡ (if e.1 == j then reflection features (M.find j s.model) else M.find j c.model)
            → (if has_id j pairs then reflection features (M.find j s.model) else x) ≡ (
                if has_id j (e ∷ pairs)
                then reflection features (M.find j s.model)
                else M.find j c.model)
        both j x h = ground arith
