-- ===== src/App/Mirror/Subscription.antt =====
-- A subscription (`io_loop_subscribe` of tweak-app/src/tweakappserver.c) and the client that gets its remote calls
-- (tweak-app/src/tweakappclient.c).
use tweaktool.Common.{
  if_true, ℕ, ◌≡◌, refl, sym, ◌∙◌, ap, Bool, true, false, Option, none, some, List, [], ◌∷◌, ◌++◌,
  Bytes, Bool-cases, Option-cases, subst, if◌then◌else◌, inl, inr, ◌>>=◌, ◌==◌, ==_iff,
}
use mathlib.Core.List.{Memᴰ, append_assoc}
use tweaktool.App.Table.{Table}
use tweaktool.App.Item.{Item}
use tweaktool.App.Features.{Features, Document}
use tweaktool.App.Model.{Memory, enough}
use tweaktool.App.Paired.{Paired, empty-Paired}
use tweaktool.App.Server.{Server, Message}
use tweaktool.App.Server.Loop.{io_loop_subscribe}
use tweaktool.App.Server.Consistent.{IsConsistent}
use tweaktool.App.Server.Subscribe.{announcements, features_due, io_loop_subscribe_lem}
use tweaktool.App.Client.{Client, server_announces_features}
use tweaktool.App.Mirror.{reflection, DistinctUris, has_id, receive, deliver}
use tweaktool.App.Mirror.Delivery.{deliver-append, deliver-Delivered, Fresh}
use tweaktool.App.Features.{from_json, init_default}

-- An entry with the id is found among the entries.
has_id_member : (u : Bytes) (j : ℕ) (es : List (Bytes × ℕ)) → Memᴰ (u, j) es → has_id j es ≡ true
has_id_member u j [] m = elim m [ ]
has_id_member u j (e ∷ es) (Memᴰ.head p) =
    if_true (e.1 == j) true (has_id j es) ((==_iff e.1 j).1 (sym (ap (λ (f : Bytes × ℕ). f.1) p)))
has_id_member u j (e ∷ es) (Memᴰ.tail m) = elim (Bool-cases (e.1 == j)) [
  | inl p ↦ rw p refl
  | inr p ↦ rw p (has_id_member u j es m)
]

same_branches : (b : Bool) → Path (Option Item) (if b then none else none) none
same_branches true = refl
same_branches false = refl

module _ (M : Table ℕ Item) (I : Table Bytes ℕ) (memory : Memory)
    (write : Features → Document) where
  announced_features :
      (f : Features) (c : Client M I)
      → ((server_announces_features M I (write f) c).model ≡ c.model)
        × ((server_announces_features M I (write f) c).index ≡ c.index)
  unfolding server_announces_features
  announced_features f c = elim (Option-cases (from_json (write f))) [
    | inl e ↦ rw (server_announces_features, e) (refl, refl)
    | inr (g, e) ↦ rw (server_announces_features, e) (refl, refl)
  ]

  -- The features, if they are sent, change neither model nor index.
  features_first :
      (b : Bool) (c : Client M I)
      → (d : Client M I) × (deliver M I memory write (features_due M I (λ l m. true) b) c ≡ some d)
        × (d.model ≡ c.model)
        × (d.index ≡ c.index)
  unfolding deliver receive
  features_first false c = (c, refl, refl, refl)
  features_first true c =
      let a = announced_features init_default c in
      (server_announces_features M I (write init_default) c, refl, a.0, a.1)

  -- A client that was reset: nothing is in its model or its index.
  abbrev pub IsReset : Client M I → Type 0
  IsReset c = (c.model ≡ M.empty) × (c.index ≡ I.empty)

  empty-Fresh : (es : List (Bytes × ℕ)) (c : Client M I) → IsReset c → Fresh M I memory write es c
  empty-Fresh [] c r = tt
  empty-Fresh (e ∷ es) c r = (
    (ap (M.find e.1) r.0 ∙ M.find-empty e.1, ap (I.find e.0) r.1 ∙ I.find-empty e.0),
    empty-Fresh es c r,
  )

  reset-Paired : (c : Client M I) → IsReset c → Paired M I c.model c.index
  reset-Paired c r =
      subst (λ m. Paired M I m c.index) (sym r.0)
        (subst (λ i. Paired M I M.empty i) (sym r.1) (empty-Paired M I))

  -- Each item of the server is among the entries, and the client had none.
  all_reflected :
      (s : Server M I) (c : Client M I)
      → IsConsistent M I s
      → IsReset c
      → (features : Features) (j : ℕ)
      → (if has_id j (I.entries s.index)
          then reflection features (M.find j s.model)
          else M.find j c.model)
        ≡ reflection features (M.find j s.model)
  all_reflected s c k r features j = elim (Option-cases (M.find j s.model)) [
    | inl e ↦
        let gone : M.find j c.model ≡ none = ap (M.find j) r.0 ∙ M.find-empty j in
        rw (e, gone) (same_branches (has_id j (I.entries s.index)))
    | inr (item, e) ↦ if_true (has_id j (I.entries s.index)) _ _ (
        has_id_member item.uri j (I.entries s.index)
          (I.found-entries item.uri j s.index (k.paired.listed j item e).1))
  ]

  -- Let all remote calls of a subscription succeed on a consistent server context, the index visit no uri twice, and a
  -- client that was reset, with enough memory, get these calls as they were sent. Then the client runs through, its
  -- model and index describe the same items, and at every id it holds the mirrored item of the server if the server has an item there
  -- whose type the client supports, and no item otherwise.
  pub subscribe-deliver :
      (accepts : List Message → Message → Bool) (s : Server M I) (c : Client M I)
      → ((sent : List Message) (m : Message) → accepts sent m ≡ true)
      → IsConsistent M I s
      → DistinctUris (I.entries s.index)
      → IsReset c
      → enough memory ≡ true
      → (t : Server M I) × (messages : List Message) × (d : Client M I) × (io_loop_subscribe M I
            accepts s
          ≡ some t)
        × (t.sent ≡ s.sent ++ messages)
        × (deliver M I memory write messages c ≡ some d)
        × Paired M I d.model d.index
        × ((j : ℕ) → M.find j d.model ≡ reflection s.remote_peer_features (M.find j s.model))
  subscribe-deliver accepts s c all k distinct r memory_enough =
      let features = s.remote_peer_features in
      let es = I.entries s.index in
      let before = features_due M I accepts s.features_announced in
      let items = announcements M I accepts s.model features es in
      let (c1, e, m, i) = features_first s.features_announced c in
      let r1 : IsReset c1 = (m ∙ r.0, i ∙ r.1) in
      let (d, f, paired, holds) =
        deliver-Delivered M I memory write memory_enough s k features es c1
          (I.entries-found s.index) distinct (reset-Paired c1 r1) (empty-Fresh es c1 r1) in
      (
        record s { connected = true; features_announced = false; sent = s.sent ++ before ++ items },
        before ++ items,
        d,
        io_loop_subscribe_lem M I accepts all s k,
        append_assoc s.sent before items,
        deliver-append M I memory write before items c
            ∙ ap (λ (o : Option (Client M I)). o >>= deliver M I memory write items) e
            ∙ f,
        paired,
        λ j. holds j ∙ all_reflected s c1 k r1 features j,
      )
