-- ===== src/App/Server/Subscribe.antt =====
-- `io_loop_subscribe` on a consistent context.
use tweaktool.Common.{
  if_true, if_false, ℕ, ◌≡◌, ◌≢◌, refl, sym, ◌∙◌, ap, Bool, true, false, Option, none, some, List,
  [], ◌∷◌, ◌++◌, Bytes, All, arith, Bool-cases, subst, if◌then◌else◌, inl, inr,
}
use mathlib.Core.List.{append_assoc, append-nil}
use tweaktool.App.Table.{Table}
use tweaktool.App.Item.{Item, invalid_id}
use tweaktool.App.Features.{init_default, check_type_compatibility, Features}
use tweaktool.App.Index.{walk_pairs, walk_pairs_step}
use tweaktool.App.Server.{Server, Message, announce_features, item_message, send}
use tweaktool.App.Server.Loop.{subscribe_walk_proc, walk_items, io_loop_subscribe}
use tweaktool.App.Server.Consistent.{IsConsistent, Linked}

module _ (M : Table ℕ Item) (I : Table Bytes ℕ) (accepts : List Message → Message → Bool) where
  -- Each pair of the index leads to an item, at a valid id.
  abbrev Leads : M.Map → Bytes × ℕ → Type 0
  Leads model e = (item : Item) × (M.find e.1 model ≡ some item) × (e.1 ≢ invalid_id)

  abbrev pub announcement : M.Map → Features → ℕ → List Message
  announcement model features id = elim (M.find id model) [
    | none ↦ []
    | some item ↦
        if check_type_compatibility features item.variant_type then item_message item ∷ [] else []
  ]

  -- The messages that a subscription is due: one for each item of the index whose type the peer supports.
  abbrev pub announcements : M.Map → Features → List (Bytes × ℕ) → List Message
  announcements model features [] = []
  announcements model features ((uri, id) ∷ pairs) =
      announcement model features id ++ announcements model features pairs

  All-Leads :
      {model : M.Map} {index : I.Map} {seed : ℕ}
      → Linked M I model index seed
      → (pairs : List (Bytes × ℕ)) → All (λ e. I.find e.0 index ≡ some e.1) pairs
      → All (Leads model) pairs
  All-Leads k [] h = tt
  All-Leads k ((uri, id) ∷ pairs) h =
      let (item, found, _) = k.paired.indexed uri id h.0 in
      ((item, found, k.paired.nonzero id item found), All-Leads k pairs h.1)

  -- What a walk leaves alone.
  abbrev pub Same : Server M I → Server M I → Type 0
  Same s t = (t.model ≡ s.model) × (t.index ≡ s.index) × (t.pushed ≡ s.pushed) × (t.seed ≡ s.seed)

  Same-trans : (s t u : Server M I) → Same s t → Same t u → Same s u
  Same-trans s t u p q = (q.0 ∙ p.0, q.1 ∙ p.1, q.2 ∙ p.2, q.3 ∙ p.3)

  proc-Same :
      (uri : Bytes) (id : ℕ) (s : Server M I)
      → Leads s.model (uri, id)
      → (r : Bool × Server M I) × (subscribe_walk_proc M I accepts uri id s ≡ some r) × Same s r.1
  unfolding subscribe_walk_proc
  proc-Same uri id s (item, found, valid) = (
    if check_type_compatibility s.remote_peer_features item.variant_type
        then send M I accepts (item_message item) s
        else (true, s),
    ground arith,
    (ground arith, ground arith, ground arith, ground arith),
  )

  walk_pairs-Same :
      (pairs : List (Bytes × ℕ)) (s : Server M I)
      → All (Leads s.model) pairs
      → (r : Bool × Server M I) × (walk_pairs (subscribe_walk_proc M I accepts) pairs s ≡ some r)
        × Same s r.1
  unfolding walk_pairs
  walk_pairs-Same [] s h = ((true, s), refl, (refl, refl, refl, refl))
  walk_pairs-Same ((uri, id) ∷ pairs) s h =
      let (r, e, same) = proc-Same uri id s h.0 in
      let moved = subst (λ m. All (Leads m) pairs) (sym same.0) h.1 in
      let (r2, e2, same2) = walk_pairs-Same pairs r.1 moved in
      let step = walk_pairs_step (subscribe_walk_proc M I accepts) uri id pairs s r.1 r.0 e in
      elim (Bool-cases r.0) [
        | inl on ↦ (r2, step ∙ (rw on e2), Same-trans s r.1 r2.1 same same2)
        | inr off ↦ ((false, r.1), step ∙ (rw off), same)
      ]

  walk_items-Same :
      (s : Server M I)
      → IsConsistent M I s
      → (t : Server M I) × (walk_items M I accepts s ≡ some t) × Same s t
  unfolding walk_items
  walk_items-Same s k =
      let (r, e, same) =
        walk_pairs-Same (I.entries s.index) s
          (All-Leads k (I.entries s.index) (I.entries-found s.index)) in
      (if r.0 then record r.1 { connected = true } else r.1, rw e, ground (arith, same))

  -- The context after the features were sent.
  abbrev announced : Server M I → Server M I
  announced s = record s {
    sent = s.sent ++ (announce_features init_default ∷ []);
    features_announced = false;
  }

  subscribe_due :
      (s : Server M I)
      → s.features_announced ≡ true
      → accepts s.sent (announce_features init_default) ≡ true
      → io_loop_subscribe M I accepts s ≡ walk_items M I accepts (announced s)
  unfolding io_loop_subscribe
  subscribe_due s due good =
      if_true s.features_announced _ _ due
      ∙ if_true (accepts s.sent (announce_features init_default)) _ _ good

  subscribe_failed :
      (s : Server M I)
      → s.features_announced ≡ true
      → accepts s.sent (announce_features init_default) ≡ false
      → io_loop_subscribe M I accepts s
        ≡ some (send M I accepts (announce_features init_default) s).1
  unfolding io_loop_subscribe
  subscribe_failed s due bad =
      if_true s.features_announced _ _ due
      ∙ if_false (accepts s.sent (announce_features init_default)) _ _ bad

  subscribe_not_due :
      (s : Server M I)
      → s.features_announced ≡ false
      → io_loop_subscribe M I accepts s ≡ walk_items M I accepts s
  unfolding io_loop_subscribe
  subscribe_not_due s done = if_false s.features_announced _ _ done

  -- A subscription on a consistent context runs through without following a null pointer, whichever
  -- remote calls fail, and changes neither the items nor the index.
  pub io_loop_subscribe_safe :
      (s : Server M I)
      → IsConsistent M I s
      → (t : Server M I) × (io_loop_subscribe M I accepts s ≡ some t) × Same s t
  io_loop_subscribe_safe s k = elim (Bool-cases s.features_announced) [
    | inl due ↦ elim (Bool-cases (accepts s.sent (announce_features init_default))) [
      | inl good ↦
          let (t, e, same) = walk_items-Same (announced s) k in
          (t, subscribe_due s due good ∙ e, same)
      | inr bad ↦ (
        (send M I accepts (announce_features init_default) s).1,
        subscribe_failed s due bad,
        (refl, refl, refl, refl),
      )
    ]
    | inr done ↦ let (t, e, same) = walk_items-Same s k in (t, subscribe_not_due s done ∙ e, same)
  ]

  proc_sends :
      ((sent : List Message) (m : Message) → accepts sent m ≡ true)
      → (uri : Bytes) (id : ℕ) (s : Server M I) → Leads s.model (uri, id)
      → subscribe_walk_proc M I accepts uri id s
        ≡ some (true, record s { sent = s.sent ++ announcement s.model s.remote_peer_features id })
  unfolding subscribe_walk_proc
  proc_sends all uri id s (item, found, valid) =
      ground (arith, all s.sent (item_message item), append-nil s.sent)

  walk_pairs_sends :
      ((sent : List Message) (m : Message) → accepts sent m ≡ true)
      → (pairs : List (Bytes × ℕ)) (s : Server M I) → All (Leads s.model) pairs
      → walk_pairs (subscribe_walk_proc M I accepts) pairs s
        ≡ some
            (true, record s { sent = s.sent ++ announcements s.model s.remote_peer_features pairs })
  unfolding walk_pairs
  walk_pairs_sends all [] s h = rw (append-nil s.sent)
  walk_pairs_sends all ((uri, id) ∷ pairs) s h =
      walk_pairs_step (subscribe_walk_proc M I accepts) uri id pairs s _ true
        (proc_sends all uri id s h.0)
      ∙ walk_pairs_sends all pairs
          (record s { sent = s.sent ++ announcement s.model s.remote_peer_features id }) h.1
      ∙ ap (λ l. some (true, record s { sent = l })) (append_assoc s.sent _ _)

  abbrev pub features_due : Bool → List Message
  features_due true = announce_features init_default ∷ []
  features_due false = []

  walk_items_sends :
      ((sent : List Message) (m : Message) → accepts sent m ≡ true)
      → (s : Server M I) → IsConsistent M I s
      → walk_items M I accepts s
        ≡ some (record s {
          connected = true;
          sent = s.sent ++ announcements s.model s.remote_peer_features (I.entries s.index);
        })
  unfolding walk_items
  walk_items_sends all s k = rw (
      walk_pairs_sends all (I.entries s.index) s
        (All-Leads k (I.entries s.index) (I.entries-found s.index)))

  -- When every remote call succeeds, a subscription on a consistent context marks the client as connected
  -- and sends, after the features if the client announced its own, one message for each item of the index
  -- whose type the client supports, in the order of the index.
  pub io_loop_subscribe_lem :
      ((sent : List Message) (m : Message) → accepts sent m ≡ true)
      → (s : Server M I) → IsConsistent M I s
      → io_loop_subscribe M I accepts s
        ≡ some (record s {
          connected = true;
          features_announced = false;
          sent =
              s.sent
              ++ features_due s.features_announced
              ++ announcements s.model s.remote_peer_features (I.entries s.index);
        })
  io_loop_subscribe_lem all s k = elim (Bool-cases s.features_announced) [
    | inl due ↦
        subscribe_due s due (all s.sent (announce_features init_default))
        ∙ walk_items_sends all (announced s) k
        ∙ ap (λ b. after (s.sent ++ features_due b ++ messages) false) (sym due)
    | inr done ↦
        subscribe_not_due s done
        ∙ walk_items_sends all s k
        ∙ ap (λ b. after (s.sent ++ messages) b) done
        ∙ ap (λ l. after (l ++ messages) false) (sym (append-nil s.sent))
        ∙ ap (λ b. after (s.sent ++ features_due b ++ messages) false) (sym done)
  ]
    where
      messages : List Message
      messages = announcements s.model s.remote_peer_features (I.entries s.index)

      after : List Message → Bool → Option (Server M I)
      after l b = some (record s { connected = true; features_announced = b; sent = l })
