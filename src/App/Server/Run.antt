-- ===== src/App/Server/Run.antt =====
-- The relation between model and index over any calls of a context.
use tweaktool.Common.{
  ℕ, suc, ◌+◌, ◌^◌, ◌≤◌, ◌<◌, ◌≡◌, refl, sym, ◌∙◌, ap, Bool, none, some, List, [], ◌∷◌, ◌++◌, Bytes,
  ◌⊎◌, arith, subst, Option-cases, inl, inr, length,
}
use tweaktool.Variant.{Variant}
use tweaktool.App.Table.{Table}
use tweaktool.App.Item.{Item}
use tweaktool.App.Features.{Document}
use tweaktool.App.Model.{Memory}
use tweaktool.App.Server.{
  Server, Job, Message, append, change, remove, subscribe, server_add_item, server_remove_item,
  client_changes_item, replace_current_value,
}
use tweaktool.App.Server.Loop.{
  ConnectionState, connection_state_changes, client_announces_features, client_subscribes, run_job,
  io_loop_change, io_loop_append, io_loop_remove,
}
use tweaktool.App.Paired.{empty-Paired}
use tweaktool.App.Server.Consistent.{IsConsistent, Linked}
use tweaktool.App.Server.Add.{server_add_item-IsConsistent}
use tweaktool.App.Server.Remove.{server_remove_item-IsConsistent}
use tweaktool.App.Server.Change.{
  client_changes_item-IsConsistent, replace_current_value-IsConsistent,
}
use tweaktool.App.Server.Subscribe.{io_loop_subscribe_safe, Same}
use tweaktool.App.Server.Call.{
  Call, adds, removes, replaces, connection, client_announces, client_wants_items, client_sets,
  runs, create, step, run,
}

module _ (M : Table ℕ Item) (I : Table Bytes ℕ) (accepts : List Message → Message → Bool) where
  -- What one call keeps: consistency, with at most one id given out.
  abbrev Keeps : Server M I → Server M I → Type 0
  Keeps s t = IsConsistent M I t × (t.seed ≤ suc s.seed)

  add_seed :
      (memory : Memory) (uri description meta : Bytes) (value : Variant) (cookie : ℕ)
      (s : Server M I)
      → suc s.seed < 2 ^ 64
      → (server_add_item M I accepts memory uri description meta value cookie s).1.seed ≤ suc s.seed
  unfolding server_add_item
  add_seed memory uri description meta value cookie s room = ground arith

  remove_seed : (id : ℕ) (s : Server M I) → (server_remove_item M I accepts id s).1.seed ≡ s.seed
  unfolding server_remove_item
  remove_seed id s = ground arith

  replace_seed :
      (id : ℕ) (value : Variant) (s : Server M I)
      → (replace_current_value M I accepts id value s).1.seed ≡ s.seed
  unfolding replace_current_value
  replace_seed id value s = ground arith

  change_seed :
      (id : ℕ) (value : Variant) (s t : Server M I)
      → client_changes_item M I accepts id value s ≡ some t
      → t.seed ≡ s.seed
  unfolding client_changes_item
  change_seed id value s t e = ground arith

  some_eq {ℓ} : {A : Type ℓ} {a b : A} → some a ≡ some b → a ≡ b
  some_eq p = cc (p)

  Same-Keeps : (s t : Server M I) → IsConsistent M I s → Same M I accepts s t → Keeps s t
  Same-Keeps s t k same = (
    subst (λ m. Linked M I m t.index t.seed) (sym same.0)
        (subst (λ i. Linked M I s.model i t.seed) (sym same.1)
          (subst (λ n. Linked M I s.model s.index n) (sym same.3) k)),
    omega (arith, same.3),
  )

  append-Same : (id : ℕ) (s : Server M I) → Same M I accepts s (io_loop_append M I accepts id s)
  unfolding io_loop_append
  append-Same id s = (ground arith, ground arith, ground arith, ground arith)

  change-Same : (id : ℕ) (s : Server M I) → Same M I accepts s (io_loop_change M I accepts id s)
  unfolding io_loop_change
  change-Same id s = (ground arith, ground arith, ground arith, ground arith)

  -- The jobs of the worker thread run through.
  job-Same :
      (job : Job) (s : Server M I)
      → IsConsistent M I s
      → (t : Server M I) × (run_job M I accepts job s ≡ some t) × Same M I accepts s t
  unfolding run_job io_loop_remove
  job-Same (subscribe id) s k = io_loop_subscribe_safe M I accepts s k
  job-Same (append id) s k = (io_loop_append M I accepts id s, refl, append-Same id s)
  job-Same (change id) s k = (io_loop_change M I accepts id s, refl, change-Same id s)
  job-Same (remove id) s k = (io_loop_remove M I accepts id s, refl, (refl, refl, refl, refl))

  announce-Same :
      (document : Document) (s : Server M I)
      → Same M I accepts s (client_announces_features M I accepts document s)
  unfolding client_announces_features
  announce-Same document s = (ground arith, ground arith, ground arith, ground arith)

  -- A call on a consistent context whose ids have not run out keeps it consistent and gives out one id at
  -- most.
  step-Keeps :
      (c : Call) (s t : Server M I)
      → IsConsistent M I s
      → suc s.seed < 2 ^ 64
      → step M I accepts c s ≡ some t
      → Keeps s t
  unfolding step connection_state_changes client_subscribes
  step-Keeps (adds memory uri description meta value cookie) s t k room e =
      subst (Keeps s) (some_eq e) (
        server_add_item-IsConsistent M I accepts memory uri description meta value cookie s k room,
        add_seed memory uri description meta value cookie s room,
      )
  step-Keeps (removes id) s t k room e =
      subst (Keeps s) (some_eq e)
        (server_remove_item-IsConsistent M I accepts id s k, omega (arith, remove_seed id s))
  step-Keeps (replaces id value) s t k room e = subst (Keeps s) (some_eq e) (
    replace_current_value-IsConsistent M I accepts id value s k,
    omega (arith, replace_seed id value s),
  )
  step-Keeps (connection ConnectionState.connected) s t k room e =
      subst (Keeps s) (some_eq e) (k, omega arith)
  step-Keeps (connection ConnectionState.disconnected) s t k room e =
      subst (Keeps s) (some_eq e) (k, omega arith)
  step-Keeps (connection ConnectionState.unknown) s t k room e =
      subst (Keeps s) (some_eq e) (k, omega arith)
  step-Keeps (client_announces document) s t k room e =
      subst (Keeps s) (some_eq e) (
        Same-Keeps s (client_announces_features M I accepts document s) k
          (announce-Same document s))
  step-Keeps client_wants_items s t k room e = subst (Keeps s) (some_eq e) (k, omega arith)
  step-Keeps (client_sets id value) s t k room e = (
    client_changes_item-IsConsistent M I accepts id value s t k e,
    omega (arith, change_seed id value s t e),
  )
  step-Keeps (runs job) s t k room e =
      let (u, f, same) = job-Same job s k in
      subst (Keeps s) (some_eq (sym f ∙ e)) (Same-Keeps s u k same)

  -- A context that is just created holds no item and is consistent.
  pub create-IsConsistent :
      (notifies : Bool) (seed : ℕ)
      → 0 < seed
      → seed < 2 ^ 64
      → IsConsistent M I (create M I accepts notifies seed)
  unfolding create
  create-IsConsistent notifies seed positive small = record {
    paired = empty-Paired M I;
    given = λ id item e. absurd (cc (M.find-empty id, e));
    seeded = (positive, small);
  }

  -- The one call that follows a null pointer.
  stuck_call :
      (c : Call) (s : Server M I)
      → IsConsistent M I s
      → step M I accepts c s ≡ none
      → (id : ℕ) × (value : Variant) × (c ≡ client_sets id value) × (M.find id s.model ≡ none)
  unfolding step client_changes_item
  stuck_call (client_sets id value) s k e = elim (Option-cases (M.find id s.model)) [
    | inl missing ↦ (id, value, refl, missing)
    | inr (item, found) ↦ absurd (ground arith)
  ]
  stuck_call (runs job) s k e = let (u, f, same) = job-Same job s k in absurd (cc (e, f))
  stuck_call (adds memory uri description meta value cookie) s k e = absurd (cc (e))
  stuck_call (removes id) s k e = absurd (cc (e))
  stuck_call (replaces id value) s k e = absurd (cc (e))
  stuck_call (connection state) s k e = absurd (cc (e))
  stuck_call (client_announces document) s k e = absurd (cc (e))
  stuck_call client_wants_items s k e = absurd (cc (e))

  abbrev pub RunsThrough : List Call → Server M I → Type 0
  RunsThrough calls s = (t : Server M I) × (run M I accepts calls s ≡ some t) × IsConsistent M I t

  -- A change at an id that the context does not hold when it is requested.
  abbrev pub ChangesUnknown : List Call → Server M I → Type 0
  ChangesUnknown calls s =
      (before : List Call) × (after : List Call) × (id : ℕ) × (value : Variant) × (u : Server M I)
      × (calls ≡ before ++ (client_sets id value ∷ after))
      × (run M I accepts before s ≡ some u)
      × (M.find id u.model ≡ none)

  run_next :
      (c : Call) (calls : List Call) (s u : Server M I)
      → step M I accepts c s ≡ some u
      → run M I accepts (c ∷ calls) s ≡ run M I accepts calls u
  unfolding run
  run_next c calls s u e = rw e

  run_empty : (s : Server M I) → run M I accepts [] s ≡ some s
  unfolding run
  run_empty s = refl

  -- Calls in any order on a consistent context, too few to use up the ids, run through to a consistent
  -- context, or one of them is a change that the client requests at an id the context does not hold then.
  pub run-IsConsistent :
      (calls : List Call) (s : Server M I)
      → IsConsistent M I s
      → s.seed + length calls < 2 ^ 64
      → RunsThrough calls s ⊎ ChangesUnknown calls s
  run-IsConsistent [] s k room = inl (s, run_empty s, k)
  run-IsConsistent (c ∷ calls) s k room = elim (Option-cases (step M I accepts c s)) [
    | inl stuck ↦
        let (id, value, call, missing) = stuck_call c s k stuck in
        inr ([], calls, id, value, s, ap (λ x. x ∷ calls) call, run_empty s, missing)
    | inr (u, e) ↦
        let (k2, next) = step-Keeps c s u k (omega arith) e in
        elim (run-IsConsistent calls u k2 (omega arith)) [
          | inl (t, done, kept) ↦ inl (t, run_next c calls s u e ∙ done, kept)
          | inr (before, after, id, value, w, split, done, missing) ↦ inr (
            c ∷ before,
            after,
            id,
            value,
            w,
            ap (λ l. c ∷ l) split,
            run_next c before s u e ∙ done,
            missing,
          )
        ]
  ]

  -- Calls in any order from the creation of a context on, too few to use up the ids, run through to a
  -- context whose model and index describe the same items, or one of them is a change that the client
  -- requests at an id the context does not hold then.
  pub run-create :
      (calls : List Call) (notifies : Bool) (seed : ℕ)
      → 0 < seed
      → seed + length calls < 2 ^ 64
      → RunsThrough calls (create M I accepts notifies seed)
        ⊎ ChangesUnknown calls (create M I accepts notifies seed)
  unfolding create
  run-create calls notifies seed positive room =
      run-IsConsistent calls (create M I accepts notifies seed)
        (create-IsConsistent notifies seed positive (omega arith)) room
