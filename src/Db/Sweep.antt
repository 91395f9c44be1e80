-- ===== src/Db/Sweep.antt =====
-- `check_invariants` of src/db/mod.rs, which runs the sweep of the schema. The function that it
-- calls is VOLATILE, so that each of its seven queries sees what other sessions have committed.
use ledger_rs.Prelude.{
  ℕ, ◌≡◌, ◌↔◌, refl, ap, ◌∙◌, subst, sym, Bool, true, none, List, [], ◌∷◌, map, All, ok, Result,
}
use ledger_rs.Error.{SqlxError}
use ledger_rs.Schema.Rows.{Db}
use ledger_rs.Schema.Invariant.{Inv}
use ledger_rs.Schema.Sweep.{
  Printer, InvariantCheck, ledger_check_invariants, queried, reconciled, global_sum_zero,
  per_transaction_balanced, transaction_shape, no_empty_transactions,
  materialized_balance_matches_entries, no_unauthorized_negative_balance, idempotency_keys_unique,
}
use ledger_rs.Schema.Reconciliation.{
  IsSound, Parented, FitsColumns, verdicts, verdicts_decide, derive_balances_ok,
}
use ledger_rs.Db.Session.{Env, World, Action, ◌>>=◌, pure, lift, read, arrive}
use ledger_rs.Db.Session.Calm.{IsCalm, bind_ok, lift_ok}

module _ (env : Env) where
  -- `RETURN QUERY` of each query, and `fetch_all`.
  unfoldable pub return_queries :
      List (Db → Result SqlxError InvariantCheck) → Action SqlxError (List InvariantCheck)
  return_queries [] = pure []
  return_queries (q ∷ qs) =
      read env q >>= λ r. lift r >>= λ row. return_queries qs >>= λ rows. pure (row ∷ rows)

  unfoldable pub check_invariants : Printer → Action SqlxError (List InvariantCheck)
  check_invariants print = return_queries (ledger_check_invariants print)

-- On safe tables the query gives a row with the verdict `b`.
abbrev Yields : (Db → Type 0) → (Db → Result SqlxError InvariantCheck) × Bool → Type 0
Yields Safe (q, b) =
    (db : Db) → Safe db → (row : InvariantCheck) × (q db ≡ ok row) × (row.is_ok ≡ b)

module _ (env : Env) (faultless : (n : ℕ) → env.fault n ≡ none) (Safe : Db → Type 0)
    (lawful : (n : ℕ) (db : Db) → Safe db → Safe (env.others n db)) where
  read_arrived :
      {A : Type 0} (f : Db → A) (w : World)
      → read env f w ≡ (ok (f (arrive env w).db), arrive env w)
  unfolding read
  read_arrived f w = rw (faultless w.step) refl

  return_queries_yield :
      (qs : List ((Db → Result SqlxError InvariantCheck) × Bool)) (w : World)
      → All (Yields Safe) qs
      → Safe w.db
      → (rows : List InvariantCheck) × (u : World) × (return_queries env (map (λ q. q.0) qs) w
          ≡ (ok rows, u))
        × (map (λ row. row.is_ok) rows ≡ map (λ q. q.1) qs)
        × Safe u.db
  unfolding return_queries pure
  return_queries_yield [] w h safe = ([], w, refl, refl, safe)
  return_queries_yield ((q, b) ∷ qs) w (h, hs) safe =
      let w' = arrive env w in
      let kept = lawful w.step w.db safe in
      let (row, gives, verdict) = h w'.db kept in
      let (rows, u, runs, tests, left) = return_queries_yield qs w' hs kept in
      (
        row ∷ rows,
        u,
        bind_ok _ _ _ _ (read_arrived q w)
            ∙ bind_ok _ _ _ _ (lift_ok _ _ gives)
            ∙ bind_ok _ _ _ _ runs,
        cc (verdict, tests),
        left,
      )

-- The queries, each with its verdict.
abbrev judged :
    Printer → (a b c d e f g : Bool) → List ((Db → Result SqlxError InvariantCheck) × Bool)
judged print a b c d e f g =
    (queried print (global_sum_zero print), a)
    ∷ (queried print (per_transaction_balanced print), b)
    ∷ (queried print (transaction_shape print), c)
    ∷ (queried print (no_empty_transactions print), d)
    ∷ (reconciled print, e)
    ∷ (queried print (no_unauthorized_negative_balance print), f)
    ∷ (queried print (idempotency_keys_unique print), g)
    ∷ []

passed-All :
    (rows : List InvariantCheck)
    → All (λ row. row.is_ok ≡ true) rows ↔ All (λ b. b ≡ true) (map (λ row. row.is_ok) rows)
passed-All [] = (λ _. tt, λ _. tt)
passed-All (row ∷ rows) =
    (λ (p, h). (p, (passed-All rows).0 h), λ (p, h). (p, (passed-All rows).1 h))

reconciled_ok :
    (print : Printer) (db : Db)
    → FitsColumns db
    → reconciled print db ≡ ok (materialized_balance_matches_entries print db)
reconciled_ok print db h = rw (derive_balances_ok db.entries db.accounts h) refl

-- Where the verdicts on safe tables are known, the queries give them.
judged_yield :
    (print : Printer) (Safe : Db → Type 0) (a b c d e f g : Bool)
    → ((db : Db) → Safe db → FitsColumns db)
    → ((db : Db) → Safe db → verdicts print db ≡ a ∷ b ∷ c ∷ d ∷ e ∷ f ∷ g ∷ [])
    → All (Yields Safe) (judged print a b c d e f g)
judged_yield print Safe a b c d e f g fits known = (
  λ db s. (global_sum_zero print db, refl, cc (known db s)),
  (
    λ db s. (per_transaction_balanced print db, refl, cc (known db s)),
    (
      λ db s. (transaction_shape print db, refl, cc (known db s)),
      (
        λ db s. (no_empty_transactions print db, refl, cc (known db s)),
        (
          λ db s. (
            materialized_balance_matches_entries print db,
            reconciled_ok print db (fits db s),
            cc (known db s),
          ),
          (
            λ db s. (no_unauthorized_negative_balance print db, refl, cc (known db s)),
            (λ db s. (idempotency_keys_unique print db, refl, cc (known db s)), tt),
          ),
        ),
      ),
    ),
  ),
)

Inv-IsSound : (db : Db) → Inv db → IsSound db
Inv-IsSound db v = record {
  zero_sum = v.zero_sum;
  balanced = v.balanced;
  cached = v.cached;
  funded = v.well_formed.funded;
  keys_differ = v.well_formed.keys_differ;
}

all_seven :
    {a b c d e f g : Bool}
    → All (λ x. x ≡ true) (a ∷ b ∷ c ∷ d ∷ e ∷ f ∷ g ∷ [])
    → a ∷ b ∷ c ∷ d ∷ e ∷ f ∷ g ∷ [] ≡ true ∷ true ∷ true ∷ true ∷ true ∷ true ∷ true ∷ []
all_seven (p, (q, (r, (s, (t, (u, (v, _))))))) = cc

-- Tables with the invariants of the ledger on which no query of the sweep fails.
abbrev pub Reconcilable : Db → Type 0
Reconcilable db = Inv db × FitsColumns db

module _ (env : Env) (print : Printer) (w : World) where
  -- In calm, where every entry has its transaction and the derived balances fit their column, the
  -- sweep ends with its rows, and all of them are ok exactly where the tables are sound: the log
  -- nets to zero, every transaction is balanced, every cached balance is the one of the log, no
  -- account is overdrawn that must not be, and no two transactions have the same key.
  pub check_invariants_decides :
      IsCalm env
      → Parented w.db
      → FitsColumns w.db
      → (rows : List InvariantCheck) × ((check_invariants env print w).0 ≡ ok rows)
        × (All (λ row. row.is_ok ≡ true) rows ↔ IsSound w.db)
  unfolding check_invariants
  check_invariants_decides calm fk fits =
      let (rows, u, runs, tests, _) =
        return_queries_yield env (calm.faultless) (λ db. db ≡ w.db) (λ n db e. calm.alone n db ∙ e)
          (judged print _ _ _ _ _ _ _) w
          (judged_yield print (λ db. db ≡ w.db) _ _ _ _ _ _ _
            (λ db e. subst FitsColumns (sym e) fits) (λ db e. ap (verdicts print) e))
          refl in
      let (passing, sound) = passed-All rows in
      let (told, tells) = verdicts_decide print w.db fk in
      (
        rows,
        ap (λ (x : Result SqlxError (List InvariantCheck) × World). x.0) runs,
        (
          λ h. told (subst (All (λ b. b ≡ true)) tests (passing h)),
          λ s. sound (subst (All (λ b. b ≡ true)) (sym tests) (tells s)),
        ),
      )

  -- Where no statement fails, and other sessions keep the invariants of the ledger and balances
  -- that fit their column, the sweep ends and every row of it is ok, although other sessions
  -- commit between its queries.
  pub check_invariants_passes :
      ((n : ℕ) → env.fault n ≡ none)
      → ((n : ℕ) (db : Db) → Reconcilable db → Reconcilable (env.others n db))
      → Reconcilable w.db
      → (rows : List InvariantCheck) × ((check_invariants env print w).0 ≡ ok rows)
        × All (λ row. row.is_ok ≡ true) rows
  unfolding check_invariants
  check_invariants_passes faultless lawful (v, fits) =
      let (rows, u, runs, tests, _) =
        return_queries_yield env faultless Reconcilable lawful (judged print _ _ _ _ _ _ _) w
          (judged_yield print Reconcilable true true true true true true true (λ db r. r.1)
            (λ db (inv, fits').
              all_seven
                ((verdicts_decide print db (inv.well_formed.parented)).1 (Inv-IsSound db inv))))
          (v, fits) in
      (
        rows,
        ap (λ (x : Result SqlxError (List InvariantCheck) × World). x.0) runs,
        (passed-All rows).1 (
            subst (All (λ b. b ≡ true)) (sym tests)
              (refl, (refl, (refl, (refl, (refl, (refl, (refl, tt)))))))),
      )
