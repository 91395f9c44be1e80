-- ===== src/Http/History.antt =====
-- Requests one after the other, beside other sessions: what holds after any history of them.
use ledger_rs.Prelude.{true, ◌<◌, ℕ, ◌≡◌, subst, none, ok, List, [], ◌∷◌, All, sym, ◌∙◌}
use ledger_rs.Prelude.Int.{pos, +ℤ_zero, magnitude}
use ledger_rs.Prelude.Text.{Text}
use ledger_rs.Decimal.{Decimal, DecimalLaws}
use ledger_rs.Domain.Fingerprint.{Digest}
use ledger_rs.Error.{LedgerError}
use ledger_rs.Schema.Rows.{Db, AccountRecord, EntryRecord, net, of_account}
use ledger_rs.Schema.Invariant.{Inv, Cached}
use ledger_rs.Schema.Statements.{numeric_limit}
use ledger_rs.Schema.Conservation.{money_in, Inv-conserved}
use ledger_rs.Schema.Sweep.{Printer, InvariantCheck}
use ledger_rs.Schema.Writes.{Written, untouched, opens, numbers}
use ledger_rs.Schema.Permanence.{Extends, InRange, Written-Extends, Written-InRange}
use ledger_rs.Db.Session.{Env, World}
use ledger_rs.Db.Sweep.{check_invariants, check_invariants_passes, Reconcilable}
use ledger_rs.Db.Transfers.Writing.{Since, others_write, write_one, execute-Since}
use ledger_rs.Http.Accounts.{create_account-Safe}
use ledger_rs.Http.Safety.{create_transfer-Safe}
use ledger_rs.Http.Serving.{serve-Safe, serve-Inv}
use ledger_rs.Http.Router.{Framework, AppState, Request, Reply, serve}

module _ {D : Type 0} ⦃dec : Decimal D⦄ (laws : DecimalLaws D) (framework : Framework D)
    (display : LedgerError → Text) (dg : Digest) (env : Env) (state : AppState) where
  -- The replies to requests that come one after the other, and the world after them.
  pub serve_all : List (Request D) → World → List (Reply D) × World
  serve_all [] w = ([], w)
  serve_all (request ∷ rest) w =
      let (r, w') = serve framework display dg env state request w in
      let (rs, u) = serve_all rest w' in (r ∷ rs, u)

  module _ (writing : (n : ℕ) (db : Db) → Written D db (env.others n db)) where
    serve-Written :
        (origin : Db) (request : Request D) (w : World)
        → Written D origin w.db
        → Written D origin (serve framework display dg env state request w).1.db
    serve-Written origin =
        serve-Safe framework display dg env state (Since env writing origin)
          (others_write env writing origin)
          (create_account-Safe D env (Since env writing origin) (others_write env writing origin)
            (λ a db db' empty e v.
              write_one env writing origin _ _ (numbers db')
                (write_one env writing origin _ _ (opens a db db' empty e) v))
            state.allow_funding_account_creation)
          (create_transfer-Safe laws env dg (Since env writing origin)
            (λ key intent w _ v. execute-Since env writing origin dg key intent w v))

    serve_all-Written :
        (requests : List (Request D)) (origin : Db) (w : World)
        → Written D origin w.db
        → Written D origin (serve_all requests w).1.db
    unfolding serve_all
    serve_all-Written [] origin w h = h
    serve_all-Written (request ∷ rest) origin w h =
        serve_all-Written rest origin _ (serve-Written origin request w h)

    -- Where other sessions change the tables by the same statements, no history of requests loses
    -- or changes what is written: each transaction and each entry stays as it is, and so does each
    -- account but for its balance.
    pub serve_all-Extends :
        (requests : List (Request D)) (w : World) → Extends w.db (serve_all requests w).1.db
    serve_all-Extends requests w =
        Written-Extends w.db _ (serve_all-Written requests w.db w (untouched w.db))

  module _ (lawful : (n : ℕ) (db : Db) → Inv db → Inv (env.others n db)) where
    serve_all-Inv :
        (requests : List (Request D)) (w : World) → Inv w.db → Inv (serve_all requests w).1.db
    unfolding serve_all
    serve_all-Inv [] w v = v
    serve_all-Inv (request ∷ rest) w v =
        serve_all-Inv rest _ (serve-Inv laws framework display dg env state lawful request w v)

  -- Balances that agree with the log and fit their column are derived balances that fit it.
  InRange-FitsColumns :
      (es : List EntryRecord) (rows : List AccountRecord)
      → Cached (λ _. pos 0) es rows
      → All InRange rows
      → All (λ a. magnitude (net (of_account a.id es)) < numeric_limit) rows
  InRange-FitsColumns es [] c r = tt
  InRange-FitsColumns es (a ∷ rows) (c, cs) (r, rs) = (
    subst (λ z. magnitude z < numeric_limit) (c ∙ +ℤ_zero (net (of_account a.id es))) r,
    InRange-FitsColumns es rows cs rs,
  )

  -- After any history of requests, whatever failed in it, from tables with the invariants of the
  -- ledger and balances that fit their column, beside sessions that keep the invariants and change
  -- the tables by the same statements, the sweep passes: if no statement of the sweep itself fails
  -- and no other session commits during it, it ends and every row of it is ok.
  pub serve_all_reconciles :
      ((n : ℕ) (db : Db) → Written D db (env.others n db))
      → ((n : ℕ) (db : Db) → Inv db → Inv (env.others n db))
      → (later : Env) (print : Printer) → ((n : ℕ) → later.fault n ≡ none)
      → ((n : ℕ) (db : Db) → later.others n db ≡ db)
      → (requests : List (Request D)) (w : World) → Inv w.db
      → All InRange w.db.accounts
      → (rows : List InvariantCheck) × ((check_invariants later print (serve_all requests w).1).0
          ≡ ok rows)
        × All (λ row. row.is_ok ≡ true) rows
  serve_all_reconciles writing lawful later print faultless alone requests w v r =
      let u = (serve_all requests w).1 in
      let inv = serve_all-Inv lawful requests w v in
      let range =
        Written-InRange w.db u.db (serve_all-Written writing requests w.db w (untouched w.db)) r in
      check_invariants_passes later print u faultless
        (λ n db h. subst Reconcilable (sym (alone n db)) h)
        (inv, InRange-FitsColumns u.db.entries u.db.accounts (inv.cached) range)

  -- After any history of requests, whatever failed in it, from tables with the invariants of the
  -- ledger and beside sessions that keep them, the balances add up to zero in each currency: money
  -- is neither made nor lost, whichever accounts may owe.
  pub serve_all_conserves :
      ((n : ℕ) (db : Db) → Inv db → Inv (env.others n db))
      → (requests : List (Request D)) (w : World) → Inv w.db
      → (c : Text) → money_in c (serve_all requests w).1.db ≡ pos 0
  serve_all_conserves lawful requests w v =
      Inv-conserved (serve_all requests w).1.db (serve_all-Inv lawful requests w v)
