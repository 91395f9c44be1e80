-- ===== src/Db/Transfers/Reads.antt =====
-- The steps of a transfer that change no table keep whatever other sessions keep.
use ledger_rs.Prelude.{ℕ, List}
use ledger_rs.Prelude.Text.{Text}
use ledger_rs.Decimal.{Decimal}
use ledger_rs.Error.{LedgerError}
use ledger_rs.Schema.Rows.{Db}
use ledger_rs.Db.Session.{Env, Tx}
use ledger_rs.Db.Session.Triples.{
  Triple, Triple->>=, Triple-lift, Triple-pure, Triple-map_error, Triple-weaken, Triple-run,
  Triple-rollback, Triple-read,
}
use ledger_rs.Db.Transactions.{IdempotencyRecord, find_by_idempotency_key, get}
use ledger_rs.Db.Accounts.{fetch_for_update}
use ledger_rs.Db.Transfers.{replay, lock, lost_race}

module _ (Safe : Db → Type 0) (env : Env)
    (lawful : (n : ℕ) (db : Db) → Safe db → Safe (env.others n db)) where
  pub find-Triple :
      (key : Text) → Triple Safe Safe (find_by_idempotency_key env key) (λ _ db. Safe db)
  unfolding find_by_idempotency_key
  find-Triple key = Triple-map_error Safe _ _ (Triple-read Safe env lawful _)

module _ {D : Type 0} ⦃dec : Decimal D⦄ (Safe : Db → Type 0) (env : Env)
    (lawful : (n : ℕ) (db : Db) → Safe db → Safe (env.others n db)) where
  pub get-Triple :
      (id : ℕ) → Triple Safe {E = LedgerError} Safe (get {D = D} env id) (λ _ db. Safe db)
  unfolding get
  get-Triple id =
      Triple->>= Safe _ _ (Triple-map_error Safe _ _ (Triple-read Safe env lawful _)) λ found.
        Triple->>= Safe _ _ (Triple-lift Safe _ (λ db h. h)) λ transaction.
          Triple->>= Safe _ _
            (Triple-map_error Safe _ _
              (Triple-weaken Safe _ (Triple-read Safe env lawful _) (λ db h. h.0) (λ a db h. h)))
            λ rows.
              Triple->>= Safe _ _ (Triple-lift Safe _ (λ db h. h))
                λ entries. Triple-pure Safe _ (λ db h. h.0)

  pub replay-Triple :
      (key : Text) (r : IdempotencyRecord) (hash : List ℕ)
      → Triple Safe Safe (replay {D = D} env key r hash) (λ _ db. Safe db)
  unfolding replay
  replay-Triple key r hash = Triple->>= Safe _ _ (Triple-lift Safe _ (λ db h. h)) λ _.
      Triple->>= Safe _ _
        (Triple-weaken Safe _ (get-Triple r.transaction_id) (λ db h. h.0) (λ a db h. h))
        λ detail. Triple-pure Safe _ (λ db h. h)

  pub lost_race-Triple :
      (key : Text) (hash : List ℕ)
      → Triple Safe Safe (lost_race {D = D} env key hash) (λ _ db. Safe db)
  unfolding lost_race
  lost_race-Triple key hash =
      Triple->>= Safe _ _ (Triple-map_error Safe _ _ (Triple-rollback Safe env (λ db h. h))) λ _.
        Triple->>= Safe _ _ (find-Triple Safe env lawful key) λ found.
          Triple->>= Safe _ _ (Triple-lift Safe _ (λ db h. h))
            λ r. Triple-weaken Safe _ (replay-Triple key r hash) (λ db h. h.0) (λ a db h. h)

  pub lock-Triple :
      {Pre : Db → Type 0} (tx : Tx) (id : ℕ)
      → ((db : Db) → Pre db → Safe db)
      → Triple Safe Pre (lock {D = D} env tx id) (λ _ db. Pre db)
  unfolding lock fetch_for_update
  lock-Triple tx id safe =
      Triple->>= Safe _ _ (Triple-map_error Safe _ _ (Triple-run Safe env _ safe)) λ found.
        Triple-weaken Safe _ (Triple-lift Safe _ (λ db h. safe db h.0)) (λ db h. h)
          (λ a db h. h.0.0)
