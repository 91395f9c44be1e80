-- ===== src/Db/Transfers/Neighbours.antt =====
-- What other sessions do beside a call of `execute`, and the steps of the call that change no table.
use ledger_rs.Prelude.{ℕ, suc, ◌≡◌, ◌≢◌, ◌⊎◌, inl, inr, none, List}
use ledger_rs.Prelude.Text.{Text}
use ledger_rs.Decimal.{Decimal}
use ledger_rs.Domain.Fingerprint.{TransferIntent, created}
use ledger_rs.Schema.Rows.{Db}
use ledger_rs.Db.Session.{Env}
use ledger_rs.Db.Session.Triples.{
  Triple, Triple->>=, Triple-lift, Triple-pure, Triple-map_error, Triple-weaken, Triple-rollback,
}
use ledger_rs.Db.Transactions.{IdempotencyRecord, select_key}
use ledger_rs.Db.Transfers.{TransferResult, replay, lost_race}
use ledger_rs.Db.Transfers.Effect.{IsTransferred}
use ledger_rs.Db.Transfers.Reads.{get-Triple, find-Triple}

-- What other sessions do to the tables from one time to a later one, as a relation: it may be
-- nothing, it is theirs whenever they are let in, and it takes no key away.
pub record Neighbours (env : Env) (Others : Db → Db → Type 0) : Type 0 where
  pub nothing : (a : Db) → Others a a
  pub chained : (a b c : Db) → Others a b → Others b c → Others a c
  pub let_in : (n : ℕ) (db : Db) → Others db (env.others n db)
  pub numbered : (db : Db) → Others db (record db { next_xid = suc db.next_xid })
  pub keyed :
      (key : Text) (a b : Db) → Others a b → none ≢ select_key key a → none ≢ select_key key b

-- `start` has become `db` by what other sessions did, with the whole transfer somewhere between.
pub record IsPaidOnce {D : Type 0} ⦃dec : Decimal D⦄ (Others : Db → Db → Type 0) (key : Text)
    (hash : List ℕ) (intent : TransferIntent D) (start db : Db) : Type 0 where
  pub before : Db
  pub after : Db
  pub earlier : Others start before
  pub paid : IsTransferred key hash intent before after
  pub later : Others after db

-- What is committed at any time, and what a result tells of it.
module _ {D : Type 0} ⦃dec : Decimal D⦄ (Others : Db → Db → Type 0) (key : Text) (hash : List ℕ)
    (intent : TransferIntent D) (start : Db) where
  abbrev pub IsOnce : Db → Type 0
  IsOnce db = Others start db ⊎ IsPaidOnce Others key hash intent start db

  abbrev pub IsTold : TransferResult D → Db → Type 0
  IsTold r db = IsOnce db × (r.outcome ≡ created → IsPaidOnce Others key hash intent start db)

module _ {D : Type 0} ⦃dec : Decimal D⦄ (env : Env) (Others : Db → Db → Type 0)
    (beside : Neighbours env Others) (key : Text) (hash : List ℕ) (intent : TransferIntent D)
    (start : Db) where
  abbrev Paid : Db → Type 0
  Paid = IsPaidOnce Others key hash intent start

  abbrev Once : Db → Type 0
  Once = IsOnce Others key hash intent start

  abbrev Told : TransferResult D → Db → Type 0
  Told = IsTold Others key hash intent start

  pub waiting : (n : ℕ) (db : Db) → Others start db → Others start (env.others n db)
  waiting n db h = beside.chained start db _ h (beside.let_in n db)

  pub staying : (n : ℕ) (db : Db) → Paid db → Paid (env.others n db)
  staying n db p = record {
    before = p.before;
    after = p.after;
    earlier = p.earlier;
    paid = p.paid;
    later = beside.chained p.after db _ p.later (beside.let_in n db);
  }

  pub lawful : (n : ℕ) (db : Db) → Once db → Once (env.others n db)
  lawful n db (inl h) = inl (waiting n db h)
  lawful n db (inr p) = inr (staying n db p)

  pub replay-Told :
      (r : IdempotencyRecord) (h : List ℕ) → Triple Once Once (replay {D = D} env key r h) Told
  unfolding replay
  replay-Told r h = Triple->>= Once _ _ (Triple-lift Once _ (λ db p. p)) λ _.
      Triple->>= Once _ _
        (Triple-weaken Once _ (get-Triple Once env lawful r.transaction_id) (λ db p. p.0)
          (λ a db p. p))
        λ detail. Triple-pure Once _ (λ db p. (p, λ e. cc))

  pub lost_race-Told : (h : List ℕ) → Triple Once Once (lost_race {D = D} env key h) Told
  unfolding lost_race
  lost_race-Told h =
      Triple->>= Once _ _ (Triple-map_error Once _ _ (Triple-rollback Once env (λ db p. p))) λ _.
        Triple->>= Once _ _ (find-Triple Once env lawful key) λ found.
          Triple->>= Once _ _ (Triple-lift Once _ (λ db p. p))
            λ r. Triple-weaken Once _ (replay-Told r h) (λ db p. p.0) (λ a db p. p)
