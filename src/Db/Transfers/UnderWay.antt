-- ===== src/Db/Transfers/UnderWay.antt =====
-- The tables of a transfer that is under way, through `adjust_balance` and `insert_entry`.
use ledger_rs.Prelude.{
  ℕ, suc, ◌≡◌, refl, sym, ap, subst, >>=-eq-ok, ==_comm, List, ◌∷◌, ok, ◌==◌, Bool-cases, inl, inr,
}
use ledger_rs.Prelude.Int.{ℤ, pos, neg, ◌+ℤ◌, int_laws}
use ledger_rs.Decimal.{Decimal, DecimalLaws, IsExact, units}
use ledger_rs.Domain.Currency.{Currency}
use ledger_rs.Domain.Postings.{Direction}
use ledger_rs.Schema.Rows.{Db, EntryRecord, of_transaction, posting, signed_by}
use ledger_rs.Schema.Statements.{insert_entry_row, update_balance}
use ledger_rs.Schema.Deferred.{run_deferred, assert_transaction_balanced}
use ledger_rs.Schema.Invariant.{Inv, Flight, IsBalanced, assert-IsBalanced}
use ledger_rs.Schema.Effects.{update_balance_ok, insert_entry_ok, contains-find, Funded}
use ledger_rs.Schema.Flights.{raise-Flight, enter-Flight, ahead, behind}
use ledger_rs.Db.Session.{Env, Tx}
use ledger_rs.Db.Session.Triples.{
  Triple, Triple->>=, Triple-pure, Triple-map_error, Triple-run, Triple-new_v4,
}
use ledger_rs.Db.Transfers.{adjust_balance, insert_entry, new_entry}

-- The number of the next transaction is no part of the invariants.
pub Inv-next_xid : (db : Db) → Inv db → Inv (record db { next_xid = suc db.next_xid })
Inv-next_xid db v = record {
  well_formed = record {
    funded = v.well_formed.funded;
    account_ids = v.well_formed.account_ids;
    transaction_ids_differ = v.well_formed.transaction_ids_differ;
    keys_differ = v.well_formed.keys_differ;
    parented = v.well_formed.parented;
    positive = v.well_formed.positive;
    denominated = v.well_formed.denominated;
  };
  cached = v.cached;
  balanced = v.balanced;
  zero_sum = v.zero_sum;
}

-- The committed tables are in order, those of the open transaction under way, and the trigger has
-- the listed transactions to check.
pub record Under (k : ℕ) (off : ℕ → ℤ) (debt : ℤ) (pending : List ℕ) (tx : Tx) (db : Db)
    : Type 0 where
  pub committed : Inv db
  pub flight : Flight k off debt tx.tables
  pub waiting : tx.pending ≡ pending

-- The caches after the whole transfer are those of the log.
pub settled :
    (from to : ℕ) (z : ℤ) (id : ℕ)
    → behind to z (behind from (neg z) (ahead to z (ahead from (neg z) (λ _. pos 0)))) id ≡ pos 0
settled from to z id =
    rw (==_comm from id, ==_comm to id)
      (elim (Bool-cases (id == from)) [
        | inl p ↦ elim (Bool-cases (id == to)) [
          | inl q ↦ rw (p, q) (omega int_laws)
          | inr q ↦ rw (p, q) (omega int_laws)
        ]
        | inr p ↦ elim (Bool-cases (id == to)) [
          | inl q ↦ rw (p, q) (omega int_laws)
          | inr q ↦ rw (p, q) (omega int_laws)
        ]
      ])

pub deferred-IsBalanced :
    (k : ℕ) (ks : List ℕ) (db : Db)
    → run_deferred (k ∷ ks) db ≡ ok tt
    → IsBalanced (of_transaction k db.entries)
unfolding run_deferred
deferred-IsBalanced k ks db h =
    let (_, first, _) = >>=-eq-ok (assert_transaction_balanced (of_transaction k db.entries)) _ h in
    assert-IsBalanced _ first

module _ {D : Type 0} ⦃dec : Decimal D⦄ (laws : DecimalLaws D) (env : Env) where
  pub adjust-Triple :
      (k : ℕ) (off : ℕ → ℤ) (debt : ℤ) (pending : List ℕ) (tx : Tx) (j : ℕ) (delta : D)
      → IsExact delta
      → Triple Inv
          (Under k off debt pending tx)
          (adjust_balance env tx j delta)
          (Under k (ahead j (units delta) off) debt pending)
  unfolding adjust_balance
  adjust-Triple k off debt pending tx j delta exact =
      Triple->>= Inv _ _ (Triple-map_error Inv _ _ (Triple-run Inv env _ (λ db u. u.committed)))
        λ tables. Triple-pure Inv _ (λ db h. adjusted tables db h.0 h.1)
    where
      adjusted :
          (tables db : Db)
          → Under k off debt pending tx db
          → update_balance j delta tx.tables ≡ ok tables
          → Under k (ahead j (units delta) off) debt pending (record tx { tables = tables }) db
      adjusted tables db u e =
          let (same, funds) = update_balance_ok laws j delta tx.tables tables exact e in
          record {
            committed = u.committed;
            flight = subst (Flight k _ debt) (sym same) (
                raise-Flight j (units delta) k off debt tx.tables u.flight
                  (subst (λ t. Funded t.accounts) same (funds u.flight.well_formed.funded)));
            waiting = u.waiting;
          }

  pub insert_entry-Triple :
      (k : ℕ) (off : ℕ → ℤ) (debt : ℤ) (pending : List ℕ) (tx : Tx) (j : ℕ) (dir : Direction)
      (amount : D) (c : Currency)
      → Triple Inv (Under k off debt pending tx) (insert_entry env tx k j dir amount c) (
          Under k
            (behind j (signed_by dir (dec.stored amount)) off)
            (signed_by dir (dec.stored amount) +ℤ debt)
            (k ∷ pending))
  unfolding insert_entry
  insert_entry-Triple k off debt pending tx j dir amount c =
      Triple->>= Inv _ _ (Triple-new_v4 Inv env) λ id.
        Triple->>= Inv _ _ (Triple-map_error Inv _ _ (Triple-run Inv env _ (λ db u. u.committed)))
          λ tables.
            Triple-pure Inv _ (λ db h.
              entered (new_entry env id k j dir amount c tx.started) tables db refl h.0 h.1)
    where
      entered :
          (e : EntryRecord) (tables db : Db)
          → e.transaction_id ≡ k
          → Under k off debt pending tx db
          → insert_entry_row tx.xid e tx.tables ≡ ok tables
          → Under k
              (behind e.account_id (posting e) off)
              (posting e +ℤ debt)
              (k ∷ pending)
              (record tx { tables = tables; pending = k ∷ tx.pending })
              db
      entered e tables db own u h =
          let (same, more, matched, parent) = insert_entry_ok tx.xid e tx.tables tables h in
          record {
            committed = u.committed;
            flight = subst (Flight k _ _) (sym same) (
                enter-Flight e k off debt tx.tables u.flight own (contains-find _ _ parent) more
                  matched);
            waiting = ap (λ ks. k ∷ ks) u.waiting;
          }
