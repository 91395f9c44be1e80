-- ===== src/Db/Transfers/Statements.antt =====
-- The statements of a transfer, carried out: the open transaction that each leaves.
use ledger_rs.Prelude.{ℕ, ◌<◌, ◌≡◌, refl, sym, subst, ◌∙◌, true, false, some, ◌∷◌, map, ok, All}
use ledger_rs.Prelude.Int.{ℤ, pos, ltb_ℤ, magnitude}
use ledger_rs.Decimal.{Decimal, DecimalLaws, units, IsExact}
use ledger_rs.Domain.Currency.{Currency, as_str}
use ledger_rs.Domain.Postings.{Direction}
use ledger_rs.Error.{database}
use ledger_rs.Schema.Rows.{
  AccountRecord, EntryRecord, TransactionRecord, find_account, find_transaction, contains,
  entry_ids,
}
use ledger_rs.Schema.Statements.{numeric_limit, account_matches}
use ledger_rs.Schema.Effects.{raise_balance}
use ledger_rs.Schema.Carried.{HasRoom, update_balance_fits, insert_entry_fits}
use ledger_rs.Db.Session.{Env, World, Tx, pure, lift, tick}
use ledger_rs.Db.Session.Calm.{IsCalm, bind_ok, map_error-run, new_v4_ok}
use ledger_rs.Db.Accounts.{to_row, fetch_for_update, select_account}
use ledger_rs.Db.Transfers.{adjust_balance, overdraft_error, insert_entry, new_entry, lock}

-- The open transaction after `adjust_balance`, and after `insert_entry`.
unfoldable pub adjusted : Tx → ℕ → ℤ → Tx
adjusted tx j z = record tx {
  tables = record (tx.tables) { accounts = map (raise_balance j z) tx.tables.accounts };
}

unfoldable pub entered : Tx → EntryRecord → Tx
entered tx e = record tx {
  tables = record (tx.tables) { entries = e ∷ tx.tables.entries };
  pending = e.transaction_id ∷ tx.pending;
}

module _ {D : Type 0} ⦃dec : Decimal D⦄ (laws : DecimalLaws D) (env : Env) (calm : IsCalm env) where
  pub adjust_ok :
      (tx : Tx) (j : ℕ) (delta : D) (z : ℤ) (w : World)
      → IsExact delta
      → units delta ≡ z
      → All (HasRoom j z) tx.tables.accounts
      → adjust_balance env tx j delta w ≡ (ok (adjusted tx j z), tick env w)
  unfolding adjust_balance adjusted pure
  adjust_ok tx j delta z w e same full =
      let room = subst (λ x. All (HasRoom j x) tx.tables.accounts) (sym same) full in
      subst (λ x. adjust_balance env tx j delta w ≡ (ok (adjusted tx j x), tick env w)) same
        (bind_ok _ _ _ _ (
          map_error-run env calm w (overdraft_error j) _ _
            (update_balance_fits laws j delta tx.tables e room)))

  pub insert_ok :
      (tx : Tx) (k j : ℕ) (dir : Direction) (amount : D) (c : Currency) (t : TransactionRecord)
      (w : World)
      → IsExact amount
      → magnitude (units amount) < numeric_limit
      → ltb_ℤ (pos 0) (units amount) ≡ true
      → find_transaction k tx.tables.transactions ≡ some t
      → t.created_xid ≡ tx.xid
      → contains (env.uuid w.step) (entry_ids tx.tables.entries) ≡ false
      → account_matches (as_str c) (find_account j tx.tables.accounts) ≡ true
      → insert_entry env tx k j dir amount c w ≡ (
        ok (entered tx (new_entry env (env.uuid w.step) k j dir amount c tx.started)),
        tick env (tick env w),
      )
  unfolding insert_entry entered pure
  insert_ok tx k j dir amount c t w exact small positive parent own fresh matched =
      let e = new_entry env (env.uuid w.step) k j dir amount c tx.started in
      let same = laws.stored_exact amount exact in
      bind_ok _ _ _ _ (new_v4_ok env calm w)
      ∙ bind_ok _ _ _ _ (
          map_error-run env calm (tick env w) database _ _ (
            insert_entry_fits tx.xid e t tx.tables (rw same small) parent own (rw same positive)
              fresh matched))

  pub lock_ok :
      (tx : Tx) (id : ℕ) (a : AccountRecord) (w : World)
      → find_account id tx.tables.accounts ≡ some a
      → lock {D = D} env tx id w ≡ (ok (to_row a), tick env w)
  unfolding lock fetch_for_update lift
  lock_ok tx id a w e =
      bind_ok _ _ _ _
        (map_error-run env calm w database _ (some (to_row a)) (rw (select_account, e) refl))
