-- ===== src/Db/Transfers/Panics.antt =====
-- A transfer never panics: no lookup in the map of locked rows fails, no amount that it reads is
-- refused by a panic.
use ledger_rs.Prelude.{
  ℕ, refl, subst, List, [], ◌∷◌, ok, err, panicked, Result, or_panic, ltb, ◌==◌, ==_refl, not, ◌&&◌,
  Bool-cases, inl, inr,
}
use ledger_rs.Prelude.Text.{Text}
use ledger_rs.Decimal.{Decimal, DecimalLaws}
use ledger_rs.Domain.Currency.{Currency}
use ledger_rs.Domain.Money
use ledger_rs.Domain.Money.Validation.{Verdict, new-Verdict}
use ledger_rs.Domain.Postings.{Direction, debit, credit}
use ledger_rs.Domain.Fingerprint.{TransferIntent}
use ledger_rs.Error.{SqlxError, LedgerError, insufficient_funds, is_idempotency_key_collision}
use ledger_rs.Schema.Rows.{Db, EntryRecord}
use ledger_rs.Schema.Panics.{
  insert_transaction-Returned, insert_entry_row-Returned, update_balance-Returned,
  run_deferred-Returned,
}
use ledger_rs.Db.Session.{Env, Tx}
use ledger_rs.Db.Session.Panics.{
  Returned, ok-Returned, ok_or-Returned, fail_if-Returned, chain-Returned, map_err-Returned,
  NeverPanics, NeverPanics->>=, NeverPanics-lift, NeverPanics-pure, NeverPanics-raise,
  NeverPanics-map_error, NeverPanics-read, NeverPanics-run, NeverPanics-begin, NeverPanics-rollback,
  NeverPanics-new_v4, NeverPanics-commit, NeverPanics-attempt-run,
}
use ledger_rs.Db.Transactions.{
  IdempotencyRecord, find_by_idempotency_key, get, to_entry, to_entries,
}
use ledger_rs.Db.Accounts.{AccountRow, fetch_for_update}
use ledger_rs.Db.Transfers.{
  replay, lock, lock_order, locked_row, check_currency, check_accounts, post, move_money, lost_race,
  claimed, write_path, adjust_balance, insert_entry,
}

-- `locked[&id]` finds either of the two accounts.
module _ {D : Type 0} ⦃dec : Decimal D⦄ where
  locked_from_there :
      (a b : AccountRow D) (from to : ℕ)
      → Returned {E = LedgerError}
          (or_panic (locked_row ((lock_order from to).0, a) ((lock_order from to).1, b) from))
  unfolding locked_row
  locked_from_there a b from to = elim (Bool-cases (ltb to from)) [
    | inl swap ↦ rw (swap, ==_refl from) (ok-Returned b)
    | inr keep ↦ elim (Bool-cases (from == to)) [
      | inl same ↦ rw (keep, same) (ok-Returned b)
      | inr differ ↦ rw (keep, differ, ==_refl from) (ok-Returned a)
    ]
  ]

  locked_to_there :
      (a b : AccountRow D) (from to : ℕ)
      → Returned {E = LedgerError}
          (or_panic (locked_row ((lock_order from to).0, a) ((lock_order from to).1, b) to))
  unfolding locked_row
  locked_to_there a b from to = elim (Bool-cases (ltb to from)) [
    | inl swap ↦ elim (Bool-cases (to == from)) [
      | inl same ↦ rw (swap, same) (ok-Returned b)
      | inr differ ↦ rw (swap, differ, ==_refl to) (ok-Returned a)
    ]
    | inr keep ↦ rw (keep, ==_refl to) (ok-Returned b)
  ]

module _ {D : Type 0} ⦃dec : Decimal D⦄ (laws : DecimalLaws D) where
  pub new-Returned : (d : D) (c : Currency) → Returned (Money.new d c)
  new-Returned d c h = subst (Verdict d c) h (new-Verdict laws d c)

  to_entry-Returned : (e : EntryRecord) → Returned (to_entry {D = D} e)
  unfolding to_entry
  to_entry-Returned e =
      chain-Returned _ _ (map_err-Returned _ _ (new-Returned _ _)) λ _. ok-Returned _

  to_entries-Returned : (es : List EntryRecord) → Returned (to_entries {D = D} es)
  unfolding to_entries
  to_entries-Returned [] = ok-Returned _
  to_entries-Returned (e ∷ es) =
      chain-Returned _ _ (to_entry-Returned e)
        λ _. chain-Returned _ _ (to_entries-Returned es) λ _. ok-Returned _

  module _ (env : Env) where
    pub NeverPanics-get : (id : ℕ) → NeverPanics (get {D = D} env id)
    unfolding get
    NeverPanics-get id =
        NeverPanics->>= _ _ (NeverPanics-map_error _ _ (NeverPanics-read env _)) λ found.
          NeverPanics->>= _ _ (NeverPanics-lift _ (ok_or-Returned _ _)) λ transaction.
            NeverPanics->>= _ _ (NeverPanics-map_error _ _ (NeverPanics-read env _)) λ rows.
              NeverPanics->>= _ _ (NeverPanics-lift _ (to_entries-Returned rows))
                λ entries. NeverPanics-pure _

    pub NeverPanics-replay :
        (key : Text) (r : IdempotencyRecord) (hash : List ℕ)
        → NeverPanics (replay {D = D} env key r hash)
    unfolding replay
    NeverPanics-replay key r hash =
        NeverPanics->>= _ _ (NeverPanics-lift _ (fail_if-Returned _ _))
          λ _. NeverPanics->>= _ _ (NeverPanics-get r.transaction_id) λ detail. NeverPanics-pure _

    pub NeverPanics-find : (key : Text) → NeverPanics (find_by_idempotency_key env key)
    unfolding find_by_idempotency_key
    NeverPanics-find key = NeverPanics-map_error _ _ (NeverPanics-read env _)

    NeverPanics-lost_race :
        (key : Text) (hash : List ℕ) → NeverPanics (lost_race {D = D} env key hash)
    unfolding lost_race
    NeverPanics-lost_race key hash =
        NeverPanics->>= _ _ (NeverPanics-map_error _ _ (NeverPanics-rollback env)) λ _.
          NeverPanics->>= _ _ (NeverPanics-find key) λ found.
            NeverPanics->>= _ _ (NeverPanics-lift _ (ok_or-Returned _ _))
              λ r. NeverPanics-replay key r hash

    NeverPanics-adjust : (tx : Tx) (k : ℕ) (delta : D) → NeverPanics (adjust_balance env tx k delta)
    unfolding adjust_balance
    NeverPanics-adjust tx k delta =
        NeverPanics->>= _ _
          (NeverPanics-map_error _ _
            (NeverPanics-run env _ (update_balance-Returned k delta tx.tables)))
          λ tables. NeverPanics-pure _

    NeverPanics-insert_entry :
        (tx : Tx) (k j : ℕ) (dir : Direction) (amount : D) (c : Currency)
        → NeverPanics (insert_entry env tx k j dir amount c)
    unfolding insert_entry
    NeverPanics-insert_entry tx k j dir amount c =
        NeverPanics->>= _ _ (NeverPanics-new_v4 env) λ id.
          NeverPanics->>= _ _
            (NeverPanics-map_error _ _
              (NeverPanics-run env _ (insert_entry_row-Returned tx.xid _ tx.tables)))
            λ tables. NeverPanics-pure _

    NeverPanics-post :
        (tx : Tx) (k from to : ℕ) (amount : D) (c : Currency)
        → NeverPanics (post env tx k from to amount c)
    unfolding post
    NeverPanics-post tx k from to amount c =
        NeverPanics->>= _ _ (NeverPanics-adjust tx from _) λ tx1.
          NeverPanics->>= _ _ (NeverPanics-adjust tx1 to amount) λ tx2.
            NeverPanics->>= _ _ (NeverPanics-insert_entry tx2 k from credit amount c)
              λ tx3. NeverPanics-insert_entry tx3 k to debit amount c

    NeverPanics-lock : (tx : Tx) (id : ℕ) → NeverPanics (lock {D = D} env tx id)
    unfolding lock fetch_for_update
    NeverPanics-lock tx id =
        NeverPanics->>= _ _ (NeverPanics-map_error _ _ (NeverPanics-run env _ (ok-Returned _)))
          λ found. NeverPanics-lift _ (ok_or-Returned _ _)

    currency-Returned : (a : AccountRow D) (c : Currency) → Returned (check_currency a c)
    unfolding check_currency
    currency-Returned a c = fail_if-Returned _ _

    checks-Returned :
        (from to : AccountRow D) (amount : D) (c : Currency)
        → Returned (check_accounts from to amount c)
    unfolding check_accounts
    checks-Returned from to amount c = chain-Returned _ _ (currency-Returned from c) λ _.
        chain-Returned _ _ (currency-Returned to c) λ _.
          fail_if-Returned (not from.allows_negative_balance && dec.lt from.balance amount)
            (insufficient_funds from.id)

    NeverPanics-move_money :
        (tx : Tx) (k : ℕ) (intent : TransferIntent D) → NeverPanics (move_money env tx k intent)
    unfolding move_money
    NeverPanics-move_money tx k intent = NeverPanics->>= _ _ (NeverPanics-lock tx _) λ a.
        NeverPanics->>= _ _ (NeverPanics-lock tx _) λ b.
          NeverPanics->>= _ _
            (NeverPanics-lift _ (locked_from_there a b intent.from_account_id intent.to_account_id))
            λ from.
              NeverPanics->>= _ _
                (NeverPanics-lift _
                  (locked_to_there a b intent.from_account_id intent.to_account_id))
                λ to. NeverPanics->>= _ _ (NeverPanics-lift _ (checks-Returned from to _ _)) λ _.
                  NeverPanics->>= _ _ (NeverPanics-post tx k from.id to.id _ _) λ tx'.
                    NeverPanics->>= _ _
                      (NeverPanics-map_error _ _
                        (NeverPanics-commit env tx' (run_deferred-Returned tx'.pending tx'.tables)))
                      λ _. NeverPanics->>= _ _ (NeverPanics-get k) λ detail. NeverPanics-pure _

    NeverPanics-claimed :
        (tx : Tx) (k : ℕ) (key : Text) (intent : TransferIntent D) (hash : List ℕ)
        (x : Result SqlxError Db)
        → Returned x
        → NeverPanics (claimed env tx k key intent hash x)
    unfolding claimed
    NeverPanics-claimed tx k key intent hash (ok tables) p =
        NeverPanics-move_money (record tx { tables = tables }) k intent
    NeverPanics-claimed tx k key intent hash (err e) p =
        elim (Bool-cases (is_idempotency_key_collision e)) [
          | inl lost ↦ rw lost (NeverPanics-lost_race key hash)
          | inr other ↦ rw other (NeverPanics-raise _)
        ]
    NeverPanics-claimed tx k key intent hash panicked p = absurd (p refl)

    pub NeverPanics-write_path :
        (key : Text) (intent : TransferIntent D) (hash : List ℕ)
        → NeverPanics (write_path env key intent hash)
    unfolding write_path
    NeverPanics-write_path key intent hash =
        NeverPanics->>= _ _ (NeverPanics-lift _ (fail_if-Returned _ _)) λ _.
          NeverPanics->>= _ _ (NeverPanics-lift _ (fail_if-Returned _ _)) λ _.
            NeverPanics->>= _ _ (NeverPanics-map_error _ _ (NeverPanics-begin env)) λ tx.
              NeverPanics->>= _ _ (NeverPanics-new_v4 env) λ id.
                NeverPanics-attempt-run env _ _ (insert_transaction-Returned _ tx.tables)
                  λ claim p. NeverPanics-claimed tx id key intent hash claim p
