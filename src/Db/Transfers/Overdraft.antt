-- ===== src/Db/Transfers/Overdraft.antt =====
-- A transfer that the sender cannot pay.
use ledger_rs.Prelude.{
  ℕ, ◌≡◌, refl, ap, ◌∙◌, true, false, none, some, List, length, err, ◌==◌, or_panic,
}
use ledger_rs.Prelude.Int.{ltb_ℤ}
use ledger_rs.Prelude.Text.{Text, text_eq_refl}
use ledger_rs.Decimal.{Decimal, DecimalLaws, IsExact, units}
use ledger_rs.Domain.Currency.{as_str}
use ledger_rs.Domain.Money.{is_positive}
use ledger_rs.Domain.Fingerprint.{TransferIntent, Digest}
use ledger_rs.Error.{LedgerError, insufficient_funds}
use ledger_rs.Schema.Rows.{Db, AccountRecord, find_account, find_key, contains, transaction_ids}
use ledger_rs.Db.Session.{Env, World, Tx}
use ledger_rs.Db.Session.Calm.{IsCalm, lift_ok}
use ledger_rs.Db.Accounts.{to_row}
use ledger_rs.Db.Transfers.{move_money, execute, is_retried, check_accounts, check_currency}
use ledger_rs.Db.Transfers.Effect.{Same, find_account_id}
use ledger_rs.Db.Transfers.Refusal.{Refuses, Refuses-then, Refuses-lift, execute-Refuses}
use ledger_rs.Db.Transfers.Payable.{first_found, second_found, locked_from, locked_to}
use ledger_rs.Db.Transfers.Statements.{lock_ok}

-- Two accounts in the currency of a positive amount, of which the sender has not enough and may not
-- owe.
pub record IsOverdrawn {D : Type 0} ⦃dec : Decimal D⦄ (i : TransferIntent D) (db : Db)
    : Type 0 where
  pub sender : AccountRecord
  pub receiver : AccountRecord
  pub sender_found : find_account i.from_account_id db.accounts ≡ some sender
  pub receiver_found : find_account i.to_account_id db.accounts ≡ some receiver
  pub two_accounts : (i.from_account_id == i.to_account_id) ≡ false
  pub sender_currency : sender.currency ≡ as_str i.amount.currency
  pub receiver_currency : receiver.currency ≡ as_str i.amount.currency
  pub positive : is_positive i.amount ≡ true
  pub may_not_owe : sender.allows_negative_balance ≡ false
  pub short_of_funds : ltb_ℤ sender.balance (units i.amount.amount) ≡ true

module _ {D : Type 0} ⦃dec : Decimal D⦄ (laws : DecimalLaws D) (env : Env) (calm : IsCalm env)
    (key : Text) (intent : TransferIntent D) (exact : IsExact intent.amount.amount) (w : World)
    (p : IsOverdrawn intent w.db) (fresh : find_key key w.db.transactions ≡ none)
    (new : (n : ℕ) → contains (env.uuid n) (transaction_ids w.db.transactions) ≡ false) where
  funds_missing :
      check_accounts {D = D}
        (to_row (p.sender))
        (to_row (p.receiver))
        intent.amount.amount
        intent.amount.currency
      ≡ err (insufficient_funds p.sender.id)
  unfolding check_accounts check_currency
  funds_missing =
      rw
        (
          p.sender_currency,
          p.receiver_currency,
          text_eq_refl (as_str intent.amount.currency),
          laws.lt-units (dec.fetched p.sender.balance) intent.amount.amount
              (laws.scale-fetched p.sender.balance) exact,
          laws.units-fetched p.sender.balance,
          p.may_not_owe,
          p.short_of_funds,
        )
        refl

  move_money-Refuses :
      (tx : Tx) (k : ℕ) (u : World)
      → tx.tables.accounts ≡ w.db.accounts
      → Same w.db u.db
      → Refuses (move_money env tx k intent) u (insufficient_funds p.sender.id) w.db
  unfolding move_money
  move_money-Refuses tx k u same s =
      Refuses-then _ _ _ _
        (lock_ok laws env calm tx _ _ u (
          rw same (
            first_found _ _ (p.sender) (p.receiver) w.db.accounts (p.two_accounts) (p.sender_found)
              (p.receiver_found))))
        (Refuses-then _ _ _ _
          (lock_ok laws env calm tx _ _ _ (
            rw same (
              second_found _ _ (p.sender) (p.receiver) w.db.accounts (p.two_accounts)
                (p.sender_found) (p.receiver_found))))
          (Refuses-then _ _ (to_row (p.sender)) _
            (lift_ok _ _ (
              ap or_panic (
                locked_from _ _ (p.sender) (p.receiver) w.db.accounts (p.two_accounts)
                  (p.sender_found) (p.receiver_found))))
            (Refuses-then _ _ (to_row (p.receiver)) _
              (lift_ok _ _ (
                ap or_panic (
                  locked_to _ _ (p.sender) (p.receiver) w.db.accounts (p.two_accounts)
                    (p.sender_found) (p.receiver_found))))
              (Refuses-lift _ _ funds_missing s))))

  -- Where no statement fails, no other session commits, the identifiers that are drawn are new and
  -- the fingerprint has 32 bytes, a request under a fresh key with a positive amount of at most
  -- eight places between two accounts of its currency, which the sender has not and may not owe, is
  -- refused for insufficient funds of the sender, and no row is changed: the key stays free.
  pub execute_overdrawn :
      (dg : Digest)
      → ((bs : List ℕ) → length (dg.sha256 bs) ≡ 32)
      → (u : World) × (execute env dg key intent w
          ≡ (err (insufficient_funds intent.from_account_id), u))
        × Same w.db u.db
  unfolding is_retried
  execute_overdrawn dg long =
      let (u, runs, kept) =
        execute-Refuses env calm key intent w (p.two_accounts) (p.positive) fresh new
          (insufficient_funds p.sender.id) move_money-Refuses dg long refl in
      let named : insufficient_funds p.sender.id ≡ insufficient_funds intent.from_account_id =
        ap insufficient_funds (find_account_id _ _ _ (p.sender_found)) in
      (u, runs ∙ ap (λ (e : LedgerError). (err e, u)) named, kept)
