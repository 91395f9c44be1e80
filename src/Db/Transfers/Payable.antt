-- ===== src/Db/Transfers/Payable.antt =====
-- When the tables let a transfer through.
use ledger_rs.Prelude.{
  ℕ, ◌<◌, ◌≡◌, ◌⊎◌, inl, inr, refl, sym, ap, ◌∙◌, Bool, true, false, not, ◌&&◌, ◌||◌, ◌+◌, fail_if,
  some, List, ok, arith, ltb, ◌==◌, ==_refl, ==_comm, Bool-cases, if◌then◌else◌,
}
use ledger_rs.Prelude.Int.{ℤ, pos, neg, ◌+ℤ◌, ◌≤ℤ◌, ltb_ℤ, magnitude, int_laws, pos_part, neg_part}
use ledger_rs.Prelude.Text.{text_eq_refl}
use ledger_rs.Decimal.{Decimal, DecimalLaws, units, IsExact}
use ledger_rs.Domain.Currency.{as_str}
use ledger_rs.Domain.Money.{is_positive}
use ledger_rs.Domain.Fingerprint.{TransferIntent}
use ledger_rs.Error.{insufficient_funds}
use ledger_rs.Schema.Rows.{Db, AccountRecord, find_account, contains, transaction_ids, entry_ids}
use ledger_rs.Schema.Statements.{numeric_limit, balance_allowed}
use ledger_rs.Db.Session.{Env}
use ledger_rs.Db.Accounts.{AccountRow, to_row}
use ledger_rs.Db.Transfers.{lock_order, locked_row, check_currency, check_accounts}

-- The identifiers that `Uuid::new_v4` draws are new and differ.
pub record DrawsNew (env : Env) (db : Db) : Type 0 where
  pub transaction_new : (n : ℕ) → contains (env.uuid n) (transaction_ids db.transactions) ≡ false
  pub entry_new : (n : ℕ) → contains (env.uuid n) (entry_ids db.entries) ≡ false
  pub differ : (m n : ℕ) → env.uuid m ≡ env.uuid n → m ≡ n

-- Two accounts in the currency of a positive amount, of which the sender has enough or may owe,
-- and which both columns can hold afterwards.
pub record IsPayable {D : Type 0} ⦃dec : Decimal D⦄ (i : TransferIntent D) (db : Db) : Type 0 where
  pub sender : AccountRecord
  pub receiver : AccountRecord
  pub sender_found : find_account i.from_account_id db.accounts ≡ some sender
  pub receiver_found : find_account i.to_account_id db.accounts ≡ some receiver
  pub two_accounts : (i.from_account_id == i.to_account_id) ≡ false
  pub sender_currency : sender.currency ≡ as_str i.amount.currency
  pub receiver_currency : receiver.currency ≡ as_str i.amount.currency
  pub positive : is_positive i.amount ≡ true
  pub funds : (sender.allows_negative_balance ≡ true) ⊎ (units i.amount.amount ≤ℤ sender.balance)
  pub sender_room : magnitude (sender.balance +ℤ neg (units i.amount.amount)) < numeric_limit
  pub receiver_room : magnitude (receiver.balance +ℤ units i.amount.amount) < numeric_limit

lowered_allowed : (b : Bool) (x z : ℤ) → z ≤ℤ x → (b || not (ltb_ℤ (x +ℤ neg z) (pos 0))) ≡ true
lowered_allowed true x z h = refl
lowered_allowed false x z h =
    let parts : (pos_part (x +ℤ neg z) + 0 < 0 + neg_part (x +ℤ neg z)) → ⊥ =
      λ k. omega (int_laws, h, k) in
    grind arith

raised_allowed :
    (b : Bool) (x z : ℤ)
    → ltb_ℤ (pos 0) z ≡ true
    → (b || not (ltb_ℤ x (pos 0))) ≡ true
    → (b || not (ltb_ℤ (x +ℤ z) (pos 0))) ≡ true
unfolding ◌+ℤ◌
raised_allowed true x z p h = refl
raised_allowed false x z p h = ground arith

enough_lem : (x z : ℤ) → z ≤ℤ x → ltb_ℤ x z ≡ false
enough_lem x z h = ground arith

and_false : {E : Type 0} (b : Bool) (e : E) → fail_if (b && false) e ≡ ok tt
and_false true e = refl
and_false false e = refl

-- The row of one of two ids.
abbrev pub row_of : ℕ → AccountRecord → AccountRecord → ℕ → AccountRecord
row_of from a b id = if id == from then a else b

module _ (from to : ℕ) (a b : AccountRecord) (rows : List AccountRecord)
    (differ : (from == to) ≡ false) (from_found : find_account from rows ≡ some a)
    (to_found : find_account to rows ≡ some b) where
  pub first_found :
      find_account (lock_order from to).0 rows ≡ some (row_of from a b (lock_order from to).0)
  first_found = elim (Bool-cases (ltb to from)) [
    | inl swap ↦ rw (swap, ==_comm to from, differ) to_found
    | inr keep ↦ rw (keep, ==_refl from) from_found
  ]

  pub second_found :
      find_account (lock_order from to).1 rows ≡ some (row_of from a b (lock_order from to).1)
  second_found = elim (Bool-cases (ltb to from)) [
    | inl swap ↦ rw (swap, ==_refl from) from_found
    | inr keep ↦ rw (keep, ==_comm to from, differ) to_found
  ]

  module _ {D : Type 0} ⦃dec : Decimal D⦄ where
    abbrev pub row : ℕ → AccountRow D
    row id = to_row (row_of from a b id)

    pub locked_from :
        locked_row
          ((lock_order from to).0, row (lock_order from to).0)
          ((lock_order from to).1, row (lock_order from to).1)
          from
        ≡ some (to_row a)
    unfolding locked_row
    locked_from = elim (Bool-cases (ltb to from)) [
      | inl swap ↦ rw (swap, ==_refl from) refl
      | inr keep ↦ rw (keep, differ, ==_refl from) refl
    ]

    pub locked_to :
        locked_row
          ((lock_order from to).0, row (lock_order from to).0)
          ((lock_order from to).1, row (lock_order from to).1)
          to
        ≡ some (to_row b)
    unfolding locked_row
    locked_to = elim (Bool-cases (ltb to from)) [
      | inl swap ↦ rw (swap, ==_comm to from, differ, ==_refl to) refl
      | inr keep ↦ rw (keep, ==_refl to, ==_comm to from, differ) refl
    ]

module _ {D : Type 0} ⦃dec : Decimal D⦄ (laws : DecimalLaws D) (i : TransferIntent D)
    (exact : IsExact i.amount.amount) (db : Db) (p : IsPayable i db) where
  abbrev z : ℤ
  z = units i.amount.amount

  pub amount_positive : ltb_ℤ (pos 0) z ≡ true
  unfolding is_positive
  amount_positive =
      let zero_exact : IsExact dec.zero = rw (laws.scale-zero) (omega arith) in
      ap (λ y. ltb_ℤ y z) (sym (laws.units-zero))
      ∙ sym (laws.lt-units dec.zero i.amount.amount zero_exact exact)
      ∙ p.positive

  pub sender_allowed :
      balance_allowed (record (p.sender) { balance = p.sender.balance +ℤ neg z }) ≡ true
  sender_allowed = elim (p.funds) [
    | inl owes ↦ rw owes refl
    | inr enough ↦ lowered_allowed _ p.sender.balance z enough
  ]

  pub receiver_allowed :
      balance_allowed (p.receiver) ≡ true
      → balance_allowed (record (p.receiver) { balance = p.receiver.balance +ℤ z }) ≡ true
  receiver_allowed h = raised_allowed _ p.receiver.balance z amount_positive h

  pub accounts_pass :
      check_accounts {D = D}
        (to_row (p.sender))
        (to_row (p.receiver))
        i.amount.amount
        i.amount.currency
      ≡ ok tt
  unfolding check_accounts check_currency
  accounts_pass =
      rw
        (
          p.sender_currency,
          p.receiver_currency,
          text_eq_refl (as_str i.amount.currency),
          laws.lt-units (dec.fetched p.sender.balance) i.amount.amount
              (laws.scale-fetched p.sender.balance) exact,
          laws.units-fetched p.sender.balance,
        )
        funds_pass
    where
      funds_pass :
          fail_if
            (not p.sender.allows_negative_balance && ltb_ℤ p.sender.balance z)
            (insufficient_funds p.sender.id)
          ≡ ok tt
      funds_pass = elim (p.funds) [
        | inl owes ↦ rw owes refl
        | inr enough ↦
            rw (enough_lem p.sender.balance z enough)
              (and_false (not p.sender.allows_negative_balance) _)
      ]
