-- ===== src/Db/Transactions/Balanced.antt =====
-- A transaction that `GET /transactions/{id}` shows passes the check `is_balanced` of the domain.
use ledger_rs.Prelude.{
  ℕ, suc, ◌≤◌, ◌≡◌, refl, sym, ap, subst, ◌∙◌, inl, inr, true, some, List, [], ◌∷◌, length, map,
  All, ok, Bool-cases, ==→eq, ◌==◌,
}
use ledger_rs.Prelude.Text.{Text}
use ledger_rs.Prelude.Int.{sum}
use ledger_rs.Decimal.{Decimal, DecimalLaws, units}
use ledger_rs.Domain.Postings.{Direction, debit, credit, Entry, TransactionDetail, is_balanced}
use ledger_rs.Domain.Postings.Balance.{
  max_entries, posting_units, signed_units, IsDoubleEntry, IsSingleCurrency, is_balanced_decides,
}
use ledger_rs.Schema.Rows.{
  EntryRecord, TransactionRecord, find_transaction, of_transaction, net, signed_by,
}
use ledger_rs.Schema.Invariant.{Inv, IsBalanced}
use ledger_rs.Schema.Conservation.{single_currency}
use ledger_rs.Db.Session.{Env, World}
use ledger_rs.Db.Session.Calm.{IsCalm}
use ledger_rs.Db.Transactions.{get}
use ledger_rs.Db.Transactions.Reading.{All-order_entries}
use ledger_rs.Db.Transactions.Shown.{row_of, get-Read}
use ledger_rs.Db.Transactions.Order.{order_entries-length, order_entries-net}

module _ {D : Type 0} ⦃dec : Decimal D⦄ where
  signed_same : (dir : Direction) (a : D) → signed_units dir a ≡ signed_by dir (units a)
  unfolding signed_units
  signed_same debit a = refl
  signed_same credit a = refl

  postings-net : (xs : List (Entry D)) → sum (map posting_units xs) ≡ net (map row_of xs)
  postings-net [] = refl
  postings-net (x ∷ xs) = rw (postings-net xs, signed_same x.direction x.amount.amount) refl

  rows-length : (xs : List (Entry D)) → length (map row_of xs) ≡ length xs
  rows-length [] = refl
  rows-length (x ∷ xs) = ap suc (rows-length xs)

  rows-currency :
      (c : Text) (xs : List (Entry D))
      → All (λ e. e.currency ≡ c) (map row_of xs)
      → All (λ x. x.amount.currency ≡ record { code = c }) xs
  rows-currency c [] h = tt
  rows-currency c (x ∷ xs) (p, h) = (ap (λ k. record { code = k }) p, rows-currency c xs h)

-- What holds of the rows of a recorded transaction.
rows_balance :
    (id : ℕ) (es : List EntryRecord) (t : TransactionRecord) (ts : List TransactionRecord)
    → find_transaction id ts ≡ some t
    → All (λ t. IsBalanced (of_transaction t.id es)) ts
    → IsBalanced (of_transaction id es)
unfolding find_transaction
rows_balance id es t [] h b = cc
rows_balance id es t (x ∷ ts) h (b, bs) = elim (Bool-cases (x.id == id)) [
  | inl hit ↦ subst (λ k. IsBalanced (of_transaction k es)) (==→eq x.id id hit) b
  | inr miss ↦ rows_balance id es t ts (rw miss at h) bs
]

module _ {D : Type 0} ⦃dec : Decimal D⦄ (laws : DecimalLaws D) (env : Env) (calm : IsCalm env)
    (id : ℕ) (d : TransactionDetail D) (w : World) where
  -- Where no statement fails and no other session commits, on tables with the invariants of the
  -- ledger, a transaction that `get` returns passes `is_balanced`, if it has at most a million
  -- entries: what a client is shown is balanced in the arithmetic of the decimals too.
  pub get_balanced :
      Inv w.db
      → length d.entries ≤ max_entries
      → (get env id w).0 ≡ ok d
      → is_balanced d ≡ some true
  unfolding IsSingleCurrency
  get_balanced v few h =
      let (t, there, headed, (rows, valids)) = get-Read laws env calm id d w h in
      let own = rows_balance id w.db.entries t w.db.transactions there v.balanced in
      let (c, same) = single_currency (of_transaction id w.db.entries) own in
      let (b, answer, decides) = is_balanced_decides laws d valids few in
      let double : IsDoubleEntry d = record {
        two_or_more =
            rw
              (
                sym (rows-length d.entries),
                rows,
                order_entries-length (of_transaction id w.db.entries),
              )
              own.two_entries;
        single_currency =
            (record { code = c }, rows-currency c d.entries (rw rows (All-order_entries _ _ same)));
        nets_to_zero =
            postings-net d.entries
            ∙ ap net rows
            ∙ order_entries-net (of_transaction id w.db.entries)
            ∙ own.nets_to_zero;
      } in
      answer ∙ ap some (decides.1 double)
