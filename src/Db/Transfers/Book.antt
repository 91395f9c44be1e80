-- ===== src/Db/Transfers/Book.antt =====
-- The ledger as its users see it, a book of balances and answered requests; the code refines it.
use mathlib.Core.Path.{fun_ext}
use ledger_rs.Prelude.{
  ℕ, arith, ◌≡◌, ◌⊎◌, inl, inr, refl, ap, ◌∙◌, Option, none, some, List, [], ◌∷◌, map, ◌==◌,
  if◌then◌else◌,
}
use ledger_rs.Prelude.Int.{ℤ, neg, ◌+ℤ◌}
use ledger_rs.Prelude.Text.{Text, text_eq}
use ledger_rs.Decimal.{Decimal, DecimalLaws, units, IsExact}
use ledger_rs.Domain.Fingerprint.{TransferIntent, Digest, request_hash}
use ledger_rs.Schema.Rows.{Db, AccountRecord, TransactionRecord, find_account, find_key}
use ledger_rs.Schema.Effects.{raise_balance}
use ledger_rs.Db.Session.{Env, World}
use ledger_rs.Db.Transfers.{execute}
use ledger_rs.Db.Transfers.Effect.{Same, Moved}
use ledger_rs.Db.Transfers.ExactlyOnce.{execute_exactly_once}

-- What each account holds, if it is there, and which request each key stands for. The entries, the
-- identifiers of transactions, the times and the order of rows are forgotten.
pub record Book : Type 0 where
  pub balance : ℕ → Option ℤ
  pub request : Text → Option (List ℕ)

abbrev pub add_to : ℤ → Option ℤ → Option ℤ
add_to z none = none
add_to z (some b) = some (b +ℤ z)

-- One entry of the book more.
pub deposit : ℕ → ℤ → (ℕ → Option ℤ) → ℕ → Option ℤ
deposit account z balance id = if account == id then add_to z (balance id) else balance id

-- Paying moves the amount and notes the request.
pub pay : Text → List ℕ → ℕ → ℕ → ℤ → Book → Book
unfolding deposit
pay key hash from to z b = record {
  balance = deposit to z (deposit from (neg z) b.balance);
  request = λ k. if text_eq key k then some hash else b.request k;
}

abbrev balance_in : List AccountRecord → ℕ → Option ℤ
balance_in rows id = elim (find_account id rows) [ none ↦ none | some a ↦ some a.balance ]

abbrev request_in : List TransactionRecord → Text → Option (List ℕ)
request_in ts key = elim (find_key key ts) [ none ↦ none | some t ↦ some t.request_hash ]

-- The book that the tables keep.
pub book : Db → Book
book db = record { balance = balance_in db.accounts; request = request_in db.transactions }

balance_in-raise :
    (account : ℕ) (z : ℤ) (rows : List AccountRecord) (id : ℕ)
    → balance_in (map (raise_balance account z) rows) id ≡ deposit account z (balance_in rows) id
unfolding find_account deposit
balance_in-raise account z [] id = ground arith
balance_in-raise account z (a ∷ rows) id = ground (arith, balance_in-raise account z rows id)

request_in-cons :
    (t : TransactionRecord) (ts : List TransactionRecord) (key : Text)
    → request_in (t ∷ ts) key
      ≡ (if text_eq t.idempotency_key key then some t.request_hash else request_in ts key)
unfolding find_key
request_in-cons t ts key = ground arith

-- A transfer of rows is a payment in the book.
Moved-book :
    (key : Text) (hash : List ℕ) (description : Text) (from to : ℕ) (z : ℤ) (currency : Text)
    (a b : Db)
    → Moved key hash description from to z currency a b
    → book b ≡ pay key hash from to z (book a)
unfolding book pay
Moved-book key hash description from to z currency a b m =
    ap (λ (f : (ℕ → Option ℤ) × (Text → Option (List ℕ))). record { balance = f.0; request = f.1 })
      (pair balances requests)
  where
    pair : {A B : Type 0} {x x' : A} {y y' : B} → x ≡ x' → y ≡ y' → ◌≡◌ {A = A × B} (x, y) (x', y')
    pair p q = cc

    balances : balance_in b.accounts ≡ deposit to z (deposit from (neg z) (balance_in a.accounts))
    balances = fun_ext λ id.
        ap (λ rows. balance_in rows id) m.balances
        ∙ balance_in-raise to z _ id
        ∙ ap (λ f. deposit to z f id) (fun_ext (balance_in-raise from (neg z) a.accounts))

    requests :
        request_in b.transactions
        ≡ (λ k. if text_eq key k then some hash else request_in a.transactions k)
    requests = fun_ext λ k.
        ap (λ ts. request_in ts k) m.recorded
        ∙ request_in-cons m.transaction a.transactions k
        ∙ rw (m.under_key, m.with_hash) refl

Same-book : (a b : Db) → Same a b → book b ≡ book a
unfolding book
Same-book a b s = rw (s.accounts_same, s.transactions_same) refl

-- While no other session commits, `execute` refines the book: whatever fails, a call with an amount
-- of at most eight places leaves the book as it was or makes the payment that is asked for.
pub execute-book :
    {D : Type 0} ⦃dec : Decimal D⦄ (laws : DecimalLaws D) (env : Env)
    (alone : (n : ℕ) (db : Db) → env.others n db ≡ db) (dg : Digest) (key : Text)
    (intent : TransferIntent D) (w : World)
    → IsExact intent.amount.amount
    → (book (execute env dg key intent w).1.db ≡ book w.db)
      ⊎ (book (execute env dg key intent w).1.db
          ≡ pay key
              (request_hash dg intent)
              intent.from_account_id
              intent.to_account_id
              (units intent.amount.amount)
              (book w.db))
execute-book laws env alone dg key intent w exact =
    elim ((execute_exactly_once laws env alone dg key intent w exact).0) [
      | inl same ↦ inl (Same-book _ _ same)
      | inr moved ↦ inr (Moved-book _ _ _ _ _ _ _ _ _ moved)
    ]
