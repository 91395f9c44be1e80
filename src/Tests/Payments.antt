-- ===== src/Tests/Payments.antt =====
-- Transfers on the tables of `Tests.Sample` that go through, are sent again, wait for each other or
-- are refused.
use ledger_rs.Prelude.{[], ◌∷◌, ◌≡◌, ◌⊎◌, refl, inl, inr, true, none, ok, err, arith}
use ledger_rs.Prelude.Int.{neg, times, ◌+ℤ◌}
use ledger_rs.Decimal.{units}
use ledger_rs.Decimal.Fixed.{Fixed, fixed}
use ledger_rs.Decimal.Fixed.Laws.{fixed_laws}
use ledger_rs.Domain.Money.{is_positive}
use ledger_rs.Domain.Money.Validation.{IsValid}
use ledger_rs.Domain.Fingerprint.{created, replayed, TransferIntent, request_hash}
use ledger_rs.Schema.Rows.{find_key, find_account}
use ledger_rs.Db.Session.{World}
use ledger_rs.Db.Locks.{Holder, lock_plan, Reachable, nobody, then_step, begins, CanGoOn}
use ledger_rs.Db.Locks.Deadlock.{no_deadlock}
use ledger_rs.Db.Session.Calm.{IsCalm}
use ledger_rs.Db.Transfers.{execute, TransferResult}
use ledger_rs.Db.Transfers.Effect.{IsTransferred, Same}
use ledger_rs.Db.Transfers.Payable.{DrawsNew, IsPayable}
use ledger_rs.Error.{insufficient_funds, account_not_found}
use ledger_rs.Db.Transfers.Unknown.{IsFirstMissing, execute_unknown_account}
use ledger_rs.Db.Transfers.Overdraft.{IsOverdrawn, execute_overdrawn}
use ledger_rs.Db.Transfers.Success.{execute_succeeds, execute_again}
use ledger_rs.Db.Transfers.Book.{book, pay, execute-book}
use ledger_rs.Tests.Sample.{checksum, calm, bank, ann, opened, start, deposit, key}
use ledger_rs.Tests.Requests.{opened-Inv}

calm-IsCalm : IsCalm calm
calm-IsCalm = record { alone = λ n db. refl; faultless = λ n. refl }

calm-DrawsNew : DrawsNew calm opened
calm-DrawsNew = record {
  transaction_new = λ n. refl;
  entry_new = λ n. refl;
  differ = λ m n h. omega (arith, h);
}

deposit-IsValid : IsValid deposit.amount
unfolding units times
deposit-IsValid = record { exact = omega arith; bounded = omega arith }

deposit-IsPayable : IsPayable deposit opened
unfolding find_account is_positive times ◌+ℤ◌ neg units
deposit-IsPayable = record {
  sender = bank;
  receiver = ann;
  sender_found = refl;
  receiver_found = refl;
  two_accounts = refl;
  sender_currency = refl;
  receiver_currency = refl;
  positive = refl;
  funds = inl refl;
  sender_room = omega arith;
  receiver_room = omega arith;
}

unused_key : find_key key opened.transactions ≡ none
unfolding find_key
unused_key = refl

execute_succeeds_example :
    (x : TransferResult Fixed) × ((execute calm checksum key deposit start).0 ≡ ok x)
    × (x.outcome ≡ created)
    × IsTransferred key
        (request_hash checksum deposit)
        deposit
        opened
        (execute calm checksum key deposit start).1.db
execute_succeeds_example =
    execute_succeeds fixed_laws calm calm-IsCalm key deposit deposit-IsValid start opened-Inv
      deposit-IsPayable calm-DrawsNew unused_key checksum (λ bs. refl)

execute-book_example :
    (book (execute calm checksum key deposit start).1.db ≡ book opened)
    ⊎ (book (execute calm checksum key deposit start).1.db
        ≡ pay key (request_hash checksum deposit) 1 2 (units deposit.amount.amount) (book opened))
execute-book_example =
    execute-book fixed_laws calm (λ n db. refl) checksum key deposit start (omega arith)

execute_again_example :
    (x : TransferResult Fixed) × (u : World) × (v : World) × (execute calm checksum key deposit
        start
      ≡ (ok x, u))
    × (execute calm checksum key deposit u
        ≡ (ok (record { outcome = replayed; detail = x.detail }), v))
    × (v.db ≡ u.db)
execute_again_example =
    execute_again fixed_laws calm calm-IsCalm key deposit deposit-IsValid start opened-Inv
      deposit-IsPayable calm-DrawsNew unused_key checksum (λ bs. refl)

-- The deposit, and the same amount back.
abbrev refund : TransferIntent Fixed
refund = record deposit { from_account_id = 2; to_account_id = 1 }

abbrev waits : TransferIntent Fixed → Holder
waits intent = record { held = []; wanted = lock_plan key intent }

both_wait : Reachable Fixed (waits refund ∷ waits deposit ∷ [])
both_wait =
    then_step _ _ (then_step _ _ nobody (begins key deposit [] refl))
      (begins key refund (waits deposit ∷ []) refl)

no_deadlock_example : CanGoOn (waits refund ∷ waits deposit ∷ [])
no_deadlock_example = no_deadlock (waits refund) (waits deposit ∷ []) both_wait

refund-IsOverdrawn : IsOverdrawn refund opened
unfolding find_account is_positive times units
refund-IsOverdrawn = record {
  sender = ann;
  receiver = bank;
  sender_found = refl;
  receiver_found = refl;
  two_accounts = refl;
  sender_currency = refl;
  receiver_currency = refl;
  positive = refl;
  may_not_owe = refl;
  short_of_funds = refl;
}

execute_overdrawn_example :
    (u : World) × (execute calm checksum key refund start ≡ (err (insufficient_funds 2), u))
    × Same opened u.db
execute_overdrawn_example =
    execute_overdrawn fixed_laws calm calm-IsCalm key refund (omega arith) start refund-IsOverdrawn
      unused_key (λ n. refl) checksum (λ bs. refl)

-- Between two accounts of which neither is there.
abbrev astray : TransferIntent Fixed
astray = record deposit { from_account_id = 8; to_account_id = 7 }

astray-IsFirstMissing : IsFirstMissing astray opened 7
unfolding find_account
astray-IsFirstMissing = record {
  party = inr refl;
  missing = refl;
  least = λ j p e. elim p [ inl from ↦ omega (arith, from) | inr to ↦ omega (arith, to) ];
}

astray-is_positive : is_positive astray.amount ≡ true
unfolding is_positive times
astray-is_positive = refl

execute_unknown_account_example :
    (u : World) × (execute calm checksum key astray start ≡ (err (account_not_found 7), u))
    × Same opened u.db
execute_unknown_account_example =
    execute_unknown_account fixed_laws calm calm-IsCalm checksum (λ bs. refl) key astray start 7
      unused_key (λ n. refl) refl astray-is_positive astray-IsFirstMissing
