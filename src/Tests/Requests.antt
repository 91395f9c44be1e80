-- ===== src/Tests/Requests.antt =====
-- Requests for a transfer, run on the tables of `Tests.Sample`.
use ledger_rs.Prelude.{ℕ, ◌≡◌, ◌≢◌, refl, inl, some, [], ◌∷◌, Result, ok, err, arith, ◌⊎◌}
use ledger_rs.Prelude.Int.{neg, pos, negsuc, times, ◌+ℤ◌}
use ledger_rs.Prelude.Text.{text_eq}
use ledger_rs.Decimal.Fixed.{strip, Fixed, fixed}
use ledger_rs.Decimal.Fixed.Laws.{fixed_laws}
use ledger_rs.Domain.Money.{is_positive, new_within, max_magnitude, new, canonical}
use ledger_rs.Domain.Fingerprint.{preimage, request_hash, replayed, created}
use ledger_rs.Error.{SqlxError, LedgerError, idempotency_key_conflict, database}
use ledger_rs.Db.Transfers.Replay.{Runs, execute-Runs}
use ledger_rs.Db.Transfers.Known.{execute_known_key}
use ledger_rs.Db.Transfers.Refused.{execute_no_payment}
use ledger_rs.Schema.Rows.{find_key, find_account, find_transaction}
use ledger_rs.Schema.Invariant.{Inv}
use ledger_rs.Db.Session.{
  begin, new_v4, now, attempt, run, commit, settle, ◌>>=◌, pure, lift, map_error, read, World,
}
use ledger_rs.Db.Transfers.{
  execute_from, execute_once, is_retried, write_path, claimed, move_money, post, lock,
  adjust_balance, insert_entry, locked_row, check_accounts, check_currency, overdraft_error,
  TransferResult, execute,
}
use ledger_rs.Schema.Statements.{
  insert_transaction, insert_entry_row, update_balance, update_accounts, set_balance,
  assert_entry_in_parent_xact, account_matches,
}
use ledger_rs.Schema.Deferred.{run_deferred, assert_transaction_balanced}
use ledger_rs.Db.Accounts.{fetch_for_update}
use ledger_rs.Db.Transactions.{
  find_by_idempotency_key, select_key, get, to_entries, order_entries, insert_sorted, comes_before,
  to_entry,
}
use ledger_rs.Db.Transfers.Effect.{Same, IsTransferred}
use ledger_rs.Db.Transfers.ExactlyOnce.{execute_exactly_once, Meanwhile}
use ledger_rs.Db.Transfers.Invariant.{execute-Inv}
use ledger_rs.Tests.Sample.{
  checksum, calm, bank, ann, opened, start, deposit, key, paid, recorded, other, circular,
}

-- The deposit is made: the balances after it.
deposited :
    (execute calm checksum key deposit start).1.db.accounts
    ≡ record bank { balance = negsuc 2_499_999_999 }
      ∷ record ann { balance = pos 2_500_000_000 }
      ∷ []
unfolding execute execute_from execute_once is_retried write_path claimed move_money post lock
    adjust_balance insert_entry locked_row check_accounts check_currency find_by_idempotency_key
    select_key find_key request_hash preimage canonical strip is_positive begin new_v4 now attempt
    run insert_transaction insert_entry_row update_balance update_accounts set_balance commit settle
    run_deferred assert_transaction_balanced fetch_for_update find_account find_transaction
    assert_entry_in_parent_xact account_matches overdraft_error text_eq ◌>>=◌ pure lift map_error
    read ◌+ℤ◌ neg times get to_entries order_entries insert_sorted comes_before to_entry new
    new_within max_magnitude
deposited = refl

pub opened-Inv : Inv opened
unfolding ◌+ℤ◌
opened-Inv = record {
  well_formed = record {
    funded = (refl, (refl, tt));
    account_ids = (refl, (refl, tt));
    transaction_ids_differ = tt;
    keys_differ = tt;
    parented = tt;
    positive = tt;
    denominated = tt;
  };
  cached = (refl, (refl, tt));
  balanced = tt;
  zero_sum = refl;
}

execute-Inv_example : Inv (execute calm checksum key deposit start).1.db
execute-Inv_example =
    execute-Inv fixed_laws calm (λ n db h. h) checksum key deposit start (omega arith) opened-Inv

execute_exactly_once_example :
    let (r, w') = execute calm checksum key deposit start in
    (Same opened w'.db ⊎ IsTransferred key (request_hash checksum deposit) deposit opened w'.db)
    × ((x : TransferResult Fixed)
        → r ≡ ok x
        → x.outcome ≡ created
        → IsTransferred key (request_hash checksum deposit) deposit opened w'.db)
execute_exactly_once_example =
    execute_exactly_once fixed_laws calm (λ n db. refl) checksum key deposit start (omega arith)

paid-select_key : select_key key paid ≡ some recorded
unfolding select_key find_key text_eq
paid-select_key = refl

execute_known_key_example :
    let (x, w') = execute calm checksum key other (record { db = paid; step = 0 }) in
    Meanwhile calm paid w'.db
    × ((y : TransferResult Fixed)
        → x ≡ ok y
        → (y.outcome ≡ replayed)
          × (y.detail.transaction.id ≡ recorded.transaction_id)
          × (recorded.request_hash ≡ request_hash checksum other))
    × (recorded.request_hash ≢ request_hash checksum other
        → (x ≡ err (idempotency_key_conflict key))
          ⊎ ((n : ℕ) × (f : SqlxError) × (calm.fault n ≡ some f) × (x ≡ err (database f))))
execute_known_key_example =
    execute_known_key calm checksum key other (λ n db r e. e) recorded
      (record { db = paid; step = 0 }) paid-select_key

execute_no_payment_example :
    let (x, w') = execute calm checksum key circular start in
    Meanwhile calm opened w'.db × ((y : TransferResult Fixed) → x ≡ ok y → y.outcome ≡ replayed)
execute_no_payment_example =
    execute_no_payment fixed_laws calm checksum key circular start (inl refl)

execute-Runs_example :
    Runs calm checksum key deposit 0 start (execute calm checksum key deposit start)
    × ((x : Result LedgerError (TransferResult Fixed) × World)
        → Runs calm checksum key deposit 0 start x
        → x ≡ execute calm checksum key deposit start)
execute-Runs_example = execute-Runs calm checksum key deposit start
