-- ===== src/Tests/Serving.antt =====
-- Requests to the router, and runs of the sweep, on the tables of `Tests.Sample`.
use ledger_rs.Prelude.{
  inl, inr, Bool-cases, ◌==◌, ℕ, ◌≡◌, ◌↔◌, refl, true, false, none, some, List, [], ◌∷◌, All, ok,
  err, arith, if◌then◌else◌,
}
use ledger_rs.Prelude.Int.{pos, neg, times, ◌+ℤ◌, magnitude}
use ledger_rs.Prelude.Text.{Text, codes, text_eq}
use ledger_rs.Decimal.Fixed.{Fixed, fixed, strip}
use ledger_rs.Decimal.Fixed.Laws.{fixed_laws}
use ledger_rs.Domain.Postings.{TransactionDetail, Entry, Direction, debit, credit}
use ledger_rs.Error.{LedgerError, code}
use ledger_rs.Schema.Invariant.{Inv}
use ledger_rs.Schema.Sweep.{Printer, InvariantCheck}
use ledger_rs.Schema.Reconciliation.{IsSound, FitsColumns}
use ledger_rs.Db.Sweep.{check_invariants, check_invariants_decides, check_invariants_passes}
use ledger_rs.Http.Router.{
  Framework, Request, AppState, Method, get_method, post_method, other_body, serve, Reply,
}
use ledger_rs.Domain.Money.{is_positive, new_within, max_magnitude, new, canonical}
use ledger_rs.Domain.Fingerprint.{preimage, request_hash}
use ledger_rs.Schema.Rows.{find_key, find_account, find_transaction}
use ledger_rs.Db.Session.{
  begin, new_v4, now, attempt, run, commit, settle, ◌>>=◌, pure, lift, map_error, read,
}
use ledger_rs.Db.Transfers.{
  execute_from, execute_once, is_retried, write_path, claimed, move_money, post, lock,
  adjust_balance, insert_entry, locked_row, check_accounts, check_currency, overdraft_error,
  execute,
}
use ledger_rs.Schema.Statements.{
  insert_transaction, insert_entry_row, update_balance, update_accounts, set_balance,
  assert_entry_in_parent_xact, account_matches,
}
use ledger_rs.Schema.Deferred.{run_deferred, assert_transaction_balanced}
use ledger_rs.Db.Accounts.{fetch_for_update}
use ledger_rs.Db.Transactions.{
  find_by_idempotency_key, select_key, get, to_entries, order_entries, insert_sorted, comes_before,
  to_entry,
}
use ledger_rs.Domain.Bytes.{as_bytes, encode}
use ledger_rs.Http.Router.{dispatch, handle, reply}
use ledger_rs.Http.Handlers.{create_transfer, outcome_status}
use ledger_rs.Http.Headers.{extract_idempotency_key, trim_start, trim_end, is_whitespace}
use ledger_rs.Prelude.Text.{text_eq}
use ledger_rs.Http.Serving.{serve-Inv}
use ledger_rs.Db.Transfers.Neighbours.{IsPaidOnce}
use ledger_rs.Db.Transfers.ExactlyOnce.{Meanwhile, KeepsKeys}
use ledger_rs.Http.Receipts.{
  IsPaidBy, serve_paid_beside_others, IsPaid, Receipt, FrameworkLaws, serve-IsPaid,
}
use ledger_rs.Tests.Sample.{busy, checksum, calm, opened, start, key, usd, cents}
use ledger_rs.Tests.Requests.{opened-Inv}

abbrev pub print : Printer
print = record { numeric = λ z. magnitude z ∷ []; bigint = λ n. n ∷ [] }

opened-FitsColumns : FitsColumns opened
opened-FitsColumns = (omega arith, (omega arith, tt))

check_invariants_decides_example :
    (rows : List InvariantCheck) × ((check_invariants calm print start).0 ≡ ok rows)
    × (All (λ row. row.is_ok ≡ true) rows ↔ IsSound opened)
check_invariants_decides_example =
    check_invariants_decides calm print start
      (record { alone = λ n db. refl; faultless = λ n. refl }) tt opened-FitsColumns

check_invariants_passes_example :
    (rows : List InvariantCheck) × ((check_invariants calm print start).0 ≡ ok rows)
    × All (λ row. row.is_ok ≡ true) rows
check_invariants_passes_example =
    check_invariants_passes calm print start (λ n. refl) (λ n db h. h)
      (opened-Inv, opened-FitsColumns)

abbrev plain_reply : ℕ → Reply Fixed
plain_reply n = record { reply_status = n; body = other_body }

abbrev named : Method → Text
named get_method = codes "GET"
named post_method = codes "POST"

-- Whole paths only, and no path with an identifier.
abbrev pub framework : Framework Fixed
framework = record {
  matches = λ pattern path. if text_eq pattern path then some [] else none;
  accepts = λ method name. text_eq (named method) name;
  uuid = λ segment. none;
  bad_path = plain_reply 400;
  not_found = plain_reply 404;
  method_not_allowed = plain_reply 405;
}

abbrev pub posted : Request Fixed
posted = record {
  request_method = codes "POST";
  path = codes "/transfers";
  key_header = some (some key);
  transfer_payload = ok (record {
    from_account_id = 1;
    to_account_id = 2;
    amount = cents 2_500;
    currency = usd;
    description = codes "rent";
  });
  account_payload = err (codes "no JSON");
}

abbrev pub guarded : AppState
guarded = record { allow_funding_account_creation = false }

abbrev pub display : LedgerError → Text
display e = code e

serve-Inv_example : Inv (serve framework display checksum calm guarded posted start).1.db
serve-Inv_example =
    serve-Inv fixed_laws framework display checksum calm guarded (λ n db h. h) posted start
      opened-Inv

abbrev half : ℕ → ℕ → Direction → Entry Fixed
half id account direction = record {
  id = id;
  transaction_id = 102;
  account_id = account;
  direction = direction;
  amount = record { amount = record { mantissa = pos 2_500_000_000; scale = 8 }; currency = usd };
  created_at = 1_001;
}

abbrev shown : TransactionDetail Fixed
shown = record {
  transaction = record {
    id = 102;
    idempotency_key = key;
    description = codes "rent";
    created_at = 1_001;
  };
  entries = half 108 1 credit ∷ half 110 2 debit ∷ [];
}

framework-FrameworkLaws : FrameworkLaws framework
framework-FrameworkLaws = record {
  bad_path_plain = refl;
  not_found_plain = refl;
  method_not_allowed_plain = refl;
}

posted-Receipt : Receipt (serve framework display checksum calm guarded posted start).0 shown
unfolding dispatch handle reply create_transfer extract_idempotency_key trim_start trim_end
    is_whitespace as_bytes encode outcome_status execute execute_from execute_once is_retried
    write_path claimed move_money post lock adjust_balance insert_entry locked_row check_accounts
    check_currency find_by_idempotency_key select_key find_key request_hash preimage canonical strip
    is_positive begin new_v4 now attempt run insert_transaction insert_entry_row update_balance
    update_accounts set_balance commit settle run_deferred assert_transaction_balanced
    fetch_for_update find_account find_transaction assert_entry_in_parent_xact account_matches
    overdraft_error text_eq ◌>>=◌ pure lift map_error read ◌+ℤ◌ neg times get to_entries
    order_entries insert_sorted comes_before to_entry new new_within max_magnitude
posted-Receipt = record { status_is = refl; body_is = refl }

serve-IsPaid_example :
    IsPaid checksum posted opened (serve framework display checksum calm guarded posted start).1.db
serve-IsPaid_example =
    serve-IsPaid fixed_laws framework framework-FrameworkLaws display checksum calm (λ n db. refl)
      guarded posted shown start posted-Receipt

pub busy-KeepsKeys : KeepsKeys busy
unfolding select_key
busy-KeepsKeys n k db there = elim (Bool-cases (n == 0)) [
  | inl first ↦ rw first there
  | inr later ↦ rw later there
]

posted_busy-Receipt : Receipt (serve framework display checksum busy guarded posted start).0 shown
unfolding dispatch handle reply create_transfer extract_idempotency_key trim_start trim_end
    is_whitespace as_bytes encode outcome_status execute execute_from execute_once is_retried
    write_path claimed move_money post lock adjust_balance insert_entry locked_row check_accounts
    check_currency find_by_idempotency_key select_key find_key request_hash preimage canonical strip
    is_positive begin new_v4 now attempt run insert_transaction insert_entry_row update_balance
    update_accounts set_balance commit settle run_deferred assert_transaction_balanced
    fetch_for_update find_account find_transaction assert_entry_in_parent_xact account_matches
    overdraft_error text_eq ◌>>=◌ pure lift map_error read ◌+ℤ◌ neg times get to_entries
    order_entries insert_sorted comes_before to_entry new new_within max_magnitude
posted_busy-Receipt = record { status_is = refl; body_is = refl }

serve_paid_beside_others_example :
    IsPaidBy
      (IsPaidOnce (Meanwhile busy))
      checksum
      posted
      opened
      (serve framework display checksum busy guarded posted start).1.db
serve_paid_beside_others_example =
    serve_paid_beside_others fixed_laws framework framework-FrameworkLaws display checksum busy
      busy-KeepsKeys guarded posted shown start posted_busy-Receipt
