-- ===== src/Tests/Histories.antt =====
-- Histories of requests, and what is read back, on the tables of `Tests.Sample`.
use ledger_rs.Prelude.{
  ◌⊎◌, ◌≡◌, ◌≢◌, refl, true, false, some, List, [], ◌∷◌, All, ok, panicked, Result, arith,
}
use ledger_rs.Prelude.Int.{pos, negsuc, neg, times, ◌+ℤ◌}
use ledger_rs.Prelude.Text.{Text, codes, text_eq}
use ledger_rs.Decimal.Fixed.{Fixed, fixed}
use ledger_rs.Decimal.Fixed.Laws.{fixed_laws}
use ledger_rs.Domain.Money.{new, new_within, max_magnitude}
use ledger_rs.Domain.Postings.{Account, is_balanced}
use ledger_rs.Schema.Rows.{find_account, find_transaction}
use ledger_rs.Schema.Statements.{insert_account, account_matches}
use ledger_rs.Schema.Invariant.{Inv}
use ledger_rs.Schema.Sweep.{InvariantCheck}
use ledger_rs.Schema.Conservation.{money_in}
use ledger_rs.Schema.Permanence.{Extends}
use ledger_rs.Schema.Writes.{untouched}
use ledger_rs.Db.Session.{World, ◌>>=◌, pure, lift, map_error, read, write, publish, new_v4, now}
use ledger_rs.Db.Session.Calm.{IsCalm}
use ledger_rs.Db.Sweep.{check_invariants}
use ledger_rs.Db.Transactions.{
  get, to_entries, order_entries, insert_sorted, comes_before, to_entry,
}
use ledger_rs.Db.Transactions.Shown.{IsListing, get-IsListing}
use ledger_rs.Db.Transactions.Balanced.{get_balanced}
use ledger_rs.Db.Accounts.{create, to_account}
use ledger_rs.Http.Headers.{trim_start, trim_end, is_whitespace}
use ledger_rs.Http.Handlers.{
  CreateAccountRequest, create_transfer, create_account, get_account, get_transaction,
}
use ledger_rs.Http.History.{serve_all, serve_all-Extends, serve_all_reconciles, serve_all_conserves}
use ledger_rs.Domain.Fingerprint.{request_hash, created}
use ledger_rs.Db.Transfers.{TransferResult, execute}
use ledger_rs.Db.Transfers.Neighbours.{IsPaidOnce}
use ledger_rs.Db.Transfers.ExactlyOnce.{Meanwhile, execute_beside_others}
use ledger_rs.Http.Panics.{handlers_never_panic}
use ledger_rs.Http.Opened.{IsOpened, create_account_round_trip}
use ledger_rs.Http.Router.{Request}
use ledger_rs.Tests.Sample.{
  busy, checksum, calm, bank, ann, opened, paid, start, key, usd, rent, deposit,
}
use ledger_rs.Tests.Requests.{opened-Inv}
use ledger_rs.Tests.Serving.{busy-KeepsKeys, framework, posted, guarded, display, print}

calm-IsCalm : IsCalm calm
calm-IsCalm = record { alone = λ n db. refl; faultless = λ n. refl }

-- The same transfer twice: it is made, and then replayed.
abbrev twice : List (Request Fixed)
twice = posted ∷ posted ∷ []

serve_all-Extends_example :
    Extends opened (serve_all fixed_laws framework display checksum calm guarded twice start).1.db
serve_all-Extends_example =
    serve_all-Extends fixed_laws framework display checksum calm guarded (λ n db. untouched db)
      twice start

serve_all_reconciles_example :
    (rows : List InvariantCheck) × ((check_invariants calm print
        (serve_all fixed_laws framework display checksum calm guarded twice start).1).0
      ≡ ok rows)
    × All (λ row. row.is_ok ≡ true) rows
serve_all_reconciles_example =
    serve_all_reconciles fixed_laws framework display checksum calm guarded (λ n db. untouched db)
      (λ n db h. h) calm print (λ n. refl) (λ n db. refl) twice start opened-Inv
      (omega arith, (omega arith, tt))

serve_all_conserves_example :
    money_in usd.code
      (serve_all fixed_laws framework display checksum calm guarded twice start).1.db
    ≡ pos 0
serve_all_conserves_example =
    serve_all_conserves fixed_laws framework display checksum calm guarded (λ n db h. h) twice start
      opened-Inv usd.code

abbrev savings : CreateAccountRequest
savings = record { name = codes " savings "; currency = usd; allows_negative_balance = false }

abbrev savings_payload : Result Text CreateAccountRequest
savings_payload = ok savings

savings-read : savings_payload ≢ panicked
savings-read h = cc

posted-read : posted.transfer_payload ≢ panicked
posted-read h = cc

handlers_never_panic_example :
    ((create_transfer calm checksum (some (some key)) posted.transfer_payload start).0 ≢ panicked)
    × ((create_account {D = Fixed} calm false savings_payload start).0 ≢ panicked)
    × ((get_account {D = Fixed} calm 1 start).0 ≢ panicked)
    × ((get_transaction {D = Fixed} calm 1 start).0 ≢ panicked)
handlers_never_panic_example =
    handlers_never_panic fixed_laws calm checksum (some (some key)) posted.transfer_payload false
      savings_payload 1 start posted-read savings-read

-- The tables after the deposit, with its balances.
abbrev settled : World
settled = record {
  db = record paid {
    accounts =
        record bank { balance = negsuc 2_499_999_999 }
        ∷ record ann { balance = pos 2_500_000_000 }
        ∷ [];
  };
  step = 3;
}

settled-Inv : Inv settled.db
unfolding ◌+ℤ◌ neg find_account text_eq account_matches
settled-Inv = record {
  well_formed = record {
    funded = (refl, (refl, tt));
    account_ids = (refl, (refl, tt));
    transaction_ids_differ = (refl, tt);
    keys_differ = (refl, tt);
    parented = (refl, (refl, tt));
    positive = (refl, (refl, tt));
    denominated = (refl, (refl, tt));
  };
  cached = (refl, (refl, tt));
  balanced = (record { two_entries = omega arith; one_currency = refl; nets_to_zero = refl }, tt);
  zero_sum = refl;
}

rent-shown : (get calm 9 settled).0 ≡ ok rent
unfolding get read lift pure map_error ◌>>=◌ find_transaction to_entries to_entry order_entries
    insert_sorted comes_before new new_within max_magnitude neg times
rent-shown = refl

get-IsListing_example : IsListing 9 settled.db rent
get-IsListing_example = get-IsListing fixed_laws calm calm-IsCalm 9 rent settled rent-shown

get_balanced_example : is_balanced rent ≡ some true
get_balanced_example =
    get_balanced fixed_laws calm calm-IsCalm 9 rent settled settled-Inv (omega arith) rent-shown

abbrev savings_account : Account Fixed
savings_account = record {
  id = 100;
  name = codes "savings";
  balance = record { amount = record { mantissa = pos 0; scale = 8 }; currency = usd };
  allows_negative_balance = false;
  created_at = 1_001;
}

savings-created : (create_account calm false savings_payload start).0 ≡ ok (201, savings_account)
unfolding create_account create new_v4 now write publish insert_account to_account read lift pure
    map_error ◌>>=◌ trim_start trim_end is_whitespace new new_within max_magnitude neg times
savings-created = refl

create_account_round_trip_example :
    IsOpened false savings_payload 201 savings_account
    × ((get_account calm 100 (create_account {D = Fixed} calm false savings_payload start).1).0
        ≡ ok savings_account)
create_account_round_trip_example =
    create_account_round_trip fixed_laws calm calm calm-IsCalm false savings_payload 201
      savings_account start savings-created

execute_beside_others_example :
    (Meanwhile busy opened (execute busy checksum key deposit start).1.db
      ⊎ IsPaidOnce
          (Meanwhile busy)
          key
          (request_hash checksum deposit)
          deposit
          opened
          (execute busy checksum key deposit start).1.db)
    × ((x : TransferResult Fixed)
        → (execute busy checksum key deposit start).0 ≡ ok x
        → x.outcome ≡ created
        → IsPaidOnce
            (Meanwhile busy)
            key
            (request_hash checksum deposit)
            deposit
            opened
            (execute busy checksum key deposit start).1.db)
execute_beside_others_example =
    execute_beside_others fixed_laws busy busy-KeepsKeys checksum key deposit start (omega arith)
