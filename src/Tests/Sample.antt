-- ===== src/Tests/Sample.antt =====
-- The accounts, requests and worlds of the tests, with the decimals of `Decimal.Fixed`.
use ledger_rs.Prelude.{◌==◌, if◌then◌else◌, ℕ, ◌+◌, ◌%◌, true, false, none, List, [], ◌∷◌}
use ledger_rs.Prelude.Int.{pos}
use ledger_rs.Prelude.Text.{Text, codes}
use ledger_rs.Decimal.Fixed.{Fixed, fixed}
use ledger_rs.Domain.Currency.{Currency}
use ledger_rs.Domain.Money.{Money}
use ledger_rs.Domain.Postings.{debit, credit, TransactionDetail}
use ledger_rs.Domain.Fingerprint.{TransferIntent, Digest, request_hash}
use ledger_rs.Schema.Rows.{Db, AccountRecord}
use ledger_rs.Db.Session.{Env, World}
use ledger_rs.Db.Transactions.{IdempotencyRecord}

abbrev pub usd : Currency
usd = record { code = codes "USD" }

-- Amounts in cents.
abbrev pub cents : ℕ → Fixed
cents n = record { mantissa = pos n; scale = 2 }

abbrev pub dollars : ℕ → Money Fixed
dollars n = record { amount = cents (n); currency = usd }

abbrev pub add_bytes : List ℕ → ℕ
add_bytes [] = 0
add_bytes (b ∷ bs) = (b + add_bytes bs) % 256

abbrev pub checksum : Digest
checksum = record {
  sha256 = λ bs.
      add_bytes bs
      ∷ 1
      ∷ 2
      ∷ 3
      ∷ 4
      ∷ 5
      ∷ 6
      ∷ 7
      ∷ 8
      ∷ 9
      ∷ 10
      ∷ 11
      ∷ 12
      ∷ 13
      ∷ 14
      ∷ 15
      ∷ 16
      ∷ 17
      ∷ 18
      ∷ 19
      ∷ 20
      ∷ 21
      ∷ 22
      ∷ 23
      ∷ 24
      ∷ 25
      ∷ 26
      ∷ 27
      ∷ 28
      ∷ 29
      ∷ 30
      ∷ 31
      ∷ [];
  uuid_bytes = λ n. n ∷ [];
}

-- No fault, and nobody else.
abbrev pub calm : Env
calm = record {
  uuid = λ n. 100 + n;
  now = λ n. 1_000 + n;
  fault = λ n. none;
  applied = λ n. true;
  others = λ n db. db;
}

abbrev pub bank : AccountRecord
bank = record {
  id = 1;
  name = codes "bank";
  currency = codes "USD";
  balance = pos 0;
  allows_negative_balance = true;
  created_at = 1;
}

abbrev pub ann : AccountRecord
ann = record {
  id = 2;
  name = codes "ann";
  currency = codes "USD";
  balance = pos 0;
  allows_negative_balance = false;
  created_at = 2;
}

abbrev pub opened : Db
opened = record { accounts = bank ∷ ann ∷ []; transactions = []; entries = []; next_xid = 7 }

abbrev pub start : World
start = record { db = opened; step = 0 }

abbrev pub deposit : TransferIntent Fixed
deposit = record {
  from_account_id = 1;
  to_account_id = 2;
  amount = dollars 2_500;
  description = codes "rent";
}

abbrev pub key : Text
key = codes "k-1"

abbrev pub wide : Money Fixed
wide = record { amount = record { mantissa = pos 123_400; scale = 4 }; currency = usd }

abbrev pub rent : TransactionDetail Fixed
rent = record {
  transaction = record {
    id = 9;
    idempotency_key = key;
    description = codes "rent";
    created_at = 5;
  };
  entries =
      record {
        id = 20;
        transaction_id = 9;
        account_id = 1;
        direction = credit;
        amount = record {
          amount = record { mantissa = pos 2_500_000_000; scale = 8 };
          currency = usd;
        };
        created_at = 6;
      }
      ∷ record {
        id = 21;
        transaction_id = 9;
        account_id = 2;
        direction = debit;
        amount = record {
          amount = record { mantissa = pos 2_500_000_000; scale = 8 };
          currency = usd;
        };
        created_at = 7;
      }
      ∷ [];
}

-- The tables when the deposit has been paid.
abbrev pub paid : Db
paid = record {
  accounts = bank ∷ ann ∷ [];
  transactions =
      record {
        id = 9;
        idempotency_key = key;
        request_hash = request_hash checksum deposit;
        description = codes "rent";
        created_xid = 3;
        created_at = 5;
      }
      ∷ [];
  entries =
      record {
        id = 21;
        transaction_id = 9;
        account_id = 2;
        direction = debit;
        amount = pos 2_500_000_000;
        currency = codes "USD";
        created_at = 7;
      }
      ∷ record {
        id = 20;
        transaction_id = 9;
        account_id = 1;
        direction = credit;
        amount = pos 2_500_000_000;
        currency = codes "USD";
        created_at = 6;
      }
      ∷ [];
  next_xid = 8;
}

abbrev pub recorded : IdempotencyRecord
recorded = record { transaction_id = 9; request_hash = request_hash checksum deposit }

-- Another description under the same key.
abbrev pub other : TransferIntent Fixed
other = record deposit { description = codes "food" }

abbrev pub circular : TransferIntent Fixed
circular = record deposit { to_account_id = 1 }

-- Another session opens an account at its first opportunity.
abbrev pub carl : AccountRecord
carl = record {
  id = 3;
  name = codes "carl";
  currency = codes "USD";
  balance = pos 0;
  allows_negative_balance = false;
  created_at = 3;
}

abbrev pub visited : ℕ → Db → Db
visited n db = if n == 0 then record db { accounts = carl ∷ db.accounts } else db

abbrev pub busy : Env
busy = record calm { others = visited }
