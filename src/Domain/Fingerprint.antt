-- ===== src/Domain/Fingerprint.antt =====
-- The transfer request of src/domain/mod.rs and its fingerprint.
pub mod Unambiguous
use ledger_rs.Prelude.{ℕ, List, ◌++◌}
use ledger_rs.Prelude.Text.{Text, codes}
use ledger_rs.Decimal.{Decimal}
use ledger_rs.Domain.Money.{Money, canonical}
use ledger_rs.Domain.Bytes.{as_bytes}

pub record TransferIntent (D : Type 0) : Type 0 where
  pub from_account_id : ℕ
  pub to_account_id : ℕ
  pub amount : Money D
  pub description : Text

pub data TransferOutcome : Type 0 where
  created replayed : TransferOutcome

-- What the fingerprint takes from the crates `sha2` and `uuid`.
pub record Digest : Type 0 where
  pub sha256 : List ℕ → List ℕ
  pub uuid_bytes : ℕ → List ℕ

module _ {D : Type 0} ⦃dec : Decimal D⦄ where
  -- The bytes that `request_hash` feeds to the hasher.
  unfoldable pub preimage : Digest → TransferIntent D → List ℕ
  preimage dg i =
      codes "ledger-rs/transfer/v1\n"
      ++ (codes "from="
          ++ (dg.uuid_bytes i.from_account_id
              ++ (codes "\nto="
                  ++ (dg.uuid_bytes i.to_account_id
                      ++ (codes "\namount="
                          ++ (as_bytes (canonical i.amount)
                              ++ (codes "\ndescription="
                                  ++ (as_bytes i.description ++ codes "\n"))))))))

  -- `TransferIntent::request_hash`
  unfoldable pub request_hash : Digest → TransferIntent D → List ℕ
  request_hash dg i = dg.sha256 (preimage dg i)
