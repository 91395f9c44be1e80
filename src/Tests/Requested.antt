-- ===== src/Tests/Requested.antt =====
-- Two spellings of one request.
use ledger_rs.Prelude.{◌≡◌, ◌↔◌, refl, [], ◌∷◌, arith}
use ledger_rs.Prelude.Int.{pos, times}
use ledger_rs.Decimal.{units}
use ledger_rs.Decimal.Fixed.{Fixed, fixed}
use ledger_rs.Decimal.Fixed.Laws.{fixed_laws, fixed_prints}
use ledger_rs.Domain.Fingerprint.{TransferIntent, Digest, preimage}
use ledger_rs.Domain.Fingerprint.Unambiguous.{UuidLaws, IsRequest, SameRequest, preimage_decides}
use ledger_rs.Tests.Sample.{checksum, deposit, usd}

abbrev sixteen_bytes : Digest
sixteen_bytes = record checksum {
  uuid_bytes = λ n. n ∷ 0 ∷ 0 ∷ 0 ∷ 0 ∷ 0 ∷ 0 ∷ 0 ∷ 0 ∷ 0 ∷ 0 ∷ 0 ∷ 0 ∷ 0 ∷ 0 ∷ 0 ∷ [];
}

sixteen_bytes-UuidLaws : UuidLaws sixteen_bytes
sixteen_bytes-UuidLaws = record { sixteen = λ n. refl; distinct = λ m n _ _ h. cc h }

-- 25.000 in the place of 25.00.
abbrev respelled : TransferIntent Fixed
respelled = record deposit {
  amount = record { amount = record { mantissa = pos 25_000; scale = 3 }; currency = usd };
}

deposit-IsRequest : IsRequest deposit
unfolding units times
deposit-IsRequest = record {
  from_fits = omega arith;
  to_fits = omega arith;
  amount_valid = record { exact = omega arith; bounded = omega arith };
  code_plain = (
    λ h. absurd (omega (arith, h)),
    (λ h. absurd (omega (arith, h)), (λ h. absurd (omega (arith, h)), tt)),
  );
}

respelled-IsRequest : IsRequest respelled
unfolding units times
respelled-IsRequest = record {
  from_fits = omega arith;
  to_fits = omega arith;
  amount_valid = record { exact = omega arith; bounded = omega arith };
  code_plain = deposit-IsRequest.code_plain;
}

preimage_decides_example :
    (preimage sixteen_bytes deposit ≡ preimage sixteen_bytes respelled)
    ↔ SameRequest deposit respelled
preimage_decides_example =
    preimage_decides fixed_laws fixed_prints sixteen_bytes sixteen_bytes-UuidLaws deposit respelled
      deposit-IsRequest respelled-IsRequest
