-- ===== src/Db/Transfers/Refused.antt =====
-- A request that asks for no payment never pays.
use ledger_rs.Prelude.{
  ℕ, ◌≡◌, ◌⊎◌, refl, subst, inl, inr, false, not, none, some, Result, ok, err, panicked, fail_if,
  ◌==◌, ==_refl, ok_injective, List, arith,
}
use ledger_rs.Prelude.Int.{pos, ◌≤ℤ◌}
use ledger_rs.Prelude.Text.{Text}
use ledger_rs.Decimal.{Decimal, DecimalLaws, IsExact, units}
use ledger_rs.Domain.Money.{is_positive}
use ledger_rs.Domain.Fingerprint.{TransferIntent, Digest, replayed}
use ledger_rs.Error.{LedgerError, self_transfer, non_positive_amount}
use ledger_rs.Schema.Rows.{Db}
use ledger_rs.Db.Session.{Env, World}
use ledger_rs.Db.Session.Triples.{
  Outcome, Triple, Triple->>=, Triple-lift, Triple-pure, Triple-given, Triple-weaken,
}
use ledger_rs.Db.Transactions.{IdempotencyRecord}
use ledger_rs.Db.Transfers.{TransferResult, replay, write_path, execute_once, execute}
use ledger_rs.Db.Transfers.Reads.{get-Triple, find-Triple}
use ledger_rs.Db.Transfers.Loop.{execute-After}
use ledger_rs.Db.Transfers.ExactlyOnce.{Meanwhile, untouched, then_others}

-- A transfer from an account to itself, or of an amount that is zero or less.
abbrev pub IsNoPayment : {D : Type 0} → ⦃dec : Decimal D⦄ → TransferIntent D → Type 0
IsNoPayment intent =
    (intent.from_account_id ≡ intent.to_account_id)
    ⊎ (IsExact intent.amount.amount × (units intent.amount.amount ≤ℤ pos 0))

module _ {D : Type 0} ⦃dec : Decimal D⦄ (laws : DecimalLaws D) (env : Env) (key : Text)
    (intent : TransferIntent D) (start : Db) where
  abbrev Safe : Db → Type 0
  Safe = Meanwhile env start

  abbrev Told : TransferResult D → Db → Type 0
  Told x db = Safe db × (x.outcome ≡ replayed)

  lawful : (n : ℕ) (db : Db) → Safe db → Safe (env.others n db)
  lawful n db h = then_others start db n h

  replay-Told :
      (r : IdempotencyRecord) (hash : List ℕ) → Triple Safe Safe (replay env key r hash) Told
  unfolding replay
  replay-Told r hash = Triple->>= Safe _ _ (Triple-lift Safe _ (λ db h. h)) λ _.
      Triple->>= Safe _ _
        (Triple-weaken Safe _ (get-Triple Safe env lawful r.transaction_id) (λ db h. h.0)
          (λ a db h. h))
        λ detail. Triple-pure Safe _ (λ db h. (h, refl))

  not_positive :
      IsExact intent.amount.amount
      → units intent.amount.amount ≤ℤ pos 0
      → is_positive intent.amount ≡ false
  unfolding is_positive
  not_positive exact small =
      let zero_exact : IsExact dec.zero = rw (laws.scale-zero) (omega arith) in
      rw (laws.lt-units dec.zero intent.amount.amount zero_exact exact, laws.units-zero)
        (ground arith)

  -- The two guards of the write path do not both let it through.
  guarded :
      IsNoPayment intent
      → fail_if (intent.from_account_id == intent.to_account_id) self_transfer ≡ ok tt
      → fail_if (not (is_positive intent.amount)) non_positive_amount ≡ ok tt
      → ⊥
  guarded (inl same) p q = cc (rw (same, ==_refl intent.to_account_id) at p)
  guarded (inr (exact, small)) p q = cc (rw (not_positive exact small) at q)

  write_path-Told :
      (hash : List ℕ) → IsNoPayment intent → Triple Safe Safe (write_path env key intent hash) Told
  unfolding write_path
  write_path-Told hash unpaid = Triple->>= Safe _ _ (Triple-lift Safe _ (λ db h. h)) λ _.
      Triple->>= Safe _ _ (Triple-lift Safe _ (λ db h. h.0))
        λ _. Triple-given Safe ⊥ _ (λ db h. guarded unpaid h.0.1 h.1) λ bad. absurd bad

  once-Told :
      (dg : Digest) → IsNoPayment intent → Triple Safe Safe (execute_once env dg key intent) Told
  unfolding execute_once
  once-Told dg unpaid =
      Triple->>= Safe _ _ (find-Triple Safe env lawful key)
        (elim [ some r ↦ replay-Told r _ | none ↦ write_path-Told _ unpaid ])

  Outcome-Safe :
      (x : Result LedgerError (TransferResult D) × World) → Outcome Safe Told x → Safe x.1.db
  Outcome-Safe (ok a, w) h = h.0
  Outcome-Safe (err e, w) h = h
  Outcome-Safe (panicked, w) h = h

module _ {D : Type 0} ⦃dec : Decimal D⦄ (laws : DecimalLaws D) (env : Env) (dg : Digest) where
  -- A call of `execute` for a transfer from an account to itself, or of an exact amount of zero or
  -- less, writes nothing of its own, over all its attempts, whichever statements fail and whatever
  -- other sessions do: the tables after it are what the others made of them, and a transaction that
  -- it returns is a replay.
  pub execute_no_payment :
      (key : Text) (intent : TransferIntent D) (w : World)
      → IsNoPayment intent
      → let (x, w') = execute env dg key intent w in
        Meanwhile env w.db w'.db × ((y : TransferResult D) → x ≡ ok y → y.outcome ≡ replayed)
  execute_no_payment key intent w unpaid = read_off (execute env dg key intent w) (
      execute-After env dg key intent (λ u. Meanwhile env w.db u.db)
        (Outcome (Meanwhile env w.db) (Told laws env key intent w.db))
        (λ u h. (once-Told laws env key intent w.db dg unpaid).at u h)
        (Outcome-Safe laws env key intent w.db) w (untouched w.db))
    where
      read_off :
          (x : Result LedgerError (TransferResult D) × World)
          → Outcome (Meanwhile env w.db) (Told laws env key intent w.db) x
          → Meanwhile env w.db x.1.db × ((y : TransferResult D) → x.0 ≡ ok y → y.outcome ≡ replayed)
      read_off (ok y, u) (h, again) =
          (h, λ z e. subst (λ (t : TransferResult D). t.outcome ≡ replayed) (ok_injective e) again)
      read_off (err e, u) h = (h, λ y p. cc)
      read_off (panicked, u) h = (h, λ y p. cc)
