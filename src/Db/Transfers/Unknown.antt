-- ===== src/Db/Transfers/Unknown.antt =====
-- A transfer between accounts of which one is not there.
use ledger_rs.Prelude.{
  ℕ, ◌≡◌, refl, ap, ◌∙◌, true, false, none, List, length, err, ◌==◌, ◌≤◌, ◌⊎◌, inl, inr, sym,
  Option-cases, Bool-cases, ltb, arith,
}
use ledger_rs.Prelude.Text.{Text}
use ledger_rs.Decimal.{Decimal, DecimalLaws}
use ledger_rs.Domain.Money.{is_positive}
use ledger_rs.Domain.Fingerprint.{TransferIntent, Digest}
use ledger_rs.Error.{database, account_not_found}
use ledger_rs.Schema.Rows.{Db, find_account, find_key, contains, transaction_ids}
use ledger_rs.Db.Session.{Env, World, Tx, lift, tick}
use ledger_rs.Db.Session.Calm.{IsCalm, bind_ok, map_error-run}
use ledger_rs.Db.Accounts.{fetch_for_update, select_account}
use ledger_rs.Db.Transfers.{move_money, execute, is_retried, lock, lock_order}
use ledger_rs.Db.Transfers.Effect.{Same}
use ledger_rs.Db.Transfers.Refusal.{Refuses, Refuses-then, execute-Refuses, Refuses-first}
use ledger_rs.Db.Transfers.Statements.{lock_ok}

abbrev pub IsParty : {D : Type 0} → TransferIntent D → ℕ → Type 0
IsParty i id = (id ≡ i.from_account_id) ⊎ (id ≡ i.to_account_id)

-- The account that is missing; if both are, then the one whose identifier is the smaller.
pub record IsFirstMissing {D : Type 0} (i : TransferIntent D) (db : Db) (id : ℕ) : Type 0 where
  pub party : IsParty i id
  pub missing : find_account id db.accounts ≡ none
  pub least : (j : ℕ) → IsParty i j → find_account j db.accounts ≡ none → id ≤ j

module _ {D : Type 0} (i : TransferIntent D) where
  abbrev lower : ℕ
  lower = (lock_order i.from_account_id i.to_account_id).0

  abbrev upper : ℕ
  upper = (lock_order i.from_account_id i.to_account_id).1

  lower-IsParty : IsParty i lower
  lower-IsParty = elim (Bool-cases (ltb i.to_account_id i.from_account_id)) [
    | inl swap ↦ rw (swap, lower, lock_order) (inr refl)
    | inr keep ↦ rw (keep, lower, lock_order) (inl refl)
  ]

  ordered : (j : ℕ) → IsParty i j → lower ≤ j × ((j ≡ lower) ⊎ (j ≡ upper))
  ordered j h = elim (Bool-cases (ltb i.to_account_id i.from_account_id)) [
    | inl swap ↦
        rw (swap, lower, upper, lock_order)
          (elim h [
            | inl from ↦ (ground (arith, swap, from), inr from)
            | inr to ↦ (ground (arith, to), inl to)
          ])
    | inr keep ↦
        rw (keep, lower, upper, lock_order)
          (elim h [
            | inl from ↦ (ground (arith, from), inl from)
            | inr to ↦ (ground (arith, keep, to), inr to)
          ])
  ]

module _ {D : Type 0} ⦃dec : Decimal D⦄ (laws : DecimalLaws D) (env : Env) (calm : IsCalm env) where
  lock_missing :
      (tx : Tx) (id : ℕ) (w : World)
      → find_account id tx.tables.accounts ≡ none
      → lock {D = D} env tx id w ≡ (err (account_not_found id), tick env w)
  unfolding lock fetch_for_update lift
  lock_missing tx id w e =
      bind_ok _ _ _ _ (map_error-run env calm w database _ none (rw (select_account, e) refl))

  move_money-first :
      (tx : Tx) (k id : ℕ) (intent : TransferIntent D) (u : World) (db : Db)
      → IsFirstMissing intent db id
      → tx.tables.accounts ≡ db.accounts
      → Same db u.db
      → Refuses (move_money env tx k intent) u (account_not_found id) db
  unfolding move_money
  move_money-first tx k id intent u db m same s =
      let (at_least, which) = ordered intent id (m.party) in
      elim (Option-cases (find_account (lower intent) db.accounts)) [
        | inl gone ↦
            let here : lower intent ≡ id =
              omega (arith, m.least (lower intent) (lower-IsParty intent) gone, at_least) in
            Refuses-first _ _ (tick env u)
              (lock_missing tx _ u (rw same gone)
                ∙ ap (λ (j : ℕ). (err (account_not_found j), tick env u)) here)
              s
        | inr (a, there) ↦ elim which [
          | inl first ↦ absurd (cc (m.missing, there, first))
          | inr second ↦ Refuses-then _ _ _ _ (lock_ok laws env calm tx _ a u (rw same there)) (
              Refuses-first _ _ (tick env (tick env u))
                (lock_missing tx _ _ (rw (same, sym second) (m.missing))
                  ∙ ap (λ (j : ℕ). (err (account_not_found j), tick env (tick env u))) (sym second))
                s)
        ]
      ]

  -- Where no statement fails, no other session commits, the identifiers that are drawn are new and
  -- the fingerprint has 32 bytes, a request under a fresh key with a positive amount between two
  -- different accounts of which one is not there, or both, is refused with the identifier of the
  -- missing one, the smaller if both are missing, and no row is changed: the key stays free.
  pub execute_unknown_account :
      (dg : Digest)
      → ((bs : List ℕ) → length (dg.sha256 bs) ≡ 32)
      → (key : Text) (intent : TransferIntent D) (w : World) (id : ℕ)
      → find_key key w.db.transactions ≡ none
      → ((n : ℕ) → contains (env.uuid n) (transaction_ids w.db.transactions) ≡ false)
      → (intent.from_account_id == intent.to_account_id) ≡ false
      → is_positive intent.amount ≡ true
      → IsFirstMissing intent w.db id
      → (u : World) × (execute env dg key intent w ≡ (err (account_not_found id), u))
        × Same w.db u.db
  unfolding is_retried
  execute_unknown_account dg long key intent w id fresh new two positive missing =
      execute-Refuses env calm key intent w two positive fresh new (account_not_found id)
        (λ tx k u same s. move_money-first tx k id intent u w.db missing same s) dg long refl
