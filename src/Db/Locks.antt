-- ===== src/Db/Locks.antt =====
-- The locks that the transfers of src/db/transfers.rs take, session beside session. A transfer
-- claims its idempotency key in the unique index and then locks the rows of its two accounts in the
-- order of `lock_order`; Postgres lets each of them go when the transaction ends.
pub mod Deadlock
use ledger_rs.Prelude.{
  ℕ, suc, ◌≤◌, ◌<◌, ◌≡◌, ◌≢◌, ◌⊎◌, inl, inr, refl, sym, subst, ap, ◌∙◌, true, false, List, [], ◌∷◌,
  ◌++◌, All, All-implies, All-append, arith, ltb, leb→le, leb, ◌==◌, Bool-cases, if◌then◌else◌,
}
use ledger_rs.Prelude.Text.{Text}
use ledger_rs.Domain.Fingerprint.{TransferIntent}
use ledger_rs.Db.Transfers.{lock_order}

-- What a session waits for and holds: a key in the unique index, or the row of an account.
pub data Resource : Type 0 where
  index_key : Text → Resource
  account_row : ℕ → Resource

pub record Holder : Type 0 where
  pub held : List Resource
  pub wanted : List Resource

-- What `execute_once` waits for, in its order.
abbrev pub lock_plan : {D : Type 0} → Text → TransferIntent D → List Resource
lock_plan key intent =
    let (first, second) = lock_order intent.from_account_id intent.to_account_id in
    index_key key ∷ account_row first ∷ account_row second ∷ []

abbrev pub LeavesFree : Resource → Holder → Type 0
LeavesFree r h = All (λ q. q ≢ r) h.held

-- An open transaction takes a resource that no other holds, or commits when it has all. (A key that
-- is in the index for good is not told apart from a free one: the session that comes for it gets a
-- unique violation at once, and does not wait.)
pub data Advance : List Holder → List Holder → Type 0 where
  takes :
      (before after : List Holder) (r : Resource) (held wanted : List Resource)
      → All (LeavesFree r) before
      → All (LeavesFree r) after
      → Advance
          (before ++ record { held = held; wanted = r ∷ wanted } ∷ after)
          (before ++ record { held = r ∷ held; wanted = wanted } ∷ after)
  commits :
      (before after : List Holder) (held : List Resource)
      → Advance (before ++ record { held = held; wanted = [] } ∷ after) (before ++ after)

-- What may happen to the open transactions: a transfer between two accounts begins, one advances,
-- or one fails and is rolled back.
pub data Step (D : Type 0) : List Holder → List Holder → Type 0 where
  begins :
      (key : Text) (intent : TransferIntent D) (hs : List Holder)
      → (intent.from_account_id == intent.to_account_id) ≡ false
      → Step D hs (record { held = []; wanted = lock_plan key intent } ∷ hs)
  advances : (a b : List Holder) → Advance a b → Step D a b
  fails : (before after : List Holder) (h : Holder) → Step D (before ++ h ∷ after) (before ++ after)

pub data Reachable (D : Type 0) : List Holder → Type 0 where
  nobody : Reachable D []
  then_step : (a b : List Holder) → Reachable D a → Step D a b → Reachable D b

-- Some transaction can advance.
abbrev pub CanGoOn : List Holder → Type 0
CanGoOn hs = (next : List Holder) × Advance hs next
