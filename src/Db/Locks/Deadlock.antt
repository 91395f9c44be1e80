-- ===== src/Db/Locks/Deadlock.antt =====
-- Transfers that run beside each other never wait in a circle.
use ledger_rs.Prelude.{
  ℕ, suc, ◌≤◌, ◌<◌, ◌≡◌, ◌≢◌, ◌⊎◌, inl, inr, refl, sym, subst, ap, false, List, [], ◌∷◌, ◌++◌, All,
  All-implies, All-append, arith, ltb, leb→le, leb, ◌==◌, Bool-cases,
}
use ledger_rs.Prelude.Text.{Text}
use ledger_rs.Domain.Fingerprint.{TransferIntent}
use ledger_rs.Db.Transfers.{lock_order}
use ledger_rs.Db.Locks.{
  Resource, index_key, account_row, Holder, lock_plan, LeavesFree, Advance, takes, commits, Step,
  begins, advances, fails, Reachable, nobody, then_step, CanGoOn,
}

abbrev rank : Resource → ℕ
rank (index_key k) = 0
rank (account_row n) = suc n

abbrev Ascending : List Resource → Type 0
Ascending [] = Unit
Ascending (r ∷ rs) = All (λ q. rank r < rank q) rs × Ascending rs

-- A session waits in ascending order, for more than it holds.
abbrev Orderly : Holder → Type 0
Orderly h = All (λ q. All (λ r. rank q < rank r) h.wanted) h.held × Ascending h.wanted

rank_differs : (q r : Resource) → rank q < rank r → q ≢ r
rank_differs q r h e = absurd (omega (arith, h, ap rank e))

-- What it waits for ranks `n` at most.
abbrev UpTo : ℕ → List Resource → Type 0
UpTo n [] = ⊥
UpTo n (r ∷ rs) = rank r ≤ n

-- A session that waits for the highest resource.
record Highest (hs : List Holder) : Type 0 where
  before : List Holder
  after : List Holder
  r : Resource
  held : List Resource
  wanted : List Resource
  split : hs ≡ before ++ record { held = held; wanted = r ∷ wanted } ∷ after
  highest : All (λ h. UpTo (rank r) h.wanted) hs

record Finished (hs : List Holder) : Type 0 where
  before : List Holder
  after : List Holder
  held : List Resource
  split : hs ≡ before ++ record { held = held; wanted = [] } ∷ after

UpTo-higher : (m n : ℕ) (rs : List Resource) → m ≤ n → UpTo m rs → UpTo n rs
UpTo-higher m n [] h u = u
UpTo-higher m n (r ∷ rs) h u = omega (arith, h, u)

later-Finished : (h : Holder) (hs : List Holder) → Finished hs → Finished (h ∷ hs)
later-Finished h hs f = record {
  before = h ∷ f.before;
  after = f.after;
  held = f.held;
  split = ap (λ t. h ∷ t) f.split;
}

abbrev holder : List Resource → List Resource → Holder
holder held wanted = record { held = held; wanted = wanted }

first-Highest :
    (held : List Resource) (r : Resource) (rs : List Resource) (hs : List Holder)
    → All (λ h. UpTo (rank r) h.wanted) hs
    → Highest (holder held (r ∷ rs) ∷ hs)
first-Highest held r rs hs low = record {
  before = [];
  after = hs;
  r = r;
  held = held;
  wanted = rs;
  split = refl;
  highest = (omega arith, low);
}

later-Highest :
    (held : List Resource) (r : Resource) (rs : List Resource) (hs : List Holder) (t : Highest hs)
    → rank r ≤ rank t.r
    → Highest (holder held (r ∷ rs) ∷ hs)
later-Highest held r rs hs t low = record {
  before = holder held (r ∷ rs) ∷ t.before;
  after = t.after;
  r = t.r;
  held = t.held;
  wanted = t.wanted;
  split = ap (λ xs. holder held (r ∷ rs) ∷ xs) t.split;
  highest = (low, t.highest);
}

choose :
    (held wanted : List Resource) (hs : List Holder)
    → Finished (holder held wanted ∷ hs) ⊎ Highest (holder held wanted ∷ hs)
choose held [] hs = inl (record { before = []; after = hs; held = held; split = refl })
choose held (r ∷ rs) [] = inr (first-Highest held r rs [] tt)
choose held (r ∷ rs) (h ∷ hs) = elim (choose h.held h.wanted hs) [
  | inl f ↦ inl (later-Finished _ _ f)
  | inr t ↦ elim (Bool-cases (leb (rank r) (rank t.r))) [
    | inl low ↦ inr (later-Highest held r rs (h ∷ hs) t (leb→le _ _ low))
    | inr high ↦ inr (
        first-Highest held r rs (h ∷ hs) (
          All-implies _ _ (λ x. UpTo-higher _ _ x.wanted (ground (arith, high))) (h ∷ hs)
            t.highest))
  ]
]

-- Who waits in order for no more than `r` holds less than `r`.
leaves_free : (r : Resource) (h : Holder) → UpTo (rank r) h.wanted → Orderly h → LeavesFree r h
leaves_free r h u o = free h.held h.wanted u (o.0)
  where
    free :
        (qs rs : List Resource)
        → UpTo (rank r) rs
        → All (λ q. All (λ x. rank q < rank x) rs) qs
        → All (λ q. q ≢ r) qs
    free qs [] u o = absurd u
    free [] (x ∷ rs) u o = tt
    free (q ∷ qs) (x ∷ rs) u ((below, _), more) =
        (rank_differs q r (omega (arith, below, u)), free qs (x ∷ rs) u more)

All-split {ℓ κ} :
    {A : Type ℓ} (P : A → Type κ) (xs ys : List A) → All P (xs ++ ys) → All P xs × All P ys
All-split P [] ys h = (tt, h)
All-split P (x ∷ xs) ys (p, h) = let (a, b) = All-split P xs ys h in ((p, a), b)

go_on : (h : Holder) (hs : List Holder) → All Orderly (h ∷ hs) → CanGoOn (h ∷ hs)
go_on h hs o = elim (choose h.held h.wanted hs) [
  | inl f ↦ subst CanGoOn (sym f.split) (_, commits f.before f.after f.held)
  | inr t ↦
      let (before, (_, after)) =
        All-split (LeavesFree t.r) t.before (holder t.held (t.r ∷ t.wanted) ∷ t.after)
          (subst (All (LeavesFree t.r)) t.split (both t.r (h ∷ hs) t.highest o)) in
      subst CanGoOn (sym t.split) (_, takes t.before t.after t.r t.held t.wanted before after)
]
  where
    both :
        (r : Resource) (xs : List Holder)
        → All (λ x. UpTo (rank r) x.wanted) xs
        → All Orderly xs
        → All (LeavesFree r) xs
    both r [] u o = tt
    both r (x ∷ xs) (u, us) (o, os) = (leaves_free r x u o, both r xs us os)

lock_order_lem : (a b : ℕ) → (a == b) ≡ false → (lock_order a b).0 < (lock_order a b).1
lock_order_lem a b two = elim (Bool-cases (ltb b a)) [
  | inl swapped ↦ rw swapped (ground (arith, swapped))
  | inr kept ↦ rw kept (ground (arith, kept, two))
]

plan-Orderly :
    {D : Type 0} (key : Text) (intent : TransferIntent D)
    → (intent.from_account_id == intent.to_account_id) ≡ false
    → Orderly (holder [] (lock_plan key intent))
plan-Orderly key intent two =
    let sorted = lock_order_lem intent.from_account_id intent.to_account_id two in
    (tt, ((omega arith, (omega arith, tt)), ((omega (arith, sorted), tt), (tt, tt))))

taken-Orderly :
    (held wanted : List Resource) (r : Resource)
    → Orderly (holder held (r ∷ wanted))
    → Orderly (holder (r ∷ held) wanted)
taken-Orderly held wanted r (below, (above, rest)) =
    ((above, All-implies _ _ (λ q b. b.1) held below), rest)

Advance-Orderly : (a b : List Holder) → Advance a b → All Orderly a → All Orderly b
Advance-Orderly _ _ (takes before after r held wanted _ _) o =
    let (front, (h, back)) = All-split Orderly before (holder held (r ∷ wanted) ∷ after) o in
    All-append Orderly before (holder (r ∷ held) wanted ∷ after) front
      (taken-Orderly held wanted r h, back)
Advance-Orderly _ _ (commits before after held) o =
    let (front, (_, back)) = All-split Orderly before (holder held [] ∷ after) o in
    All-append Orderly before after front back

Step-Orderly : {D : Type 0} (a b : List Holder) → Step D a b → All Orderly a → All Orderly b
Step-Orderly a _ (begins key intent hs two) o = (plan-Orderly key intent two, o)
Step-Orderly a b (advances _ _ s) o = Advance-Orderly a b s o
Step-Orderly _ _ (fails before after h) o =
    let (front, (_, back)) = All-split Orderly before (h ∷ after) o in
    All-append Orderly before after front back

Reachable-Orderly : {D : Type 0} (hs : List Holder) → Reachable D hs → All Orderly hs
Reachable-Orderly _ nobody = tt
Reachable-Orderly b (then_step a _ reached s) = Step-Orderly a b s (Reachable-Orderly a reached)

-- However many transfers run beside each other, and whichever of them fail, no deadlock is reached:
-- while a transaction is open, one of them can take the next resource it waits for, or commit.
pub no_deadlock :
    {D : Type 0} (h : Holder) (hs : List Holder) → Reachable D (h ∷ hs) → CanGoOn (h ∷ hs)
no_deadlock h hs reached = go_on h hs (Reachable-Orderly (h ∷ hs) reached)
