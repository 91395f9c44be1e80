-- ===== src/Db/Transactions/Order.antt =====
-- `ORDER BY created_at, id` puts the rows of a transaction in order and keeps each of them.
use ledger_rs.Prelude.{
  suc, ◌≤◌, ◌≡◌, refl, ap, ◌∙◌, inl, inr, true, false, List, [], ◌∷◌, length, arith, Bool-cases,
}
use native.Mathlib.Bridge.{le_prop}
use mathlib.Core.List.{Perm, Pairwise, Pairwise-singleton, forall_mem-cons}
use mathlib.Core.List.Perm
use ledger_rs.Prelude.Int.{◌+ℤ◌, int_laws}
use ledger_rs.Schema.Rows.{EntryRecord, net, posting}
use ledger_rs.Db.Transactions.{comes_before, insert_sorted, order_entries}

-- Not later, and not at the same time under a greater identifier.
abbrev pub IsBefore : EntryRecord → EntryRecord → Type 0
IsBefore a b = (a.created_at ≤ b.created_at) × (a.created_at ≡ b.created_at → a.id ≤ b.id)

IsBefore-prop : (a b : EntryRecord) → IsProp (IsBefore a b)
IsBefore-prop a b = hlevel le_prop

comes_before-IsBefore : (a b : EntryRecord) → comes_before a b ≡ true → IsBefore a b
unfolding comes_before
comes_before-IsBefore a b h = ground arith

after-IsBefore : (a b : EntryRecord) → comes_before a b ≡ false → IsBefore b a
unfolding comes_before
after-IsBefore a b h = ground arith

IsBefore-trans : (a b c : EntryRecord) → IsBefore a b → IsBefore b c → IsBefore a c
IsBefore-trans a b c p q = ground arith

insert_sorted-perm : (e : EntryRecord) (es : List EntryRecord) → Perm (insert_sorted e es) (e ∷ es)
unfolding insert_sorted
insert_sorted-perm e [] = Perm.rfl
insert_sorted-perm e (x ∷ xs) = elim (Bool-cases (comes_before x e)) [
  | inl first ↦ rw first (Perm.trans (Perm.cons x (insert_sorted-perm e xs)) (Perm.swap e x xs))
  | inr after ↦ rw after Perm.rfl
]

pub order_entries-perm : (es : List EntryRecord) → Perm (order_entries es) es
unfolding order_entries
order_entries-perm [] = Perm.rfl
order_entries-perm (e ∷ es) =
    Perm.trans (insert_sorted-perm e (order_entries es)) (Perm.cons e (order_entries-perm es))

insert_sorted-ordered :
    (e : EntryRecord) {es : List EntryRecord}
    → Pairwise IsBefore es
    → Pairwise IsBefore (insert_sorted e es)
unfolding insert_sorted
insert_sorted-ordered e Pairwise.nil = Pairwise-singleton _ e
insert_sorted-ordered e (Pairwise.cons {a = x} {l = xs} below s) =
    elim (Bool-cases (comes_before x e)) [
      | inl first ↦ rw first (
          Pairwise.cons
            (λ y m.
              (forall_mem-cons (IsBefore-prop x)).1 (comes_before-IsBefore x e first, below) y
                (Perm.subset (insert_sorted-perm e xs) y m))
            (insert_sorted-ordered e s))
      | inr after ↦
          let p = after-IsBefore x e after in
          rw after (
            Pairwise.cons
              ((forall_mem-cons (IsBefore-prop e)).1 (p, λ y m. IsBefore-trans e x y p (below y m)))
              (Pairwise.cons below s))
    ]

pub order_entries-ordered : (es : List EntryRecord) → Pairwise IsBefore (order_entries es)
unfolding order_entries
order_entries-ordered [] = Pairwise.nil
order_entries-ordered (e ∷ es) = insert_sorted-ordered e (order_entries-ordered es)

-- What the order leaves alone.
insert_sorted-length :
    (e : EntryRecord) (es : List EntryRecord) → length (insert_sorted e es) ≡ suc (length es)
unfolding insert_sorted
insert_sorted-length e [] = refl
insert_sorted-length e (x ∷ xs) = ground (arith, insert_sorted-length e xs)

pub order_entries-length : (es : List EntryRecord) → length (order_entries es) ≡ length es
unfolding order_entries
order_entries-length [] = refl
order_entries-length (e ∷ es) =
    insert_sorted-length e (order_entries es) ∙ ap suc (order_entries-length es)

insert_sorted-net :
    (e : EntryRecord) (es : List EntryRecord) → net (insert_sorted e es) ≡ posting e +ℤ net es
unfolding insert_sorted
insert_sorted-net e [] = refl
insert_sorted-net e (x ∷ xs) = elim (Bool-cases (comes_before x e)) [
  | inl first ↦ rw (first, insert_sorted-net e xs) (omega int_laws)
  | inr after ↦ rw after refl
]

pub order_entries-net : (es : List EntryRecord) → net (order_entries es) ≡ net es
unfolding order_entries
order_entries-net [] = refl
order_entries-net (e ∷ es) =
    insert_sorted-net e (order_entries es) ∙ ap (λ z. posting e +ℤ z) (order_entries-net es)
