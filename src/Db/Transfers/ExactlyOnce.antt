-- ===== src/Db/Transfers/ExactlyOnce.antt =====
-- While no other session commits, a call of `execute` moves the money completely or not at all, and
-- at most once; beside other sessions it does so between what the others do.
use ledger_rs.Prelude.{ℕ, suc, ◌≡◌, ◌≢◌, ◌⊎◌, inl, inr, refl, ap, ◌∙◌, none, ok, List, ◌∷◌, map}
use ledger_rs.Prelude.Text.{Text}
use ledger_rs.Decimal.{Decimal, DecimalLaws, IsExact}
use ledger_rs.Domain.Fingerprint.{TransferIntent, Digest, request_hash, created}
use ledger_rs.Schema.Rows.{Db}
use ledger_rs.Schema.Effects.{raise_balance}
use ledger_rs.Db.Session.{Env, World}
use ledger_rs.Db.Transactions.{select_key}
use ledger_rs.Db.Transfers.{TransferResult, execute}
use ledger_rs.Db.Transfers.Effect.{Same, IsTransferred}
use ledger_rs.Db.Transfers.Neighbours.{Neighbours, IsPaidOnce}
use ledger_rs.Db.Transfers.Retried.{execute-Once}

-- Nobody else: the rows stay as they are.
Same-Neighbours : (env : Env) → ((n : ℕ) (db : Db) → env.others n db ≡ db) → Neighbours env Same
unfolding select_key
Same-Neighbours env alone = record {
  nothing = λ a. record { accounts_same = refl; transactions_same = refl; entries_same = refl };
  chained = λ a b c p q. record {
    accounts_same = q.accounts_same ∙ p.accounts_same;
    transactions_same = q.transactions_same ∙ p.transactions_same;
    entries_same = q.entries_same ∙ p.entries_same;
  };
  let_in = λ n db. record {
    accounts_same = ap (λ (d : Db). d.accounts) (alone n db);
    transactions_same = ap (λ (d : Db). d.transactions) (alone n db);
    entries_same = ap (λ (d : Db). d.entries) (alone n db);
  };
  numbered = λ db. record { accounts_same = refl; transactions_same = refl; entries_same = refl };
  keyed = λ key a b p there gone. there (rw (p.transactions_same) at gone);
}

-- What becomes of tables by the other sessions of an environment, and by the numbers that database
-- transactions draw: nothing of a call's own.
pub data Meanwhile (env : Env) : Db → Db → Type 0 where
  untouched : (a : Db) → Meanwhile env a a
  then_others : (a b : Db) (n : ℕ) → Meanwhile env a b → Meanwhile env a (env.others n b)
  then_number :
      (a b : Db) → Meanwhile env a b → Meanwhile env a (record b { next_xid = suc b.next_xid })

-- The other sessions take no key away.
abbrev pub KeepsKeys : Env → Type 0
KeepsKeys env =
    (n : ℕ) (key : Text) (db : Db)
    → none ≢ select_key key db
    → none ≢ select_key key (env.others n db)

module _ (env : Env) where
  Meanwhile-trans : (a b c : Db) → Meanwhile env a b → Meanwhile env b c → Meanwhile env a c
  Meanwhile-trans a b _ h (untouched _) = h
  Meanwhile-trans a b _ h (then_others _ c n k) = then_others a c n (Meanwhile-trans a b c h k)
  Meanwhile-trans a b _ h (then_number _ c k) = then_number a c (Meanwhile-trans a b c h k)

  Meanwhile-keyed :
      KeepsKeys env
      → (key : Text) (a b : Db) → Meanwhile env a b
      → none ≢ select_key key a
      → none ≢ select_key key b
  unfolding select_key
  Meanwhile-keyed keeping key a _ (untouched _) there = there
  Meanwhile-keyed keeping key a _ (then_others _ b n h) there =
      keeping n key b (Meanwhile-keyed keeping key a b h there)
  Meanwhile-keyed keeping key a _ (then_number _ b h) there =
      Meanwhile-keyed keeping key a b h there

  Meanwhile-Neighbours : KeepsKeys env → Neighbours env (Meanwhile env)
  Meanwhile-Neighbours keeping = record {
    nothing = untouched;
    chained = Meanwhile-trans;
    let_in = λ n db. then_others db db n (untouched db);
    numbered = λ db. then_number db db (untouched db);
    keyed = Meanwhile-keyed keeping;
  }

module _ {D : Type 0} ⦃dec : Decimal D⦄ where
  -- A transfer between tables with the same rows.
  Same-Transferred :
      (key : Text) (hash : List ℕ) (intent : TransferIntent D) (start db : Db)
      → IsPaidOnce Same key hash intent start db
      → IsTransferred key hash intent start db
  Same-Transferred key hash intent start db p = record {
    transaction = p.paid.transaction;
    out = p.paid.out;
    into = p.paid.into;
    recorded =
        p.later.transactions_same
        ∙ p.paid.recorded
        ∙ ap (λ l. p.paid.transaction ∷ l) p.earlier.transactions_same;
    under_key = p.paid.under_key;
    with_hash = p.paid.with_hash;
    described = p.paid.described;
    logged =
        p.later.entries_same
        ∙ p.paid.logged
        ∙ ap (λ l. p.paid.into ∷ p.paid.out ∷ l) p.earlier.entries_same;
    sender = p.paid.sender;
    receiver = p.paid.receiver;
    balances =
        p.later.accounts_same
        ∙ p.paid.balances
        ∙ ap
            (λ l.
              map (raise_balance intent.to_account_id _)
                (map (raise_balance intent.from_account_id _) l))
            p.earlier.accounts_same;
  }

module _ {D : Type 0} ⦃dec : Decimal D⦄ (laws : DecimalLaws D) (env : Env)
    (alone : (n : ℕ) (db : Db) → env.others n db ≡ db) where
  -- While no other session commits, one call of `execute` with an amount of at most eight places
  -- leaves every row as it was, or adds the whole transfer once: also over its retries, whichever
  -- statements fail, and whether or not a failing commit has taken effect. When it reports a created
  -- transaction, the transfer is there.
  pub execute_exactly_once :
      (dg : Digest) (key : Text) (intent : TransferIntent D) (w : World)
      → IsExact intent.amount.amount
      → let (r, w') = execute env dg key intent w in
        (Same w.db w'.db ⊎ IsTransferred key (request_hash dg intent) intent w.db w'.db)
        × ((x : TransferResult D)
            → r ≡ ok x
            → x.outcome ≡ created
            → IsTransferred key (request_hash dg intent) intent w.db w'.db)
  execute_exactly_once dg key intent w exact =
      let (once, told) =
        execute-Once laws env Same (Same-Neighbours env alone) dg key intent w exact in
      (
        elim once [ inl same ↦ inl same | inr paid ↦ inr (Same-Transferred _ _ intent _ _ paid) ],
        λ x e c. Same-Transferred _ _ intent _ _ (told x e c),
      )

module _ {D : Type 0} ⦃dec : Decimal D⦄ (laws : DecimalLaws D) (env : Env) where
  -- Beside other sessions that take no key away, one call of `execute` with an amount of at most
  -- eight places adds at most one transfer, also over its retries, whichever statements fail, and
  -- whether or not a failing commit has taken effect: the tables after it are what the others made
  -- of the tables before it, or the others made something of them, then the whole transfer was added
  -- and nothing else, then the others made something of that. When the call reports a created
  -- transaction, the transfer is there.
  pub execute_beside_others :
      KeepsKeys env
      → (dg : Digest) (key : Text) (intent : TransferIntent D) (w : World)
      → IsExact intent.amount.amount
      → let (r, w') = execute env dg key intent w in
        (Meanwhile env w.db w'.db
          ⊎ IsPaidOnce (Meanwhile env) key (request_hash dg intent) intent w.db w'.db)
        × ((x : TransferResult D)
            → r ≡ ok x
            → x.outcome ≡ created
            → IsPaidOnce (Meanwhile env) key (request_hash dg intent) intent w.db w'.db)
  execute_beside_others keeping =
      execute-Once laws env (Meanwhile env) (Meanwhile-Neighbours env keeping)
