-- ===== src/Db/Transfers/Payment.antt =====
-- The statements of a transfer that the tables let through, one by one, with the tables that each
-- leaves.
use ledger_rs.Prelude.{
  ℕ, suc, ◌<◌, ◌≡◌, refl, sym, ap, subst, ◌∙◌, true, false, some, List, [], ◌∷◌, map, ok, or_panic,
  All, All-implies, All-map, arith, ◌==◌, ==_refl, ==→eq, Bool-cases, inl, inr,
}
use ledger_rs.Prelude.Int.{ℤ, neg, ◌+ℤ◌, magnitude, +ℤ_neg}
use ledger_rs.Prelude.Text.{Text, text_eq_refl}
use ledger_rs.Decimal.{Decimal, DecimalLaws, units}
use ledger_rs.Domain.Currency.{as_str}
use ledger_rs.Domain.Money.Validation.{IsValid}
use ledger_rs.Domain.Postings.{debit, credit}
use ledger_rs.Domain.Fingerprint.{TransferIntent, created}
use ledger_rs.Schema.Rows.{
  Db, AccountRecord, EntryRecord, TransactionRecord, find_account, find_key, find_transaction,
  of_transaction, contains, transaction_ids, entry_ids,
}
use ledger_rs.Schema.Statements.{numeric_limit, balance_allowed, account_matches}
use ledger_rs.Schema.Deferred.{run_deferred}
use ledger_rs.Schema.Effects.{raise_balance}
use ledger_rs.Schema.Flights.{matches-raise}
use ledger_rs.Schema.Carried.{HasRoom, found-All, only_row, run_deferred_pair, of_transaction_fresh}
use ledger_rs.Schema.Invariant.{Inv}
use ledger_rs.Db.Session.{Env, World, Tx}
use ledger_rs.Db.Session.Calm.{
  IsCalm, Returns, Returns->>=, Returns-then, Returns-pure, Returns-map_error, Returns-commit,
  bind_ok, lift_ok,
}
use ledger_rs.Db.Accounts.{to_row}
use ledger_rs.Db.Transactions.Reading.{IsStored, IsAnswered, detail_of_fits, Returns-get}
use ledger_rs.Db.Transfers.{new_entry, new_transaction, post, move_money}
use ledger_rs.Db.Transfers.Effect.{find_account_id}
use ledger_rs.Db.Transfers.Payable.{
  DrawsNew, IsPayable, first_found, second_found, locked_from, locked_to, amount_positive,
  sender_allowed, receiver_allowed, accounts_pass,
}
use ledger_rs.Db.Transfers.Statements.{adjusted, entered, adjust_ok, insert_ok, lock_ok}

module _ {D : Type 0} ⦃dec : Decimal D⦄ (laws : DecimalLaws D) (env : Env) (calm : IsCalm env) where
  module _ (key : Text) (hash : List ℕ) (intent : TransferIntent D) (valid : IsValid intent.amount)
      (db : Db) (inv : Inv db) (pay : IsPayable intent db) (draws : DrawsNew env db) where
    z : ℤ
    z = units intent.amount.amount

    sender_id : pay.sender.id ≡ intent.from_account_id
    sender_id = find_account_id _ _ _ (pay.sender_found)

    receiver_id : pay.receiver.id ≡ intent.to_account_id
    receiver_id = find_account_id _ _ _ (pay.receiver_found)

    sender_HasRoom : All (HasRoom intent.from_account_id (neg z)) db.accounts
    unfolding z
    sender_HasRoom =
        All-implies _ _
          (λ r only e.
            subst
              (λ x.
                (magnitude (x.balance +ℤ neg z) < numeric_limit)
                × (balance_allowed (record x { balance = x.balance +ℤ neg z }) ≡ true))
              (sym (only e)) (pay.sender_room, sender_allowed laws intent (valid.exact) db pay))
          db.accounts (only_row _ _ _ (inv.well_formed.account_ids) (pay.sender_found))

    receiver_HasRoom :
        All
          (HasRoom intent.to_account_id z)
          (map (raise_balance intent.from_account_id (neg z)) db.accounts)
    unfolding z
    receiver_HasRoom =
        All-map (raise_balance intent.from_account_id (neg z))
          (λ r. r.id ≡ intent.to_account_id → r ≡ pay.receiver) (HasRoom intent.to_account_id z)
          room db.accounts (only_row _ _ _ (inv.well_formed.account_ids) (pay.receiver_found))
      where
        fits : HasRoom intent.to_account_id z (pay.receiver)
        fits e = (
          pay.receiver_room,
          receiver_allowed laws intent (valid.exact) db pay (
              found-All (λ a. balance_allowed a ≡ true) _ db.accounts (pay.receiver)
                (pay.receiver_found) (inv.well_formed.funded)),
        )

        room :
            (r : AccountRecord)
            → (r.id ≡ intent.to_account_id → r ≡ pay.receiver)
            → HasRoom intent.to_account_id z (raise_balance intent.from_account_id (neg z) r)
        room r only = elim (Bool-cases (r.id == intent.from_account_id)) [
          | inl hit ↦ rw hit (λ e. absurd (two hit e))
          | inr miss ↦ rw miss (λ e. subst (HasRoom intent.to_account_id z) (sym (only e)) fits e)
        ]
          where
            two : (r.id == intent.from_account_id) ≡ true → ¬ (r.id ≡ intent.to_account_id)
            two hit e =
                cc (
                  rw (sym (==→eq r.id _ hit) ∙ e, ==_refl intent.to_account_id) at pay.two_accounts)

    module _ (k xid time : ℕ) (new : contains k (transaction_ids db.transactions) ≡ false) where
      unfoldable pub claim : TransactionRecord
      claim = new_transaction k key hash intent.description xid time

      out : ℕ → EntryRecord
      out n =
          new_entry env (env.uuid n) k intent.from_account_id credit intent.amount.amount
            intent.amount.currency time

      into : ℕ → EntryRecord
      into n =
          new_entry env (env.uuid n) k intent.to_account_id debit intent.amount.amount
            intent.amount.currency time

      unfoldable pub claimed_tx : Tx
      unfolding claim
      claimed_tx = record {
        tables = record db { transactions = claim ∷ db.transactions; next_xid = suc db.next_xid };
        xid = xid;
        started = time;
        pending = [];
      }

      raised_tx : Tx
      unfolding claimed_tx adjusted z
      raised_tx =
          adjusted (adjusted claimed_tx intent.from_account_id (neg z)) intent.to_account_id z

      posted_tx : ℕ → Tx
      unfolding raised_tx entered out into
      posted_tx n = entered (entered raised_tx (out n)) (into (suc (suc n)))

      raised-matches :
          (id : ℕ) (a : AccountRecord)
          → find_account id db.accounts ≡ some a
          → a.currency ≡ as_str intent.amount.currency
          → account_matches
              (as_str intent.amount.currency)
              (find_account id (raised_tx.tables.accounts))
            ≡ true
      unfolding raised_tx claimed_tx adjusted account_matches
      raised-matches id a found same =
          matches-raise _ _ _ id _ ∙ matches-raise _ _ _ id _ ∙ rw (found, same) (text_eq_refl _)

      parent : find_transaction k (raised_tx.tables.transactions) ≡ some claim
      unfolding raised_tx claimed_tx adjusted find_transaction claim
      parent = rw (==_refl k) refl

      second_new :
          (n : ℕ) → contains (env.uuid (suc (suc n))) (env.uuid n ∷ entry_ids db.entries) ≡ false
      second_new n = elim (Bool-cases (env.uuid (suc (suc n)) == env.uuid n)) [
        | inl same ↦ absurd (omega (arith, draws.differ (suc (suc n)) n (==→eq _ _ same)))
        | inr other ↦ rw other (draws.entry_new (suc (suc n)))
      ]

      post_ok :
          (w : World)
          → post env claimed_tx k intent.from_account_id intent.to_account_id intent.amount.amount
              intent.amount.currency w
            ≡ (
              ok (posted_tx (suc (suc w.step))),
              record w { step = suc (suc (suc (suc (suc (suc w.step))))) },
            )
      unfolding post posted_tx raised_tx claimed_tx out into claim
      post_ok w =
          let amount = intent.amount.amount in
          let exact = valid.exact in
          bind_ok _ _ _ _ (
            adjust_ok laws env calm claimed_tx intent.from_account_id (dec.negate amount) (neg z) w
              (rw (laws.scale-negate amount) exact) (laws.units-negate amount) sender_HasRoom)
          ∙ bind_ok _ _ _ _ (
              adjust_ok laws env calm _ intent.to_account_id amount z _ exact refl receiver_HasRoom)
          ∙ bind_ok _ _ _ _ (
              insert_ok laws env calm raised_tx k intent.from_account_id credit amount
                intent.amount.currency claim _ exact (valid.bounded)
                (amount_positive laws intent exact db pay) parent refl (draws.entry_new _)
                (raised-matches _ _ (pay.sender_found) (pay.sender_currency)))
          ∙ insert_ok laws env calm (entered raised_tx (out _)) k intent.to_account_id debit amount
              intent.amount.currency claim _ exact (valid.bounded)
              (amount_positive laws intent exact db pay) parent refl (second_new _)
              (raised-matches _ _ (pay.receiver_found) (pay.receiver_currency))

      own_entries :
          (n : ℕ)
          → of_transaction k ((posted_tx n).tables.entries) ≡ into (suc (suc n)) ∷ out n ∷ []
      unfolding posted_tx raised_tx claimed_tx adjusted entered out into
      own_entries n =
          rw
            (
              ==_refl k,
              of_transaction_fresh k (transaction_ids db.transactions) db.entries new
                  (inv.well_formed.parented),
            )
            refl

      passes : (n : ℕ) → run_deferred ((posted_tx n).pending) ((posted_tx n).tables) ≡ ok tt
      unfolding posted_tx entered out into
      passes n =
          run_deferred_pair k (into (suc (suc n))) (out n) ((posted_tx n).tables) (own_entries n)
            refl (+ℤ_neg _)

      post_rows :
          (w : World)
          → post env claimed_tx k pay.sender.id pay.receiver.id intent.amount.amount
              intent.amount.currency w
            ≡ (
              ok (posted_tx (suc (suc w.step))),
              record w { step = suc (suc (suc (suc (suc (suc w.step))))) },
            )
      post_rows w =
          subst
            (λ i.
              post env claimed_tx k i pay.receiver.id intent.amount.amount intent.amount.currency w
              ≡ (
                ok (posted_tx (suc (suc w.step))),
                record w { step = suc (suc (suc (suc (suc (suc w.step))))) },
              ))
            (sym sender_id)
            (subst
              (λ j.
                post env claimed_tx k intent.from_account_id j intent.amount.amount
                  intent.amount.currency w
                ≡ (
                  ok (posted_tx (suc (suc w.step))),
                  record w { step = suc (suc (suc (suc (suc (suc w.step))))) },
                ))
              (sym receiver_id) (post_ok w))

      there : (n : ℕ) → find_transaction k ((posted_tx n).tables.transactions) ≡ some claim
      unfolding posted_tx entered
      there n = parent

      under_key : (n : ℕ) → find_key key ((posted_tx n).tables.transactions) ≡ some claim
      unfolding posted_tx entered raised_tx claimed_tx adjusted find_key claim
      under_key n = rw (text_eq_refl key) refl

      stored : (n : ℕ) → All IsStored (of_transaction k ((posted_tx n).tables.entries))
      unfolding out into
      stored n =
          let small =
            subst (λ y. magnitude y < numeric_limit)
              (sym (laws.stored_exact intent.amount.amount (valid.exact))) (valid.bounded) in
          subst (All IsStored) (sym (own_entries n)) (small, (small, tt))

      pub move_money-Returns :
          (w : World)
          → Returns
              (move_money env claimed_tx k intent)
              w
              (λ r w'. (r.outcome ≡ created) × IsAnswered key hash r.detail w'.db)
      unfolding move_money claimed_tx claim
      move_money-Returns w =
          Returns-then _ _ _ _
            (lock_ok laws env calm claimed_tx _ _ w (
              first_found _ _ (pay.sender) (pay.receiver) db.accounts (pay.two_accounts)
                (pay.sender_found) (pay.receiver_found)))
            (Returns-then _ _ _ _
              (lock_ok laws env calm claimed_tx _ _ _ (
                second_found _ _ (pay.sender) (pay.receiver) db.accounts (pay.two_accounts)
                  (pay.sender_found) (pay.receiver_found)))
              (Returns-then _ _ (to_row (pay.sender)) _
                (lift_ok _ _ (
                  ap or_panic (
                    locked_from _ _ (pay.sender) (pay.receiver) db.accounts (pay.two_accounts)
                      (pay.sender_found) (pay.receiver_found))))
                (Returns-then _ _ (to_row (pay.receiver)) _
                  (lift_ok _ _ (
                    ap or_panic (
                      locked_to _ _ (pay.sender) (pay.receiver) db.accounts (pay.two_accounts)
                        (pay.sender_found) (pay.receiver_found))))
                  (Returns-then _ _ tt _
                    (lift_ok _ _ (accounts_pass laws intent (valid.exact) db pay))
                    (Returns-then _ _ (posted_tx _) _ (post_rows _) (
                      Returns->>= _ _
                        (Returns-map_error _ _ (Returns-commit env calm _ _ (passes _)))
                        λ _ w1 e.
                          let (d, told) =
                            detail_of_fits laws k claim w1.db
                              (subst (λ (b : Db). find_transaction k b.transactions ≡ some claim)
                                (sym e) (there _))
                              (subst (λ (b : Db). All IsStored (of_transaction k b.entries)) (sym e)
                                (stored _)) in
                          Returns->>= _ _ (Returns-get env calm k d w1 told)
                            λ detail w2 (same, kept). Returns-pure _ (
                              refl,
                              subst (λ b. IsAnswered key hash detail b) (sym kept)
                                  (subst (λ x. IsAnswered key hash x w1.db) (sym same)
                                    (record {
                                      transaction = claim;
                                      recorded =
                                          subst
                                            (λ (b : Db). find_key key b.transactions ≡ some claim)
                                            (sym e) (under_key _);
                                      same_hash = refl;
                                      shown = told;
                                    })),
                            )))))))
