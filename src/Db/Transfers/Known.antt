-- ===== src/Db/Transfers/Known.antt =====
-- A key that is recorded never pays again.
use ledger_rs.Prelude.{
  ℕ, ◌≡◌, ◌≢◌, ◌⊎◌, refl, sym, ap, subst, ◌∙◌, inl, inr, some, Option-cases, List, [], ◌∷◌, Result,
  ok, err, panicked, Bool-cases, arith, ok_injective, ok_or-eq-ok,
}
use ledger_rs.Prelude.Text.{Text, text_eq, text_eq→eq}
use ledger_rs.Decimal.{Decimal}
use ledger_rs.Domain.Fingerprint.{TransferIntent, Digest, request_hash, replayed}
use ledger_rs.Error.{SqlxError, LedgerError, idempotency_key_conflict, database}
use ledger_rs.Schema.Rows.{Db, TransactionRecord, find_transaction}
use ledger_rs.Db.Session.{Env, World, arrive, read, map_error}
use ledger_rs.Db.Session.Calm.{bind_ok, bind_err}
use ledger_rs.Db.Session.Triples.{
  Outcome, Triple, Triple->>=, Triple-lift, Triple-pure, Triple-map_error, Triple-weaken,
  Triple-read, Triple-given,
}
use ledger_rs.Db.Session.Seen.{Triple-read_seen}
use ledger_rs.Db.Transactions.{IdempotencyRecord, find_by_idempotency_key, select_key, get}
use ledger_rs.Db.Transfers.{TransferResult, replay, execute_once, execute}
use ledger_rs.Db.Transfers.Loop.{execute-After}
use ledger_rs.Db.Transfers.Replay.{replay-conflict, found}
use ledger_rs.Db.Transfers.ExactlyOnce.{Meanwhile, untouched, then_others}

-- Other sessions leave what is recorded under the key.
abbrev pub KeepsRecord : Env → Text → Type 0
KeepsRecord env key =
    (n : ℕ) (db : Db) (r : IdempotencyRecord)
    → select_key key db ≡ some r
    → select_key key (env.others n db) ≡ some r

find_transaction_id :
    (id : ℕ) (ts : List TransactionRecord) (t : TransactionRecord)
    → find_transaction id ts ≡ some t
    → t.id ≡ id
unfolding find_transaction
find_transaction_id id [] t h = cc
find_transaction_id id (x ∷ ts) t h = ground (arith, find_transaction_id id ts t)

module _ (env : Env) (key : Text) (keeping : KeepsRecord env key) (r : IdempotencyRecord)
    (start : Db) where
  -- The tables after what others did, with the record.
  abbrev Kept : Db → Type 0
  Kept db = Meanwhile env start db × (select_key key db ≡ some r)

  lawful : (n : ℕ) (db : Db) → Kept db → Kept (env.others n db)
  lawful n db (h, e) = (then_others start db n h, keeping n db r e)

  module _ {D : Type 0} ⦃dec : Decimal D⦄ (hash : List ℕ) where
    get-id :
        (id : ℕ)
        → Triple Kept {E = LedgerError} Kept
            (get {D = D} env id)
            (λ d db. Kept db × (d.transaction.id ≡ id))
    unfolding get
    get-id id =
        Triple->>= Kept _ _ (Triple-map_error Kept _ _ (Triple-read_seen Kept env lawful _))
          λ found. Triple->>= Kept _ _ (Triple-lift Kept _ (λ db h. h.0)) λ transaction.
            Triple-given Kept (transaction.id ≡ id) _
              (λ db h.
                find_transaction_id id db.transactions transaction
                  (sym h.0.1 ∙ ok_or-eq-ok _ found h.1))
              λ same.
                Triple->>= Kept _ _
                  (Triple-map_error Kept _ _ (
                    Triple-weaken Kept _ (Triple-read Kept env lawful _) (λ db h. h.0.0)
                      (λ a db h. h)))
                  λ rows.
                    Triple->>= Kept _ _ (Triple-lift Kept _ (λ db h. h))
                      λ entries. Triple-pure Kept _ (λ db h. (h.0, same))

    -- A replay of the recorded transaction.
    abbrev pub IsReplayed : TransferResult D → Type 0
    IsReplayed x = (x.outcome ≡ replayed) × (x.detail.transaction.id ≡ r.transaction_id)

    replay-IsReplayed :
        Triple Kept Kept (replay {D = D} env key r hash) (λ x db. Kept db × IsReplayed x)
    unfolding replay
    replay-IsReplayed = Triple->>= Kept _ _ (Triple-lift Kept _ (λ db h. h)) λ _.
        Triple->>= Kept _ _
          (Triple-weaken Kept _ (get-id r.transaction_id) (λ db h. h.0) (λ a db h. h))
          λ detail. Triple-pure Kept _ (λ db h. (h.0, (refl, h.1)))

    -- What the result tells: a replay for the request that was recorded; for another one a
    -- conflict, or that a statement failed.
    abbrev pub IsAnswer : Result LedgerError (TransferResult D) → Type 0
    IsAnswer (ok x) = (r.request_hash ≡ hash) × IsReplayed x
    IsAnswer (err e) =
        r.request_hash ≢ hash
        → (e ≡ idempotency_key_conflict key)
          ⊎ ((n : ℕ) × (f : SqlxError) × (env.fault n ≡ some f) × (e ≡ database f))
    IsAnswer panicked = r.request_hash ≡ hash

    abbrev Answered : Result LedgerError (TransferResult D) × World → Type 0
    Answered (x, w) = Kept w.db × IsAnswer x

    replay-Answered :
        (dg : Digest) (intent : TransferIntent D) (w : World)
        → Kept w.db
        → Answered (replay env key r hash w)
    replay-Answered dg intent w h = elim (Bool-cases (text_eq r.request_hash hash)) [
      | inl same ↦ told (replay env key r hash w) (text_eq→eq _ _ same) (replay-IsReplayed.at w h)
      | inr other ↦
          subst Answered (sym (replay-conflict env dg key intent r hash w other)) (h, λ _. inl refl)
    ]
      where
        told :
            (x : Result LedgerError (TransferResult D) × World)
            → r.request_hash ≡ hash
            → Outcome Kept (λ x db. Kept db × IsReplayed x) x
            → Answered x
        told (ok x, w) same (k, y) = (k, (same, y))
        told (err e, w) same k = (k, λ differ. absurd (differ same))
        told (panicked, w) same k = (k, same)

module _ {D : Type 0} ⦃dec : Decimal D⦄ (env : Env) (dg : Digest) (key : Text)
    (intent : TransferIntent D) where
  unread :
      (w : World) (f : SqlxError)
      → env.fault w.step ≡ some f
      → find_by_idempotency_key env key w ≡ (err (database f), arrive env w)
  unfolding find_by_idempotency_key map_error read
  unread w f e = rw (e, read, map_error) refl

  -- The lookup of the key has failed.
  lookup_failed :
      (w : World) (f : SqlxError)
      → env.fault w.step ≡ some f
      → execute_once env dg key intent w ≡ (err (database f), arrive env w)
  unfolding execute_once
  lookup_failed w f e = bind_err _ _ _ _ (unread w f e)

  module _ (keeping : KeepsRecord env key) (r : IdempotencyRecord) (start : Db) where
    once-Answered :
        (w : World)
        → Kept env key keeping r start w.db
        → Answered env key keeping r start
            (request_hash dg intent)
            (execute_once env dg key intent w)
    unfolding execute_once
    once-Answered w h = elim (Option-cases (env.fault w.step)) [
      | inr (f, failed) ↦
          subst (Answered env key keeping r start (request_hash dg intent))
            (sym (lookup_failed w f failed))
            (lawful env key keeping r start w.step w.db h, λ _. inr (w.step, f, failed, refl))
      | inl reached ↦
          let kept = lawful env key keeping r start w.step w.db h in
          subst (Answered env key keeping r start (request_hash dg intent))
            (sym (bind_ok _ _ _ _ (found env dg key intent w reached (some r) kept.1)))
            (replay-Answered env key keeping r start (request_hash dg intent) dg intent
              (arrive env w) kept)
    ]

  -- Where a key is recorded, and other sessions leave it so, a call of `execute` under it writes
  -- nothing of its own, over all its attempts and whichever statements fail: the tables after it are
  -- what the others made of them. If it returns a transaction, then the recorded one, as a replay,
  -- and the request has the recorded fingerprint. For a request with another fingerprint it answers
  -- with a conflict of the key, unless a statement has failed, whose error is then the answer.
  pub execute_known_key :
      KeepsRecord env key
      → (r : IdempotencyRecord) (w : World) → select_key key w.db ≡ some r
      → let (x, w') = execute env dg key intent w in
        Meanwhile env w.db w'.db
        × ((y : TransferResult D)
            → x ≡ ok y
            → (y.outcome ≡ replayed)
              × (y.detail.transaction.id ≡ r.transaction_id)
              × (r.request_hash ≡ request_hash dg intent))
        × (r.request_hash ≢ request_hash dg intent
            → (x ≡ err (idempotency_key_conflict key))
              ⊎ ((n : ℕ) × (f : SqlxError) × (env.fault n ≡ some f) × (x ≡ err (database f))))
  execute_known_key keeping r w recorded = read_off (execute env dg key intent w) (
      execute-After env dg key intent (λ u. Kept env key keeping r w.db u.db)
        (Answered env key keeping r w.db (request_hash dg intent)) (once-Answered keeping r w.db)
        (λ x a. a.0) w (untouched w.db, recorded))
    where
      read_off :
          (x : Result LedgerError (TransferResult D) × World)
          → Answered env key keeping r w.db (request_hash dg intent) x
          → Meanwhile env w.db x.1.db
            × ((y : TransferResult D)
                → x.0 ≡ ok y
                → (y.outcome ≡ replayed)
                  × (y.detail.transaction.id ≡ r.transaction_id)
                  × (r.request_hash ≡ request_hash dg intent))
            × (r.request_hash ≢ request_hash dg intent
                → (x.0 ≡ err (idempotency_key_conflict key))
                  ⊎ ((n : ℕ) × (f : SqlxError) × (env.fault n ≡ some f) × (x.0 ≡ err (database f))))
      read_off (ok y, u) ((h, _), (same, (again, id))) = (
        h,
        λ z e.
            subst
              (λ (t : TransferResult D).
                (t.outcome ≡ replayed)
                × (t.detail.transaction.id ≡ r.transaction_id)
                × (r.request_hash ≡ request_hash dg intent))
              (ok_injective e) (again, id, same),
        λ differ. absurd (differ same),
      )
      read_off (err e, u) ((h, _), told) = (
        h,
        λ y p. cc,
        λ differ. elim (told differ) [
          | inl conflict ↦ inl (ap err conflict)
          | inr (n, f, failed, from) ↦ inr (n, f, failed, ap err from)
        ],
      )
      read_off (panicked, u) ((h, _), same) = (h, λ y p. cc, λ differ. absurd (differ same))
