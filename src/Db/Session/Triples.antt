-- ===== src/Db/Session/Triples.antt =====
-- Reasoning about a request step by step: a property of the committed tables before it, what its
-- value tells after it, and a property of the tables that every failure keeps.
use ledger_rs.Prelude.{
  ℕ, suc, ◌≡◌, refl, Bool, true, false, Option, none, some, [], Result, ok, err, panicked,
}
use ledger_rs.Error.{SqlxError}
use ledger_rs.Schema.Rows.{Db}
use ledger_rs.Schema.Deferred.{run_deferred}
use ledger_rs.Db.Session.{
  Env, World, Tx, Action, ◌>>=◌, pure, raise, lift, map_error, attempt, read, run, begin, commit,
  rollback, new_v4, tick, arrive, faulty, settle,
}

module _ (Safe : Db → Type 0) where
  -- What a result says of the tables that it leaves.
  abbrev pub Outcome : {E A : Type 0} → (A → Db → Type 0) → Result E A × World → Type 0
  Outcome Post (ok a, w) = Post a w.db
  Outcome Post (err e, w) = Safe w.db
  Outcome Post (panicked, w) = Safe w.db

  -- From tables with `Pre` the action fails with `Safe`, or gives a value with `Post`.
  pub record Triple {E A : Type 0} (Pre : Db → Type 0) (m : Action E A) (Post : A → Db → Type 0)
      : Type 0 where
    pub at : (w : World) → Pre w.db → Outcome Post (m w)

  module _ {E A B : Type 0} where
    bind-Outcome :
        {Mid : A → Db → Type 0} {Post : B → Db → Type 0} (f : A → Action E B)
        (x : Result E A × World)
        → Outcome Mid x
        → ((a : A) → Triple (Mid a) (f a) Post)
        → Outcome Post (((λ (_ : World). x) >>= f) x.1)
    unfolding ◌>>=◌
    bind-Outcome f (ok a, w) h k = (k a).at w h
    bind-Outcome f (err e, w) h k = h
    bind-Outcome f (panicked, w) h k = h

    -- One step and what follows it.
    pub Triple->>= :
        {Pre : Db → Type 0} {Mid : A → Db → Type 0} {Post : B → Db → Type 0} (m : Action E A)
        (f : A → Action E B)
        → Triple Pre m Mid
        → ((a : A) → Triple (Mid a) (f a) Post)
        → Triple Pre (m >>= f) Post
    unfolding ◌>>=◌
    Triple->>= m f t k = record { at = λ w h. bind-Outcome f (m w) (t.at w h) k }

  -- A step that touches no table: what it gives is what its result says.
  pub Triple-lift :
      {E A : Type 0} {Pre : Db → Type 0} (r : Result E A)
      → ((db : Db) → Pre db → Safe db)
      → Triple Pre (lift r) (λ a db. Pre db × (r ≡ ok a))
  unfolding lift
  Triple-lift {Pre = Pre} r safe = record { at = λ w h. lifted r w h }
    where
      lifted :
          {E A : Type 0} (r : Result E A) (w : World)
          → Pre w.db
          → Outcome {E = E} (λ (a : A) db. Pre db × (r ≡ ok a)) (r, w)
      lifted (ok a) w h = (h, refl)
      lifted (err e) w h = safe w.db h
      lifted panicked w h = safe w.db h

  pub Triple-pure :
      {E A : Type 0} {Pre : Db → Type 0} {Post : A → Db → Type 0} (a : A)
      → ((db : Db) → Pre db → Post a db)
      → Triple {E = E} Pre (pure a) Post
  unfolding pure
  Triple-pure a h = record { at = λ w p. h w.db p }

  pub Triple-raise :
      {E A : Type 0} {Pre : Db → Type 0} {Post : A → Db → Type 0} (e : E)
      → ((db : Db) → Pre db → Safe db)
      → Triple Pre (raise e) Post
  unfolding raise
  Triple-raise e safe = record { at = λ w h. safe w.db h }

  pub Triple-map_error :
      {E F A : Type 0} {Pre : Db → Type 0} {Post : A → Db → Type 0} (g : E → F) (m : Action E A)
      → Triple Pre m Post
      → Triple Pre (map_error g m) Post
  unfolding map_error
  Triple-map_error g m t = record { at = λ w h. mapped _ g (m w) (t.at w h) }
    where
      mapped :
          {E F A : Type 0} (Post : A → Db → Type 0) (g : E → F) (x : Result E A × World)
          → Outcome Post x
          → Outcome {E = F} Post (map_error g (λ _. x) x.1)
      mapped Post g (ok a, w) h = h
      mapped Post g (err e, w) h = h
      mapped Post g (panicked, w) h = h

  -- A fact that the tables before the step show.
  pub Triple-given :
      {E A : Type 0} {Pre : Db → Type 0} {Post : A → Db → Type 0} (Fact : Type 0) (m : Action E A)
      → ((db : Db) → Pre db → Fact)
      → (Fact → Triple Pre m Post)
      → Triple Pre m Post
  Triple-given Fact m fact t = record { at = λ w h. (t (fact w.db h)).at w h }

  pub Triple-weaken :
      {E A : Type 0} {Pre Pre' : Db → Type 0} {Post Post' : A → Db → Type 0} (m : Action E A)
      → Triple Pre m Post
      → ((db : Db) → Pre' db → Pre db)
      → ((a : A) (db : Db) → Post a db → Post' a db)
      → Triple Pre' m Post'
  Triple-weaken {E = E} {A = A} {Post = Post} {Post' = Post'} m t before after = record {
    at = λ w h. weakened (m w) (t.at w (before w.db h));
  }
    where
      weakened : (x : Result E A × World) → Outcome Post x → Outcome Post' x
      weakened (ok a, w) h = after a w.db h
      weakened (err e, w) h = h
      weakened (panicked, w) h = h

  module _ (env : Env) where
    -- A statement in the open transaction publishes nothing.
    pub Triple-run :
        {A : Type 0} {Pre : Db → Type 0} (r : Result SqlxError A)
        → ((db : Db) → Pre db → Safe db)
        → Triple Pre (run env r) (λ a db. Pre db × (r ≡ ok a))
    unfolding run
    Triple-run {A} {Pre} r safe = record { at = λ w h. ran r (env.fault w.step) w h }
      where
        ran :
            (r : Result SqlxError A) (fault : Option SqlxError) (w : World)
            → Pre w.db
            → Outcome {E = SqlxError}
                (λ (a : A) db. Pre db × (r ≡ ok a))
                (faulty env fault r, tick env w)
        ran (ok a) none w h = (h, refl)
        ran (err e) none w h = safe w.db h
        ran panicked none w h = safe w.db h
        ran r (some e) w h = safe w.db h

    -- Its failure is a value like another.
    pub Triple-attempt-run :
        {F A : Type 0} {Pre : Db → Type 0} (r : Result SqlxError A)
        → ((db : Db) → Pre db → Safe db)
        → Triple {E = F} Pre
            (attempt (run env r))
            (λ x db. Pre db × ((a : A) → x ≡ ok a → r ≡ ok a))
    unfolding run attempt
    Triple-attempt-run {F} {A} {Pre} r safe = record { at = λ w h. tried r (env.fault w.step) w h }
      where
        tried :
            (r : Result SqlxError A) (fault : Option SqlxError) (w : World)
            → Pre w.db
            → Outcome {E = F}
                (λ (x : Result SqlxError A) db. Pre db × ((a : A) → x ≡ ok a → r ≡ ok a))
                (attempt {F = F} (λ _. (faulty env fault r, tick env w)) w)
        tried (ok a) none w h = (h, λ b e. e)
        tried (err e) none w h = (h, λ b e. e)
        tried panicked none w h = safe w.db h
        tried r (some e) w h = (h, λ b e. cc)

    pub Triple-new_v4 :
        {E : Type 0} {Pre : Db → Type 0} → Triple {E = E} Pre (new_v4 env) (λ _ db. Pre db)
    unfolding new_v4
    Triple-new_v4 = record { at = λ w h. h }

    pub Triple-rollback :
        {Pre : Db → Type 0}
        → ((db : Db) → Pre db → Safe db)
        → Triple Pre (rollback env) (λ _ db. Safe db)
    unfolding rollback
    Triple-rollback safe = record { at = λ w h. rolled (env.fault w.step) w (safe w.db h) }
      where
        rolled :
            (fault : Option SqlxError) (w : World)
            → Safe w.db
            → Outcome (λ _ db. Safe db) (faulty env fault (ok tt), tick env w)
        rolled none w h = h
        rolled (some e) w h = h

    -- A commit publishes the tables of the transaction if the deferred triggers pass them.
    pub Triple-commit :
        {Pre Post : Db → Type 0} (tx : Tx)
        → ((db : Db) → Pre db → Safe db)
        → ((db : Db) → Pre db → run_deferred tx.pending tx.tables ≡ ok tt → Post tx.tables)
        → ((db : Db) → Post db → Safe db)
        → Triple Pre (commit env tx) (λ _ db. Post db)
    unfolding commit
    Triple-commit {Pre} {Post} tx safe passed published = record {
      at = λ w h.
          settled (run_deferred tx.pending tx.tables) (env.fault w.step) (env.applied w.step) w
            (safe w.db h) (passed w.db h);
    }
      where
        settled :
            (r : Result SqlxError (Unit {0})) (fault : Option SqlxError) (applied : Bool)
            (w : World)
            → Safe w.db
            → (r ≡ ok tt → Post tx.tables)
            → Outcome (λ _ db. Post db) (settle env r fault applied tx.tables (tick env w))
        settled (ok tt) none applied w h k = k refl
        settled (ok tt) (some e) true w h k = published tx.tables (k refl)
        settled (ok tt) (some e) false w h k = h
        settled (err e) fault applied w h k = h
        settled panicked fault applied w h k = h

    module _ (lawful : (n : ℕ) (db : Db) → Safe db → Safe (env.others n db)) where
      pub Triple-read : {A : Type 0} (f : Db → A) → Triple Safe (read env f) (λ _ db. Safe db)
      unfolding read
      Triple-read {A} f = record {
        at = λ w h.
            answered (env.fault w.step) (f (arrive env w).db) (arrive env w) (lawful w.step w.db h);
      }
        where
          answered :
              (fault : Option SqlxError) (a : A) (w : World)
              → Safe w.db
              → Outcome (λ _ db. Safe db) (faulty env fault (ok a), w)
          answered none a w h = h
          answered (some e) a w h = h

      pub Triple-begin :
          ((db : Db) → Safe db → Safe (record db { next_xid = suc db.next_xid }))
          → Triple Safe (begin env) (λ tx db. Safe db × (tx.tables ≡ db) × (tx.pending ≡ []))
      unfolding begin
      Triple-begin numbered = record {
        at = λ w h.
            let db = env.others w.step w.db in
            began (env.fault w.step) db.next_xid (env.now w.step)
              (record (arrive env w) { db = record db { next_xid = suc db.next_xid } })
              (numbered db (lawful w.step w.db h));
      }
        where
          began :
              (fault : Option SqlxError) (xid time : ℕ) (w : World)
              → Safe w.db
              → Outcome
                  (λ (tx : Tx) db. Safe db × (tx.tables ≡ db) × (tx.pending ≡ []))
                  (
                    faulty env fault
                        (ok (record { tables = w.db; xid = xid; started = time; pending = [] })),
                    w,
                  )
          began none xid time w h = (h, refl, refl)
          began (some e) xid time w h = h

-- A weaker property of the tables that failures keep.
pub Triple-relax :
    {E A : Type 0} {Pre : Db → Type 0} {Post : A → Db → Type 0} (Safe Safe' : Db → Type 0)
    (m : Action E A)
    → Triple Safe Pre m Post
    → ((db : Db) → Safe db → Safe' db)
    → Triple Safe' Pre m Post
Triple-relax {E} {A} {Pre} {Post} Safe Safe' m t weaker = record {
  at = λ w h. relaxed (m w) (t.at w h);
}
  where
    relaxed : (x : Result E A × World) → Outcome Safe Post x → Outcome Safe' Post x
    relaxed (ok a, w) h = h
    relaxed (err e, w) h = weaker w.db h
    relaxed (panicked, w) h = weaker w.db h
