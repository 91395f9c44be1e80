-- ===== src/Db/Session/Writes.antt =====
-- A statement on the pool that writes keeps a property of the committed tables.
use ledger_rs.Prelude.{ℕ, suc, ◌≡◌, refl, Option, none, some, ok, err, panicked, Result}
use ledger_rs.Error.{SqlxError}
use ledger_rs.Schema.Rows.{Db}
use ledger_rs.Db.Session.{Env, World, write, now, publish, arrive, faulty}
use ledger_rs.Db.Session.Triples.{Outcome, Triple}

module _ (Safe : Db → Type 0) where
  -- A property that every result leaves is one of the tables after the action.
  pub Outcome-always :
      {E A : Type 0} (x : Result E A × World)
      → Outcome Safe {E = E} (λ (_ : A) db. Safe db) x
      → Safe x.1.db
  Outcome-always (ok a, w) h = h
  Outcome-always (err e, w) h = h
  Outcome-always (panicked, w) h = h

  pub always-Outcome :
      {E A : Type 0} (x : Result E A × World)
      → Safe x.1.db
      → Outcome Safe {E = E} (λ (_ : A) db. Safe db) x
  always-Outcome (ok a, w) h = h
  always-Outcome (err e, w) h = h
  always-Outcome (panicked, w) h = h

  pub Triple-now :
      (env : Env) {E : Type 0} {Pre : Db → Type 0}
      → Triple Safe {E = E} Pre (now env) (λ _ db. Pre db)
  unfolding now
  Triple-now env = record { at = λ w h. h }

module _ (Safe : Db → Type 0) (env : Env)
    (lawful : (n : ℕ) (db : Db) → Safe db → Safe (env.others n db)) where
  Kept : (f : Db → Result SqlxError Db) → Type 0
  Kept f =
      (db db' : Db) → f db ≡ ok db' → Safe db → Safe (record db' { next_xid = suc db'.next_xid })

  published :
      (r : Result SqlxError Db) (w : World)
      → Safe w.db
      → ((db' : Db) → r ≡ ok db' → Safe (record db' { next_xid = suc db'.next_xid }))
      → Outcome Safe (λ _ db. Safe db) (publish env r w)
  unfolding publish
  published (ok db') w h k = k db' refl
  published (err e) w h k = h
  published panicked w h k = h

  settled_by :
      (fault : Option SqlxError) (f : Db → Result SqlxError Db) (w : World)
      → Kept f
      → Safe w.db
      → Outcome Safe (λ _ db. Safe db) (publish env (faulty env fault (f w.db)) w)
  unfolding Kept
  settled_by none f w k h = published (f w.db) w h (λ db' e. k w.db db' e h)
  settled_by (some e) f w k h = published (err e) w h (λ db' e. cc)

  pub Triple-write :
      (f : Db → Result SqlxError Db)
      → ((db db' : Db)
          → f db ≡ ok db'
          → Safe db
          → Safe (record db' { next_xid = suc db'.next_xid }))
      → Triple Safe Safe (write env f) (λ _ db. Safe db)
  unfolding write Kept
  Triple-write f k = record {
    at = λ w h. settled_by (env.fault w.step) f (arrive env w) k (lawful w.step w.db h);
  }

-- A statement that succeeds has changed some tables, those that it found.
unfoldable pub Wrote : (Db → Result SqlxError Db) → Db → Type 0
Wrote f db =
    (before : Db) × (after : Db) × (f before ≡ ok after)
    × (db ≡ record after { next_xid = suc after.next_xid })

abbrev pub AnyTables : Db → Type 0
AnyTables db = Unit {0}

pub Triple-Wrote :
    (env : Env) (f : Db → Result SqlxError Db)
    → Triple AnyTables AnyTables (write env f) (λ _. Wrote f)
unfolding write publish Wrote
Triple-Wrote env f = record { at = λ w _. wrote (env.fault w.step) (arrive env w) _ refl }
  where
    wrote :
        (fault : Option SqlxError) (w : World) (r : Result SqlxError Db)
        → f w.db ≡ r
        → Outcome AnyTables (λ _. Wrote f) (publish env (faulty env fault r) w)
    wrote none w (ok after) e = (w.db, after, e, refl)
    wrote none w (err why) e = tt
    wrote none w panicked e = tt
    wrote (some why) w r e = tt
