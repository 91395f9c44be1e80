-- ===== src/Db/Session/Seen.antt =====
-- Beside other sessions a read sees the tables as they have left them.
use ledger_rs.Prelude.{ℕ, ◌≡◌, refl, Option, none, some, ok}
use ledger_rs.Error.{SqlxError}
use ledger_rs.Schema.Rows.{Db}
use ledger_rs.Db.Session.{Env, World, read, arrive, faulty}
use ledger_rs.Db.Session.Triples.{Outcome, Triple}

module _ (Safe : Db → Type 0) (env : Env)
    (lawful : (n : ℕ) (db : Db) → Safe db → Safe (env.others n db)) where
  pub Triple-read_seen :
      {A : Type 0} (f : Db → A) → Triple Safe Safe (read env f) (λ a db. Safe db × (a ≡ f db))
  unfolding read
  Triple-read_seen {A} f = record {
    at = λ w h. answered (env.fault w.step) (arrive env w) (lawful w.step w.db h);
  }
    where
      answered :
          (fault : Option SqlxError) (w : World)
          → Safe w.db
          → Outcome Safe (λ (a : A) db. Safe db × (a ≡ f db)) (faulty env fault (ok (f w.db)), w)
      answered none w h = (h, refl)
      answered (some e) w h = h
