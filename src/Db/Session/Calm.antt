-- ===== src/Db/Session/Calm.antt =====
-- Steps that are carried out: no statement fails and no other session commits.
use ledger_rs.Prelude.{ℕ, suc, ◌≡◌, refl, ap, ◌∙◌, none, [], Result, ok, err, panicked}
use ledger_rs.Prelude
use ledger_rs.Error.{SqlxError}
use ledger_rs.Schema.Rows.{Db}
use ledger_rs.Schema.Deferred.{run_deferred}
use ledger_rs.Db.Session.{
  Env, World, Tx, Action, ◌>>=◌, pure, lift, map_error, attempt, read, run, begin, commit, new_v4,
  tick, arrive, settle,
}

pub record IsCalm (env : Env) : Type 0 where
  pub alone : (n : ℕ) (db : Db) → env.others n db ≡ db
  pub faultless : (n : ℕ) → env.fault n ≡ none

-- The action gives a value, in a world that it leaves, with a property of both.
pub record Returns {E A : Type 0} (m : Action E A) (w : World) (Q : A → World → Type 0)
    : Type 0 where
  pub value : A
  pub left : World
  pub runs : m w ≡ (ok value, left)
  pub holds : Q value left

module _ {E A : Type 0} {w : World} where
  pub Returns->>= :
      {B : Type 0} {Q : A → World → Type 0} {R : B → World → Type 0} (m : Action E A)
      (f : A → Action E B)
      → Returns m w Q
      → ((a : A) (w' : World) → Q a w' → Returns (f a) w' R)
      → Returns (m >>= f) w R
  unfolding ◌>>=◌
  Returns->>= m f t k =
      let next = k t.value t.left t.holds in
      record {
        value = next.value;
        left = next.left;
        runs = ap (λ (x : Result E A × World). ((λ (_ : World). x) >>= f) w) t.runs ∙ next.runs;
        holds = next.holds;
      }

  -- The same, where the value and the world are known.
  pub bind_ok :
      {B : Type 0} (m : Action E A) (f : A → Action E B) (a : A) (u : World)
      → m w ≡ (ok a, u)
      → (m >>= f) w ≡ f a u
  unfolding ◌>>=◌
  bind_ok m f a u e = ap (λ (x : Result E A × World). ((λ (_ : World). x) >>= f) w) e

  -- The same for a step that fails.
  pub bind_err :
      {B : Type 0} (m : Action E A) (f : A → Action E B) (e : E) (u : World)
      → m w ≡ (err e, u)
      → (m >>= f) w ≡ (err e, u)
  unfolding ◌>>=◌
  bind_err m f e u p = ap (λ (x : Result E A × World). ((λ (_ : World). x) >>= f) w) p

  pub Returns-then :
      {B : Type 0} {R : B → World → Type 0} (m : Action E A) (f : A → Action E B) (a : A)
      (u : World)
      → m w ≡ (ok a, u)
      → Returns (f a) u R
      → Returns (m >>= f) w R
  Returns-then m f a u e k = record {
    value = k.value;
    left = k.left;
    runs = bind_ok m f a u e ∙ k.runs;
    holds = k.holds;
  }

  pub lift_ok : (r : Result E A) (a : A) → r ≡ ok a → lift r w ≡ (ok a, w)
  unfolding lift
  lift_ok r a e = ap (λ (x : Result E A). (x, w)) e

  pub Returns-lift :
      (r : Result E A) (a : A) → r ≡ ok a → Returns (lift r) w (λ x w'. (x ≡ a) × (w' ≡ w))
  unfolding lift
  Returns-lift r a e = record {
    value = a;
    left = w;
    runs = ap (λ (x : Result E A). (x, w)) e;
    holds = (refl, refl);
  }

  pub Returns-pure : {Q : A → World → Type 0} (a : A) → Q a w → Returns {E = E} (pure a) w Q
  unfolding pure
  Returns-pure a q = record { value = a; left = w; runs = refl; holds = q }

  pub Returns-map_error :
      {F : Type 0} {Q : A → World → Type 0} (g : E → F) (m : Action E A)
      → Returns m w Q
      → Returns (map_error g m) w Q
  unfolding map_error
  Returns-map_error g m t = record {
    value = t.value;
    left = t.left;
    runs = ap (λ (x : Result E A × World). map_error g (λ (_ : World). x) w) t.runs;
    holds = t.holds;
  }

  pub Returns-attempt :
      {F : Type 0} {Q : A → World → Type 0} (m : Action E A)
      → Returns m w Q
      → Returns {E = F} (attempt m) w (λ r w'. (a : A) × (r ≡ ok a) × Q a w')
  unfolding attempt
  Returns-attempt m t = record {
    value = ok t.value;
    left = t.left;
    runs = ap (λ (x : Result E A × World). attempt (λ (_ : World). x) w) t.runs;
    holds = (t.value, refl, t.holds);
  }

  pub Returns-weaken :
      {Q R : A → World → Type 0} (m : Action E A)
      → Returns m w Q
      → ((a : A) (w' : World) → Q a w' → R a w')
      → Returns m w R
  Returns-weaken m t k = record {
    value = t.value;
    left = t.left;
    runs = t.runs;
    holds = k t.value t.left t.holds;
  }

-- A row that is lifted decides what follows.
pub lift_value :
    {E A B : Type 0} (r : Result E A) (f : A → Action E B) (g : A → Result E B) (w : World)
    → ((a : A) → (f a w).0 ≡ g a)
    → ((lift r >>= f) w).0 ≡ Prelude.◌>>=◌ r g
unfolding lift ◌>>=◌
lift_value (ok a) f g w h = h a
lift_value (err e) f g w h = refl
lift_value panicked f g w h = refl

module _ (env : Env) (calm : IsCalm env) (w : World) where
  pub Returns-read :
      {A : Type 0} (f : Db → A) → Returns (read env f) w (λ a w'. (a ≡ f w.db) × (w'.db ≡ w.db))
  unfolding read
  Returns-read f = record {
    value = f w.db;
    left = arrive env w;
    runs = rw (calm.faultless w.step, calm.alone w.step w.db) refl;
    holds = (refl, calm.alone w.step w.db);
  }

  -- A statement that the open transaction carries out.
  pub run_ok :
      {A : Type 0} (r : Result SqlxError A) (a : A) → r ≡ ok a → run env r w ≡ (ok a, tick env w)
  unfolding run
  run_ok r a e = rw (calm.faultless w.step, e) refl

  pub map_error-run :
      {F A : Type 0} (g : SqlxError → F) (r : Result SqlxError A) (a : A)
      → r ≡ ok a
      → map_error g (run env r) w ≡ (ok a, tick env w)
  unfolding map_error
  map_error-run {A = A} g r a e =
      ap (λ (x : Result SqlxError A × World). map_error g (λ (_ : World). x) w) (run_ok r a e)

  pub new_v4_ok : {E : Type 0} → new_v4 env {E = E} w ≡ (ok (env.uuid w.step), tick env w)
  unfolding new_v4
  new_v4_ok = refl

  pub begin_ok :
      let db = record (w.db) { next_xid = suc w.db.next_xid } in
      begin env w ≡ (
        ok (record { tables = db; xid = w.db.next_xid; started = env.now w.step; pending = [] }),
        record { db = db; step = suc w.step },
      )
  unfolding begin
  begin_ok = rw (calm.faultless w.step, calm.alone w.step w.db) refl

  pub Returns-commit :
      (tx : Tx)
      → run_deferred tx.pending tx.tables ≡ ok tt
      → Returns (commit env tx) w (λ _ w'. w'.db ≡ tx.tables)
  unfolding commit settle
  Returns-commit tx passed = record {
    value = tt;
    left = record (tick env w) { db = tx.tables };
    runs = rw (passed, calm.faultless w.step) refl;
    holds = refl;
  }

  pub map_error-begin :
      {F : Type 0} (g : SqlxError → F)
      → let db = record (w.db) { next_xid = suc w.db.next_xid } in
        map_error g (begin env) w ≡ (
          ok (record { tables = db; xid = w.db.next_xid; started = env.now w.step; pending = [] }),
          record { db = db; step = suc w.step },
        )
  unfolding map_error
  map_error-begin g =
      ap (λ (x : Result SqlxError Tx × World). map_error g (λ (_ : World). x) w) begin_ok

  pub attempt-run :
      {F A : Type 0} (r : Result SqlxError A) (a : A)
      → r ≡ ok a
      → attempt {F = F} (run env r) w ≡ (ok (ok a), tick env w)
  unfolding attempt
  attempt-run {F = F} {A = A} r a e =
      ap (λ (x : Result SqlxError A × World). attempt {F = F} (λ (_ : World). x) w) (run_ok r a e)

  read_ok : {A : Type 0} (f : Db → A) → read env f w ≡ (ok (f w.db), record w { step = suc w.step })
  unfolding read
  read_ok f = rw (calm.faultless w.step, calm.alone w.step w.db) refl

  pub map_error-read :
      {F A : Type 0} (g : SqlxError → F) (f : Db → A)
      → map_error g (read env f) w ≡ (ok (f w.db), record w { step = suc w.step })
  unfolding map_error
  map_error-read {A = A} g f =
      ap (λ (x : Result SqlxError A × World). map_error g (λ (_ : World). x) w) (read_ok f)
