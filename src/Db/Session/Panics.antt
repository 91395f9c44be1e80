-- ===== src/Db/Session/Panics.antt =====
-- Code that does not panic, whatever the server, other sessions and the clock do.
use ledger_rs.Prelude.{
  ◌≡◌, ◌≢◌, refl, Bool, true, false, Option, none, some, Result, ok, err, panicked, fail_if, ok_or,
  map_err,
}
use ledger_rs.Prelude
use ledger_rs.Error.{SqlxError}
use ledger_rs.Schema.Rows.{Db}
use ledger_rs.Schema.Deferred.{run_deferred}
use ledger_rs.Db.Session.{
  Env, World, Tx, Action, ◌>>=◌, pure, raise, lift, map_error, attempt, read, write, publish, run,
  begin, commit, settle, rollback, new_v4, now, faulty,
}

module _ {E A : Type 0} where
  abbrev pub Returned : Result E A → Type 0
  Returned r = r ≢ panicked

  pub ok-Returned : (a : A) → Returned (ok a)
  ok-Returned a h = cc

  pub err-Returned : (e : E) → Returned (err e)
  err-Returned e h = cc

  pub ok_or-Returned : (e : E) (o : Option A) → Returned (ok_or e o)
  ok_or-Returned e none h = cc
  ok_or-Returned e (some a) h = cc

  pub record NeverPanics (m : Action E A) : Type 0 where
    pub returns : (w : World) → Returned (m w).0

pub fail_if-Returned : {E : Type 0} (b : Bool) (e : E) → Returned (fail_if b e)
fail_if-Returned true e h = cc
fail_if-Returned false e h = cc

pub chain-Returned :
    {E A B : Type 0} (r : Result E A) (f : A → Result E B)
    → Returned r
    → ((a : A) → Returned (f a))
    → Returned (Prelude.◌>>=◌ r f)
chain-Returned (ok a) f p q = q a
chain-Returned (err e) f p q = λ h. cc
chain-Returned panicked f p q = λ h. p refl

pub map_err-Returned :
    {E F A : Type 0} (g : E → F) (r : Result E A) → Returned r → Returned (map_err g r)
map_err-Returned g (ok a) p h = cc
map_err-Returned g (err e) p h = cc
map_err-Returned g panicked p h = p refl

module _ {E A : Type 0} where
  pub NeverPanics->>= :
      {B : Type 0} (m : Action E A) (f : A → Action E B)
      → NeverPanics m
      → ((a : A) → NeverPanics (f a))
      → NeverPanics (m >>= f)
  unfolding ◌>>=◌
  NeverPanics->>= {B} m f p q = record { returns = λ w. onward (m w) (p.returns w) }
    where
      onward : (x : Result E A × World) → Returned x.0 → Returned (((λ (_ : World). x) >>= f) x.1).0
      onward (ok a, w) r = (q a).returns w
      onward (err e, w) r = λ h. cc
      onward (panicked, w) r = λ h. r refl

  pub NeverPanics-lift : (r : Result E A) → Returned r → NeverPanics (lift r)
  unfolding lift
  NeverPanics-lift r p = record { returns = λ w. p }

  pub NeverPanics-pure : (a : A) → NeverPanics {E = E} (pure a)
  unfolding pure
  NeverPanics-pure a = record { returns = λ w h. cc }

  pub NeverPanics-raise : (e : E) → NeverPanics {A = A} (raise e)
  unfolding raise
  NeverPanics-raise e = record { returns = λ w h. cc }

  pub NeverPanics-map_error :
      {F : Type 0} (g : E → F) (m : Action E A) → NeverPanics m → NeverPanics (map_error g m)
  unfolding map_error
  NeverPanics-map_error {F} g m p = record { returns = λ w. mapped (m w) (p.returns w) }
    where
      mapped :
          (x : Result E A × World) → Returned x.0 → Returned (map_error g (λ (_ : World). x) x.1).0
      mapped (ok a, w) r = λ h. cc
      mapped (err e, w) r = λ h. cc
      mapped (panicked, w) r = λ h. r refl

  pub NeverPanics-attempt :
      {F : Type 0} (m : Action E A) → NeverPanics m → NeverPanics {E = F} (attempt m)
  unfolding attempt
  NeverPanics-attempt {F} m p = record { returns = λ w. tried (m w) (p.returns w) }
    where
      tried :
          (x : Result E A × World)
          → Returned x.0
          → Returned (attempt {F = F} (λ (_ : World). x) x.1).0
      tried (ok a, w) r = λ h. cc
      tried (err e, w) r = λ h. cc
      tried (panicked, w) r = λ h. r refl

module _ (env : Env) where
  faulty-Returned :
      {A : Type 0} (fault : Option SqlxError) (r : Result SqlxError A)
      → Returned r
      → Returned (faulty env fault r)
  faulty-Returned none r p = p
  faulty-Returned (some e) r p = λ h. cc

  pub NeverPanics-read : {A : Type 0} (f : Db → A) → NeverPanics (read env f)
  unfolding read
  NeverPanics-read f = record { returns = λ w. faulty-Returned (env.fault w.step) _ (λ h. cc) }

  pub NeverPanics-run : {A : Type 0} (r : Result SqlxError A) → Returned r → NeverPanics (run env r)
  unfolding run
  NeverPanics-run r p = record { returns = λ w. faulty-Returned (env.fault w.step) r p }

  pub NeverPanics-begin : NeverPanics (begin env)
  unfolding begin
  NeverPanics-begin = record { returns = λ w. faulty-Returned (env.fault w.step) _ (λ h. cc) }

  pub NeverPanics-rollback : NeverPanics (rollback env)
  unfolding rollback
  NeverPanics-rollback = record { returns = λ w. faulty-Returned (env.fault w.step) _ (λ h. cc) }

  pub NeverPanics-new_v4 : {E : Type 0} → NeverPanics {E = E} (new_v4 env)
  unfolding new_v4
  NeverPanics-new_v4 = record { returns = λ w h. cc }

  pub NeverPanics-now : {E : Type 0} → NeverPanics {E = E} (now env)
  unfolding now
  NeverPanics-now = record { returns = λ w h. cc }

  pub NeverPanics-write :
      (f : Db → Result SqlxError Db) → ((db : Db) → Returned (f db)) → NeverPanics (write env f)
  unfolding write publish
  NeverPanics-write f p = record {
    returns = λ w. published _ _ (faulty-Returned (env.fault w.step) _ (p _));
  }
    where
      published : (r : Result SqlxError Db) (w : World) → Returned r → Returned (publish env r w).0
      published (ok db) w q = λ h. cc
      published (err e) w q = λ h. cc
      published panicked w q = λ h. q refl

  pub NeverPanics-commit :
      (tx : Tx) → Returned (run_deferred tx.pending tx.tables) → NeverPanics (commit env tx)
  unfolding commit settle
  NeverPanics-commit tx p = record {
    returns = λ w. settled _ (env.fault w.step) (env.applied w.step) _ p;
  }
    where
      settled :
          (r : Result SqlxError (Unit {0})) (fault : Option SqlxError) (applied : Bool) (w : World)
          → Returned r
          → Returned (settle env r fault applied tx.tables w).0
      settled (ok _) none applied w q = λ h. cc
      settled (ok _) (some e) true w q = λ h. cc
      settled (ok _) (some e) false w q = λ h. cc
      settled (err e) fault applied w q = λ h. cc
      settled panicked fault applied w q = λ h. q refl

  -- What an attempted statement gives is no panic either.
  pub NeverPanics-attempt-run :
      {E A B : Type 0} (r : Result SqlxError A) (f : Result SqlxError A → Action E B)
      → Returned r
      → ((x : Result SqlxError A) → Returned x → NeverPanics (f x))
      → NeverPanics (attempt (run env r) >>= f)
  unfolding run attempt ◌>>=◌
  NeverPanics-attempt-run {E} {A} {B} r f p q = record {
    returns = λ w. tried (env.fault w.step) r p _;
  }
    where
      tried :
          (fault : Option SqlxError) (r : Result SqlxError A)
          → Returned r
          → (u : World)
          → Returned ((attempt {F = E} (λ (_ : World). (faulty env fault r, u)) >>= f) u).0
      tried none (ok a) s u = (q (ok a) (λ h. cc)).returns u
      tried none (err e) s u = (q (err e) (λ h. cc)).returns u
      tried none panicked s u = λ h. s refl
      tried (some e) r s u = (q (err e) (λ h. cc)).returns u
