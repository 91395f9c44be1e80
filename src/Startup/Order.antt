-- ===== src/Startup/Order.antt =====
-- The order of the service's start and end, as a state machine.
use ledger_rs.Prelude.{
  ◌≡◌, ◌≢◌, ◌⊎◌, refl, sym, subst, inl, inr, true, false, List, [], ◌∷◌, Result, ok, err, panicked,
  Bool-cases,
}
use ledger_rs.Config.{ConfigError, Config, Process, from_env}
use ledger_rs.Config.Coherence.{IsCoherent, from_env-IsCoherent}
use ledger_rs.Http.Router.{app_state}
use ledger_rs.Startup.{
  Platform, Event, connected, migrated, listening, served, drained, pool_options, start, proceed,
  main, StartError, no_database, no_migrations, no_listener, server_error, Run,
}

-- How far the service has come. While it is `bound` or the server has `ended`, clients may hold
-- connections, and the pool transactions that are under way.
pub data Stage : Type 0 where
  off pooled migrated_to bound ended closed : Stage

module _ {A : Type 0} (platform : Platform A) (config : Config A) where
  -- What it may do next, with its settings; what the platform refuses is not done.
  pub data Step : Stage → Event A → Stage → Type 0 where
    connects :
        platform.connects config.database_url (pool_options config.pool) ≡ true
        → Step off (connected config.database_url (pool_options config.pool)) pooled
    migrates : platform.migrates ≡ true → Step pooled migrated migrated_to
    binds :
        platform.binds config.bind_addr ≡ true → Step migrated_to (listening config.bind_addr) bound
    serves : Step bound (served (app_state config)) ended
    drains : Step ended (drained config.shutdown_grace) closed

  pub data Trace : Stage → List (Event A) → Stage → Type 0 where
    done : (s : Stage) → Trace s [] s
    then_step :
        (s t u : Stage) (event : Event A) (rest : List (Event A))
        → Step s event t
        → Trace t rest u
        → Trace s (event ∷ rest) u

  -- Where the service may stop, and why: before it is bound to the address, where the call that is
  -- next fails, or when the pool has closed.
  pub data MayStop : Stage → Result StartError (Unit {0}) → Type 0 where
    unconnected :
        platform.connects config.database_url (pool_options config.pool) ≡ false
        → MayStop off (err no_database)
    unmigrated : platform.migrates ≡ false → MayStop pooled (err no_migrations)
    unbound : platform.binds config.bind_addr ≡ false → MayStop migrated_to (err no_listener)
    broken : platform.serves ≡ false → MayStop closed (err server_error)
    complete : platform.serves ≡ true → MayStop closed (ok tt)

module _ {A : Type 0} where
  -- A run of the state machine from `off`, to a stage where the service may stop with the result.
  abbrev pub IsLife : Platform A → Config A → Run A → Type 0
  IsLife platform config (events, result) =
      (s : Stage) × Trace platform config off events s × MayStop platform config s result

  module _ (platform : Platform A) (config : Config A) where
    abbrev opened : Event A
    opened = connected config.database_url (pool_options config.pool)

    abbrev to_the_end : List (Event A)
    to_the_end =
        opened
        ∷ migrated
        ∷ listening config.bind_addr
        ∷ served (app_state config)
        ∷ drained config.shutdown_grace
        ∷ []

    -- The calls that succeed and fail decide the run.
    ends :
        (events : List (Event A)) (result : Result StartError (Unit {0})) (s : Stage)
        → start platform config ≡ (events, result)
        → Trace platform config off events s
        → MayStop platform config s result
        → IsLife platform config (start platform config)
    ends events result s e trace stop = subst (IsLife platform config) (sym e) (s, trace, stop)

    start-IsLife : IsLife platform config (start platform config)
    unfolding start
    start-IsLife =
        elim (Bool-cases (platform.connects config.database_url (pool_options config.pool))) [
          | inr e ↦ ends [] _ off (rw (e, start) refl) (done off) (unconnected e)
          | inl e ↦ elim (Bool-cases (platform.migrates)) [
            | inr f ↦
                ends (opened ∷ []) _ pooled (rw (e, f, start) refl)
                  (then_step _ _ _ _ _ (connects e) (done pooled)) (unmigrated f)
            | inl f ↦ elim (Bool-cases (platform.binds config.bind_addr)) [
              | inr g ↦
                  ends (opened ∷ migrated ∷ []) _ migrated_to (rw (e, f, g, start) refl)
                    (then_step _ _ _ _ _ (connects e)
                      (then_step _ _ _ _ _ (migrates f) (done migrated_to)))
                    (unbound g)
              | inl g ↦
                  let trace : Trace platform config off to_the_end closed =
                    then_step _ _ _ _ _ (connects e) (
                      then_step _ _ _ _ _ (migrates f) (
                        then_step _ _ _ _ _ (binds g) (
                          then_step _ _ _ _ _ serves
                            (then_step _ _ _ _ _ drains (done closed))))) in
                  elim (Bool-cases (platform.serves)) [
                    | inl h ↦
                        ends to_the_end (ok tt) closed (rw (e, f, g, h, start) refl) trace
                          (complete h)
                    | inr h ↦
                        ends to_the_end (err server_error) closed (rw (e, f, g, h, start) refl)
                          trace (broken h)
                  ]
            ]
          ]
        ]

  -- Whichever calls of the platform succeed, `main` either reads no settings, does nothing and does
  -- not report success, or it reads coherent ones and what it does is a run of the state machine
  -- with them: it connects, migrates, binds and serves, each only after the one before has
  -- succeeded, and then drains. It stops with the error of the call that failed, and never between
  -- the binding and the drain: a service that listens waits for its pool to close, also when the
  -- server ends in an error, which it then reports.
  pub main_lifecycle :
      (process : Process A) (platform : Platform A)
      → (((c : Config A) → from_env process ≢ ok c)
          × ((main process platform).0 ≡ [])
          × ((main process platform).1 ≢ ok tt))
        ⊎ ((c : Config A) × (from_env process ≡ ok c)
            × IsCoherent c
            × IsLife platform c (main process platform))
  unfolding main proceed
  main_lifecycle process platform = lives (from_env process) refl
    where
      lives :
          (r : Result ConfigError (Config A))
          → from_env process ≡ r
          → (((c : Config A) → from_env process ≢ ok c)
              × ((proceed platform r).0 ≡ [])
              × ((proceed platform r).1 ≢ ok tt))
            ⊎ ((c : Config A) × (from_env process ≡ ok c)
                × IsCoherent c
                × IsLife platform c (proceed platform r))
      lives (ok c) e = inr (c, e, (from_env-IsCoherent process c e).1, start-IsLife platform c)
      lives (err why) e = inl (λ c h. cc (e, h), refl, λ h. cc)
      lives panicked e = inl (λ c h. cc (e, h), refl, λ h. cc)
