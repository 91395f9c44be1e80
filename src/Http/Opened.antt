-- ===== src/Http/Opened.antt =====
-- What `POST /accounts` opens, and that `GET /accounts/{id}` then shows it.
use ledger_rs.Prelude.{
  ℕ, ◌≤◌, ◌≡◌, refl, sym, ap, subst, ◌∙◌, Bool, true, false, not, ◌&&◌, Option, none, some, Result,
  ok, err, panicked, ok_or, map_err, >>=-eq-ok, map_err-eq-ok, ok_injective, length, arith, fail_if,
  ltb, leb, ==_refl, ◌∷◌, [], List,
}
use ledger_rs.Prelude
use ledger_rs.Prelude.Int.{pos}
use ledger_rs.Prelude.Text.{Text}
use ledger_rs.Decimal.{Decimal, DecimalLaws, units}
use ledger_rs.Domain.Currency.{Currency}
use ledger_rs.Domain.Money
use ledger_rs.Domain.Money.Validation.{new_exact}
use ledger_rs.Domain.Postings.{Account}
use ledger_rs.Error.{LedgerError, account_not_found, money, database}
use ledger_rs.Schema.Rows.{AccountRecord, Db, find_account}
use ledger_rs.Schema.Statements.{insert_account}
use ledger_rs.Db.Session.{Env, World, lift}
use ledger_rs.Db.Session.Calm.{IsCalm, bind_ok, map_error-read, lift_value}
use ledger_rs.Db.Session.Triples.{
  Outcome, Triple, Triple->>=, Triple-lift, Triple-pure, Triple-weaken, Triple-given,
  Triple-map_error, Triple-new_v4,
}
use ledger_rs.Db.Session.Writes.{AnyTables, Wrote, Triple-Wrote, Triple-now}
use ledger_rs.Db.Accounts.{new_account, to_account, to_row, select_account, fetch, get, create}
use ledger_rs.Http.Headers.{trim, is_empty}
use ledger_rs.Http.Handlers.{CreateAccountRequest, create_account, get_account, max_name_len}

inserted_row :
    (a : AccountRecord) (before after : Db)
    → insert_account a before ≡ ok after
    → after.accounts ≡ a ∷ before.accounts
unfolding insert_account
inserted_row a before after h = ground arith

inserted_found :
    (a : AccountRecord) (before after : Db)
    → insert_account a before ≡ ok after
    → find_account a.id after.accounts ≡ some a
unfolding find_account
inserted_found a before after h =
    rw (inserted_row a before after h, find_account, ==_refl a.id) refl

module _ {D : Type 0} ⦃dec : Decimal D⦄ where
  -- What a reply to `POST /accounts` tells of its request.
  pub record IsOpened (allowed : Bool) (payload : Result Text CreateAccountRequest) (status : ℕ)
      (account : Account D) : Type 0 where
    pub request : CreateAccountRequest
    pub payload_read : payload ≡ ok request
    pub is_created : status ≡ 201
    pub named : account.name ≡ trim request.name
    pub sized : (1 ≤ length account.name) × (length account.name ≤ max_name_len)
    pub denominated : account.balance.currency ≡ request.currency
    pub empty : units account.balance.amount ≡ pos 0
    pub owing : account.allows_negative_balance ≡ request.allows_negative_balance
    pub permitted : request.allows_negative_balance ≡ true → allowed ≡ true

  -- The tables have an account's row, and it reads as the account.
  abbrev IsKept : Account D → Db → Type 0
  IsKept account db =
      (row : AccountRecord) × (find_account account.id db.accounts ≡ some row)
      × (to_account (to_row row) ≡ ok account)

-- The account that is created, in the tables that it was written to.
module _ {D : Type 0} ⦃dec : Decimal D⦄ where
  abbrev IsCreated : Text → Currency → Bool → Account D → Db → Type 0
  IsCreated name currency allows account db =
      (id : ℕ) × (time : ℕ) × (find_account id db.accounts
        ≡ some (new_account id name currency allows time))
      × (to_account (to_row (new_account id name currency allows time)) ≡ ok account)

module _ {D : Type 0} ⦃dec : Decimal D⦄ (env : Env) where
  create-IsCreated :
      (name : Text) (currency : Currency) (allows : Bool)
      → Triple AnyTables AnyTables
          (create {D = D} env name currency allows)
          (IsCreated name currency allows)
  unfolding create Wrote
  create-IsCreated name currency allows =
      Triple->>= AnyTables _ _ (Triple-new_v4 AnyTables env) λ id.
        Triple->>= AnyTables _ _ (Triple-now AnyTables env) λ time.
          Triple->>= AnyTables _ _
            (Triple-map_error AnyTables _ _
              (Triple-Wrote env (insert_account (new_account id name currency allows time))))
            λ _.
              Triple-weaken AnyTables _ (Triple-lift AnyTables _ (λ db h. tt)) (λ db h. h)
                (λ account db ((before, after, inserted, same), read). (
                  id,
                  time,
                  ap (λ (t : Db). find_account id t.accounts) same
                      ∙ inserted_found _ before after inserted,
                  read,
                ))

-- What the guards of the handler have let through.
record Allowed (allow : Bool) (payload : Result Text CreateAccountRequest)
    (request : CreateAccountRequest) : Type 0 where
  given : payload ≡ ok request
  owing_allowed : request.allows_negative_balance ≡ true → allow ≡ true
  name_sized : (1 ≤ length (trim request.name)) × (length (trim request.name) ≤ max_name_len)

passed_owing :
    (e : LedgerError) (owes allow : Bool)
    → fail_if (owes && not allow) e ≡ ok tt
    → owes ≡ true
    → allow ≡ true
passed_owing e owes allow h p = ground arith

passed_name :
    (e e' : LedgerError) (name : Text)
    → fail_if (is_empty name) e ≡ ok tt
    → fail_if (ltb max_name_len (length name)) e' ≡ ok tt
    → (1 ≤ length name) × (length name ≤ max_name_len)
passed_name e e' [] h k = cc
passed_name e e' (c ∷ s) h k = (omega arith, ground arith)

module _ {D : Type 0} ⦃dec : Decimal D⦄ (laws : DecimalLaws D) where
  created-IsOpened :
      (allow : Bool) (payload : Result Text CreateAccountRequest) (request : CreateAccountRequest)
      (account : Account D) (db : Db)
      → Allowed allow payload request
      → IsCreated (trim request.name) request.currency request.allows_negative_balance account db
      → IsOpened allow payload 201 account × IsKept account db
  unfolding to_account
  created-IsOpened allow payload request account db let_in (id, time, there, read) =
      let (m, priced, built) =
        >>=-eq-ok (map_err money (Money.new (dec.fetched (pos 0)) request.currency)) _ read in
      let (same, _) =
        new_exact laws (dec.fetched (pos 0)) request.currency m (laws.scale-fetched (pos 0))
          (map_err-eq-ok money _ priced) in
      let row =
        new_account id (trim request.name) request.currency request.allows_negative_balance time in
      subst
        (λ (x : Account D).
          to_account (to_row row) ≡ ok x → IsOpened allow payload 201 x × IsKept x db)
        (ok_injective built)
        (λ reads. (
          record {
            request = request;
            payload_read = let_in.given;
            is_created = refl;
            named = refl;
            sized = let_in.name_sized;
            denominated = ap (λ (n : Money.Money D). n.currency) same;
            empty = ap (λ (n : Money.Money D). units n.amount) same ∙ laws.units-fetched (pos 0);
            owing = refl;
            permitted = let_in.owing_allowed;
          },
          (row, there, reads),
        ))
        read

-- In calm `GET /accounts/{id}` shows what the tables hold.
module _ {D : Type 0} ⦃dec : Decimal D⦄ (env : Env) where
  get_value :
      (calm : IsCalm env) (id : ℕ) (w : World)
      → (get_account {D = D} env id w).0
        ≡ Prelude.◌>>=◌ (ok_or (account_not_found id) (select_account id w.db)) to_account
  unfolding get_account get fetch lift
  get_value calm id w =
      ap (λ (x : Result LedgerError (Account D) × World). x.0)
        (bind_ok _ _ _ _ (map_error-read env calm w database _))
      ∙ lift_value _ _ _ _ λ row. refl

module _ {D : Type 0} ⦃dec : Decimal D⦄ (laws : DecimalLaws D) (env : Env) where
  create_account-Opened :
      (allow : Bool) (payload : Result Text CreateAccountRequest)
      → Triple AnyTables AnyTables
          (create_account {D = D} env allow payload)
          (λ (status, account) db. IsOpened allow payload status account × IsKept account db)
  unfolding create_account
  create_account-Opened allow payload =
      Triple->>= AnyTables _ _ (Triple-lift AnyTables _ (λ db h. h)) λ request.
        Triple->>= AnyTables _ _ (Triple-lift AnyTables _ (λ db h. tt)) λ _.
          Triple->>= AnyTables _ _ (Triple-lift AnyTables _ (λ db h. tt)) λ _.
            Triple->>= AnyTables _ _ (Triple-lift AnyTables _ (λ db h. tt)) λ _.
              Triple->>= AnyTables _ _
                (Triple-given AnyTables (Allowed allow payload request) _
                  (λ db h. record {
                    given = map_err-eq-ok _ _ h.0.0.0.1;
                    owing_allowed = passed_owing _ _ _ h.0.0.1;
                    name_sized = passed_name _ _ _ h.0.1 h.1;
                  })
                  λ let_in.
                    Triple-weaken AnyTables _
                      (create-IsCreated env (trim request.name) request.currency
                        request.allows_negative_balance)
                      (λ db h. tt)
                      (λ account db h.
                        created-IsOpened laws allow payload request account db let_in h))
                λ account. Triple-pure AnyTables _ (λ db h. h)

module _ {D : Type 0} ⦃dec : Decimal D⦄ (laws : DecimalLaws D) (env later : Env) where
  -- Whatever other sessions do and whichever statements fail, an account that `POST /accounts`
  -- reports is the one that was asked for: a status of 201, the name without the blanks around it
  -- and of 1 to 255 characters, the currency, nothing in it, and it may owe only if the policy
  -- allows that. On the tables that the request left, where no statement fails and no other session
  -- commits, `GET /accounts/{id}` answers with the same account.
  pub create_account_round_trip :
      IsCalm later
      → (allow : Bool) (payload : Result Text CreateAccountRequest) (status : ℕ)
        (account : Account D) (w : World)
      → (create_account env allow payload w).0 ≡ ok (status, account)
      → IsOpened allow payload status account
        × ((get_account later account.id (create_account {D = D} env allow payload w).1).0
            ≡ ok account)
  create_account_round_trip calm allow payload status account w h =
      let (opened, (row, there, read)) =
        told (create_account env allow payload w)
          ((create_account-Opened laws env allow payload).at w tt) h in
      (opened, get_value later calm account.id _ ∙ rw (ok_or, select_account, there) read)
    where
      told :
          (x : Result LedgerError (ℕ × Account D) × World)
          → Outcome AnyTables (λ (s, a) db. IsOpened allow payload s a × IsKept a db) x
          → x.0 ≡ ok (status, account)
          → IsOpened allow payload status account × IsKept account x.1.db
      told (ok r, u) o e =
          subst (λ (s, a). IsOpened allow payload s a × IsKept a u.db) (ok_injective e) o
      told (err why, u) o e = cc
      told (panicked, u) o e = cc
