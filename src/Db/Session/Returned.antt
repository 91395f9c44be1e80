-- ===== src/Db/Session/Returned.antt =====
-- What an action that returned a value did on its way.
use ledger_rs.Prelude.{◌≡◌, refl, Result, ok, err, panicked}
use ledger_rs.Db.Session.{World, Action, ◌>>=◌, lift, pure}

module _ {E A : Type 0} where
  pub bind-Returned :
      {B : Type 0} (m : Action E A) (f : A → Action E B) (b : B) (w u : World)
      → (m >>= f) w ≡ (ok b, u)
      → (a : A) × (v : World) × (m w ≡ (ok a, v)) × (f a v ≡ (ok b, u))
  unfolding ◌>>=◌
  bind-Returned {B} m f b w u h = cases (m w) refl h
    where
      cases :
          (x : Result E A × World)
          → m w ≡ x
          → ((λ (_ : World). x) >>= f) w ≡ (ok b, u)
          → (a : A) × (v : World) × (m w ≡ (ok a, v)) × (f a v ≡ (ok b, u))
      cases (ok a, v) e h = (a, v, e, h)
      cases (err e, v) _ h = cc
      cases (panicked, v) _ h = cc

  pub bind_lift-Returned :
      {B : Type 0} (r : Result E A) (f : A → Action E B) (b : B) (w u : World)
      → (lift r >>= f) w ≡ (ok b, u)
      → (a : A) × (r ≡ ok a) × (f a w ≡ (ok b, u))
  unfolding ◌>>=◌ lift
  bind_lift-Returned (ok a) f b w u h = (a, refl, h)
  bind_lift-Returned (err e) f b w u h = cc
  bind_lift-Returned panicked f b w u h = cc

  pub pure-Returned : (x a : A) (w u : World) → pure {E = E} x w ≡ (ok a, u) → (a ≡ x) × (u ≡ w)
  unfolding pure
  pure-Returned x a w u h = (cc, cc)
