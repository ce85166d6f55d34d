-- ===== src/Exec/Steps.antt =====
-- How single steps came to return or to raise.
use contract_management.Prelude.{◌≡◌, refl, ◌⊎◌, inl, inr, Bool, true, false, Option, none, some}
use contract_management.Exec.{
  Outcome, returned, raised, Exec, lift, gets, or_raise, throw_if, ◌>>=◌,
}
use contract_management.Failure.{Error, Result, ok, err}

-- Reads that returned changed nothing.
module _ {ℓ κ} {W : Type ℓ} {A : Type κ} where
  pub gets-returned :
      (f : W → A) (w : W) {a : A} {v : W} → gets f w ≡ returned a v → (f w ≡ a) × (v ≡ w)
  unfolding gets
  gets-returned f w h = (cc, cc)

  pub lift-returned :
      (r : Result A) (w : W) {a : A} {v : W} → lift r w ≡ returned a v → (r ≡ ok a) × (v ≡ w)
  unfolding lift
  lift-returned (ok b) w h = (cc, cc)
  lift-returned (err e) w h = cc

  pub or_raise-returned :
      (o : Option A) (e : Error) (w : W) {a : A} {v : W}
      → or_raise o e w ≡ returned a v
      → (o ≡ some a) × (v ≡ w)
  unfolding or_raise
  or_raise-returned none e w h = cc
  or_raise-returned (some b) e w h = (cc, cc)

-- What follows a read or a guard, in a sequence that returned.
module _ {ℓ κ μ} {W : Type ℓ} {A : Type κ} {B : Type μ} (f : A → Exec W B) (w : W) where
  pub gets-then :
      (g : W → A) {b : B} {v : W} → (gets g >>= f) w ≡ returned b v → f (g w) w ≡ returned b v
  unfolding gets ◌>>=◌
  gets-then g h = h

  pub lift-then :
      (r : Result A) {b : B} {v : W}
      → (lift r >>= f) w ≡ returned b v
      → (a : A) × (r ≡ ok a) × (f a w ≡ returned b v)
  unfolding lift ◌>>=◌
  lift-then (ok a) h = (a, refl, h)
  lift-then (err e) h = cc

  pub or_raise-then :
      (o : Option A) (e : Error) {b : B} {v : W}
      → (or_raise o e >>= f) w ≡ returned b v
      → (a : A) × (o ≡ some a) × (f a w ≡ returned b v)
  unfolding or_raise ◌>>=◌
  or_raise-then none e h = cc
  or_raise-then (some a) e h = (a, refl, h)

pub throw_if-then {ℓ μ} :
    {W : Type ℓ} {B : Type μ} (t : Bool) (e : Error) (m : Exec W B) (w : W) {b : B} {v : W}
    → (throw_if t e >>= λ _. m) w ≡ returned b v
    → (t ≡ false) × (m w ≡ returned b v)
unfolding throw_if ◌>>=◌
throw_if-then true e m w h = cc
throw_if-then false e m w h = (refl, h)

-- How a sequence came to raise: in its first part, or in what follows.
pub >>=-raised {ℓ κ μ} :
    {W : Type ℓ} {A : Type κ} {B : Type μ} (m : Exec W A) (f : A → Exec W B) (w : W) {e : Error}
    {v : W}
    → (m >>= f) w ≡ raised e v
    → (m w ≡ raised e v) ⊎ ((a : A) × (u : W) × (m w ≡ returned a u) × (f a u ≡ raised e v))
unfolding ◌>>=◌
>>=-raised {W = W} {A = A} m f w {e} {v} h = go (m w) refl h
  where
    go :
        (o : Outcome W A)
        → m w ≡ o
        → elim o [ returned a u ↦ f a u | raised x u ↦ raised x u ] ≡ raised e v
        → (m w ≡ raised e v) ⊎ ((a : A) × (u : W) × (m w ≡ returned a u) × (f a u ≡ raised e v))
    go (returned a u) same k = inr (a, u, same, k)
    go (raised x u) same k = inl (cc)

-- A query whose answer is raised or returned.
pub query-raised {ℓ κ} :
    {W : Type ℓ} {A : Type κ} (f : W → Result A) (w : W) {e : Error} {v : W}
    → (gets f >>= lift) w ≡ raised e v
    → (f w ≡ err e) × (v ≡ w)
unfolding ◌>>=◌ gets lift
query-raised f w {e} {v} h = go (f w) refl h
  where
    go : (r : Result _) → f w ≡ r → lift r w ≡ raised e v → (f w ≡ err e) × (v ≡ w)
    go (ok a) same k = cc
    go (err x) same k = (cc, cc)
