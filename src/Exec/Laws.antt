-- ===== src/Exec/Laws.antt =====
-- How a sequence of calls came to return, and what a call keeps whether it returns or raises.
use contract_management.Prelude.{
  ◌≡◌, refl, subst, Bool, true, false, Option, none, some, List, [], ◌∷◌, if◌then◌else◌,
}
use contract_management.Exec.{
  Outcome, returned, raised, Exec, state_of, pure, raise, lift, gets, or_raise, ◌>>=◌, skip,
  throw_if, when, for_each,
}
use contract_management.Failure.{Error, Result, ok, err}

module _ {ℓ κ μ} {W : Type ℓ} {A : Type κ} {B : Type μ} where
  -- A sequence that returned: its first part returned, and then its second.
  pub >>=-returned :
      (m : Exec W A) (f : A → Exec W B) (w : W) {b : B} {w' : W}
      → (m >>= f) w ≡ returned b w'
      → (a : A) × (v : W) × (m w ≡ returned a v) × (f a v ≡ returned b w')
  unfolding ◌>>=◌
  >>=-returned m f w {b} {w'} = go (m w) refl
    where
      go :
          (o : Outcome W A)
          → m w ≡ o
          → elim o [ returned a w' ↦ f a w' | raised e w' ↦ raised e w' ] ≡ returned b w'
          → (a : A) × (v : W) × (m w ≡ returned a v) × (f a v ≡ returned b w')
      go (returned a v) e h = (a, v, e, h)
      go (raised x v) e h = cc

-- `m` keeps `P`, whether it returns or raises.
pub record Keeps {ℓ κ μ} {W : Type ℓ} {A : Type κ} (P : W → Type μ) (m : Exec W A)
    : Type (ℓ ⊔ μ) where
  pub at : (w : W) → P w → P (state_of (m w))

module _ {ℓ κ μ} {W : Type ℓ} {A : Type κ} {P : W → Type μ} where
  pub Keeps-pure : (a : A) → Keeps P (pure a)
  unfolding pure
  Keeps-pure a = record { at = λ w h. h }

  pub Keeps-raise : (e : Error) → Keeps P (raise {A = A} e)
  unfolding raise
  Keeps-raise e = record { at = λ w h. h }

  pub Keeps-lift : (r : Result A) → Keeps P (lift r)
  unfolding lift
  Keeps-lift (ok a) = record { at = λ w h. h }
  Keeps-lift (err e) = record { at = λ w h. h }

  pub Keeps-gets : (f : W → A) → Keeps P (gets f)
  unfolding gets
  Keeps-gets f = record { at = λ w h. h }

  pub Keeps-or_raise : (o : Option A) (e : Error) → Keeps P (or_raise o e)
  unfolding or_raise
  Keeps-or_raise none e = record { at = λ w h. h }
  Keeps-or_raise (some a) e = record { at = λ w h. h }

  pub Keeps-if :
      (test : Bool) (yea nay : Exec W A)
      → (test ≡ true → Keeps P yea)
      → (test ≡ false → Keeps P nay)
      → Keeps P (if test then yea else nay)
  Keeps-if true yea nay k _ = k refl
  Keeps-if false yea nay _ k = k refl

module _ {ℓ μ} {W : Type ℓ} {P : W → Type μ} where
  pub Keeps-skip : Keeps P skip
  unfolding skip
  Keeps-skip = record { at = λ w h. h }

  pub Keeps-throw_if : (b : Bool) (e : Error) → Keeps P (throw_if b e)
  unfolding throw_if
  Keeps-throw_if true e = record { at = λ w h. h }
  Keeps-throw_if false e = record { at = λ w h. h }

  pub Keeps-when : (b : Bool) (m : Exec W (Unit {0})) → (b ≡ true → Keeps P m) → Keeps P (when b m)
  unfolding when
  Keeps-when true m k = k refl
  Keeps-when false m k = Keeps-skip

module _ {ℓ κ μ ν} {W : Type ℓ} {A : Type κ} {B : Type μ} (P : W → Type ν) where
  -- `P` holds after a sequence if it holds after the first call, and if the second call, made where
  -- the first returned, then leads to it.
  pub state_of-bind :
      (m : Exec W A) (f : A → Exec W B) (w : W)
      → P (state_of (m w))
      → ((a : A) (v : W) → m w ≡ returned a v → P v → P (state_of (f a v)))
      → P (state_of ((m >>= f) w))
  unfolding ◌>>=◌
  state_of-bind m f w h kf = go (m w) refl h
    where
      go :
          (o : Outcome W A)
          → m w ≡ o
          → P (state_of o)
          → P (state_of (elim o [ returned a w' ↦ f a w' | raised e w' ↦ raised e w' ]))
      go (returned a v) e k = kf a v e k
      go (raised x v) e k = k

module _ {ℓ μ ν} {W : Type ℓ} {B : Type μ} (P : W → Type ν) where
  pub state_of-guard :
      (b : Bool) (e : Error) (f : Unit {0} → Exec W B) (w : W)
      → P w
      → (b ≡ false → P (state_of (f tt w)))
      → P (state_of ((throw_if b e >>= f) w))
  unfolding ◌>>=◌
  state_of-guard true e f w h k = h
  state_of-guard false e f w h k = k refl

  pub state_of-when :
      (b : Bool) (m : Exec W (Unit {0})) (f : Unit {0} → Exec W B) (w : W)
      → (b ≡ true → P (state_of ((m >>= f) w)))
      → (b ≡ false → P (state_of (f tt w)))
      → P (state_of ((when b m >>= f) w))
  unfolding ◌>>=◌
  state_of-when true m f w h k = h refl
  state_of-when false m f w h k = k refl

module _ {ℓ κ μ ν} {W : Type ℓ} {A : Type κ} {B : Type μ} (P : W → Type ν) where
  pub state_of-lift :
      (r : Result A) (f : A → Exec W B) (w : W)
      → P w
      → ((a : A) → r ≡ ok a → P (state_of (f a w)))
      → P (state_of ((lift r >>= f) w))
  unfolding ◌>>=◌
  state_of-lift (ok a) f w h k = k a refl
  state_of-lift (err e) f w h k = h

  pub state_of-or_raise :
      (o : Option A) (e : Error) (f : A → Exec W B) (w : W)
      → P w
      → ((a : A) → o ≡ some a → P (state_of (f a w)))
      → P (state_of ((or_raise o e >>= f) w))
  unfolding ◌>>=◌
  state_of-or_raise none e f w h k = h
  state_of-or_raise (some a) e f w h k = k a refl

  pub state_of-gets :
      (g : W → A) (f : A → Exec W B) (w : W)
      → P (state_of (f (g w) w))
      → P (state_of ((gets g >>= f) w))
  unfolding ◌>>=◌
  state_of-gets g f w h = h

  -- What follows a call and cannot fail.
  pub state_of-then :
      (m : Exec W A) (f : A → B) (w : W)
      → P (state_of (m w))
      → P (state_of ((m >>= λ a. pure (f a)) w))
  unfolding ◌>>=◌
  state_of-then m f w h = state_of-bind P m (λ a. pure (f a)) w h (λ a v e k. k)

pub state_of-skip {ℓ κ ν} :
    {W : Type ℓ} {A : Type κ} (P : W → Type ν) (m : Exec W A) (w : W)
    → P (state_of (m w))
    → P (state_of ((m >>= λ _. skip) w))
unfolding ◌>>=◌
state_of-skip P m w h = state_of-bind P m (λ _. skip) w h (λ a v e k. k)

module _ {ℓ κ μ ν} {W : Type ℓ} {A : Type κ} {B : Type μ} {P : W → Type ν} where
  pub Keeps-bind :
      (m : Exec W A) (f : A → Exec W B) → Keeps P m → ((a : A) → Keeps P (f a)) → Keeps P (m >>= f)
  Keeps-bind m f km kf = record {
    at = λ w h. state_of-bind P m f w (km.at w h) (λ a v e k. (kf a).at v k);
  }

pub Keeps-returned {ℓ κ μ} :
    {W : Type ℓ} {A : Type κ} (P : W → Type μ) {m : Exec W A}
    → Keeps P m
    → (w : W) {a : A} {v : W} → P w
    → m w ≡ returned a v
    → P v
Keeps-returned P k w h e = subst (λ o. P (state_of o)) e (k.at w h)

-- Whatever `m` returns has the property.
pub record Gives {ℓ κ μ} {W : Type ℓ} {A : Type κ} (S : A → Type μ) (m : Exec W A)
    : Type (ℓ ⊔ κ ⊔ μ) where
  pub at : (w : W) (a : A) (v : W) → m w ≡ returned a v → S a

module _ {ℓ κ μ} {W : Type ℓ} {A : Type κ} {S : A → Type μ} where
  pub Gives-pure : (a : A) → S a → Gives {W = W} S (pure a)
  unfolding pure
  Gives-pure a s = record { at = λ w b v e. subst S (cc) s }

  pub Gives-if : (b : Bool) (m n : Exec W A) → Gives S m → Gives S n → Gives S (if b then m else n)
  Gives-if true m n gm gn = gm
  Gives-if false m n gm gn = gn

pub Gives-bind {ℓ κ μ ν} :
    {W : Type ℓ} {A : Type κ} {B : Type μ} {S : B → Type ν} (m : Exec W A) (f : A → Exec W B)
    → ((a : A) → Gives S (f a))
    → Gives S (m >>= f)
Gives-bind m f g = record {
  at = λ w b v e. let (a, u, _, rest) = >>=-returned m f w e in (g a).at u b v rest;
}

-- A guard that returned did not fire, and changed nothing.
pub throw_if-returned {ℓ} :
    {W : Type ℓ} (b : Bool) (e : Error) (w : W) {u : Unit {0}} {v : W}
    → throw_if b e w ≡ returned u v
    → (b ≡ false) × (v ≡ w)
unfolding throw_if
throw_if-returned true e w h = cc
throw_if-returned false e w h = (refl, cc)

module _ {ℓ κ μ} {W : Type ℓ} {A : Type κ} {P : W → Type μ} where
  pub Keeps-for_each :
      (xs : List A) (body : A → Exec W (Unit {0}))
      → ((x : A) → Keeps P (body x))
      → Keeps P (for_each xs body)
  unfolding for_each
  Keeps-for_each [] body k = Keeps-skip
  Keeps-for_each (x ∷ xs) body k =
      Keeps-bind (body x) (λ _. for_each xs body) (k x) (λ _. Keeps-for_each xs body k)

pub ruleset keeps_rules = (
  Keeps-pure, Keeps-raise, Keeps-lift, Keeps-gets, Keeps-or_raise, Keeps-if, Keeps-skip,
  Keeps-throw_if, Keeps-when, Keeps-bind, Keeps-for_each,
)
