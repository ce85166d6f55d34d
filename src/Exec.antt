-- ===== src/Exec.antt =====
-- Python code that may raise (`Result`), and code that also reads and writes the site's state
-- (`Exec`). What was written before a raise stays written until the request is rolled back, so the
-- state comes back beside an error too.
pub mod Laws
pub mod Steps
use contract_management.Prelude.{Bool, true, false, Option, none, some, List, [], ◌∷◌}
use contract_management.Failure.{Error}
use contract_management.Failure.{Result, ok, err}

pub data Outcome {ℓ κ} (W : Type ℓ) (A : Type κ) : Type (ℓ ⊔ κ) where
  returned : A → W → Outcome W A
  raised : Error → W → Outcome W A

abbrev pub Exec {ℓ κ} : Type ℓ → Type κ → Type (ℓ ⊔ κ)
Exec W A = W → Outcome W A

-- The state in which a call left the site.
abbrev pub state_of {ℓ κ} : {W : Type ℓ} {A : Type κ} → Outcome W A → W
state_of (returned a w) = w
state_of (raised e w) = w

module _ {ℓ κ} {W : Type ℓ} {A : Type κ} where
  unfoldable pub pure : A → Exec W A
  pure a w = returned a w

  unfoldable pub raise : Error → Exec W A
  raise e w = raised e w

  unfoldable pub lift : Result A → Exec W A
  lift (ok a) w = returned a w
  lift (err e) w = raised e w

  unfoldable pub gets : (W → A) → Exec W A
  gets f w = returned (f w) w

  -- `frappe.get_doc` on a row that may be missing.
  unfoldable pub or_raise : Option A → Error → Exec W A
  or_raise none e w = raised e w
  or_raise (some a) e w = returned a w

module _ {ℓ} {W : Type ℓ} where
  unfoldable pub skip : Exec W (Unit {0})
  skip w = returned tt w

  unfoldable pub modify : (W → W) → Exec W (Unit {0})
  modify f w = returned tt (f w)

  -- if condition: frappe.throw(…)
  unfoldable pub throw_if : Bool → Error → Exec W (Unit {0})
  throw_if true e w = raised e w
  throw_if false e w = returned tt w

  unfoldable pub when : Bool → Exec W (Unit {0}) → Exec W (Unit {0})
  unfolding skip
  when true m = m
  when false m = skip

infixl 5 ◌>>=◌ ◌>>◌
-- Opening this opens the ways to build a call too.
unfoldable pub ◌>>=◌ {ℓ κ μ} :
    {W : Type ℓ} {A : Type κ} {B : Type μ} → Exec W A → (A → Exec W B) → Exec W B
unfolding pure raise lift gets or_raise skip modify throw_if when
◌>>=◌ m f w = elim (m w) [ returned a w' ↦ f a w' | raised e w' ↦ raised e w' ]

abbrev pub ◌>>◌ {ℓ κ μ} : {W : Type ℓ} {A : Type κ} {B : Type μ} → Exec W A → Exec W B → Exec W B
m >> n = m >>= λ _. n

-- for x in xs: body(x)
unfoldable pub for_each {ℓ κ} :
    {W : Type ℓ} {A : Type κ} → List A → (A → Exec W (Unit {0})) → Exec W (Unit {0})
for_each [] body = skip
for_each (x ∷ xs) body = body x >> for_each xs body
