-- ===== src/Service/Contract/NextNumber.antt =====
-- The number that the form of a new version is filled with.
use contract_management.Prelude.{
  ◌≡◌, refl, Bool, true, false, not, ◌||◌, String, Option, none, some, List, [], ◌∷◌, arith,
  if◌then◌else◌, ◌==◌, string_eq, nat_eq,
}
use contract_management.Prelude.Int.{ℤ, leb_ℤ, ℤ_eq, leb_ℤ_trans, leb_ℤ_total, leb_ℤ_succ}
use contract_management.Prelude.Lists.{any, filter}
use contract_management.Failure.{ok, throw_if, contract_not_submitted, >>=-eq-ok}
use contract_management.Site.{Contract, ContractVersion, Site}
use contract_management.Workflow.{VersionStatus}
use contract_management.Doctype.ContractVersion
use contract_management.Service.Contract

-- A number that is not below the latest one.
abbrev covers : Option ℤ → ℤ → Bool
covers none a = true
covers (some m) a = not (leb_ℤ a m)

covers-larger :
    (a b : Option ℤ) (n : ℤ)
    → covers (Contract.larger a b) n ≡ true
    → (covers a n ≡ true) × (covers b n ≡ true)
covers-larger none b n h = (refl, h)
covers-larger (some a) none n h = (h, refl)
covers-larger (some a) (some b) n h =
    ground (arith, leb_ℤ_total a b, leb_ℤ_trans n a b, leb_ℤ_trans n b a)

sql_eq-covers :
    (a : Option ℤ) (n : ℤ) → covers a n ≡ true → ContractVersion.sql_eq a (some n) ≡ false
sql_eq-covers none n h = refl
sql_eq-covers (some a) n h = ground arith

covered :
    (v r : ContractVersion) (n : ℤ)
    → v.version_number ≡ some n
    → covers r.version_number n ≡ true
    → ContractVersion.same_number v r ≡ false
unfolding ContractVersion.same_number
covered v r n hn h =
    let test : ContractVersion.sql_eq r.version_number v.version_number ≡ false =
      rw hn (sql_eq-covers r.version_number n h) in
    ground arith

elsewhere :
    (v r : ContractVersion)
    → (r.contract == v.contract) ≡ false
    → ContractVersion.same_number v r ≡ false
unfolding ContractVersion.same_number
elsewhere v r h = ground arith

-- No version of the contract has the number, if it is above the latest one.
free_number :
    (c : String) (rows : List ContractVersion) (n : ℤ) (v : ContractVersion)
    → v.contract ≡ c
    → v.version_number ≡ some n
    → covers (Contract.latest_version (filter (λ r. r.contract == c) rows)) n ≡ true
    → any (ContractVersion.same_number v) rows ≡ false
unfolding Contract.latest_version filter any
free_number c [] n v hc hn h = refl
free_number c (r ∷ rows) n v hc hn h = go (free_number c rows n v hc hn) (r.contract == c) refl h
  where
    rest : List ContractVersion
    rest = filter (λ s. s.contract == c) rows

    go :
        (covers (Contract.latest_version rest) n ≡ true
          → any (ContractVersion.same_number v) rows ≡ false)
        → (b : Bool) → (r.contract == c) ≡ b
        → covers (Contract.latest_version (if b then r ∷ rest else rest)) n ≡ true
        → (ContractVersion.same_number v r || any (ContractVersion.same_number v) rows) ≡ false
    go below true e k =
        let (low, high) = covers-larger r.version_number (Contract.latest_version rest) n k in
        rw (covered v r n hn low) (below high)
    go below false e k = rw (elsewhere v r (rw hc e)) (below k)

covers-after_latest : (o : Option ℤ) → covers o (Contract.after_latest o) ≡ true
covers-after_latest none = refl
covers-after_latest (some m) = rw (leb_ℤ_succ m) refl

-- A new version with the contract and the number that the form is filled with passes the check that
-- the version number is unique, whatever versions there are.
pub get_initial_version_values-IsUnique :
    (site : Site) (contract : Contract) (values : Contract.InitialValues) (v : ContractVersion)
    → Contract.get_initial_version_values site contract ≡ ok values
    → v.contract ≡ values.contract
    → v.version_number ≡ some values.version_number
    → ContractVersion.validate_unique_version_number site.versions v ≡ ok tt
unfolding Contract.get_initial_version_values Contract.get_next_version_number
    ContractVersion.validate_unique_version_number
get_initial_version_values-IsUnique site contract values v h hc hn =
    let rows = filter (λ (r : ContractVersion). r.contract == contract.name) site.versions in
    let latest = Contract.latest_version rows in
    let given : Contract.InitialValues = record {
      contract = contract.name;
      version_number = Contract.after_latest latest;
      status = VersionStatus.draft;
      is_current = true;
    } in
    let (_, _, k) =
      >>=-eq-ok (throw_if (not (nat_eq contract.docstatus 1)) contract_not_submitted)
        (λ _. ok given) h in
    let same : given ≡ values = cc in
    let hc' : v.contract ≡ contract.name = rw (hc, ← same) refl in
    let hn' : v.version_number ≡ some (Contract.after_latest latest) = rw (hn, ← same) refl in
    rw
      (free_number contract.name site.versions (Contract.after_latest latest) v hc' hn'
        (covers-after_latest latest))
      refl
