-- ===== src/Doctype/ContractVersion/Current.antt =====
-- What a save of a Contract Version keeps true of the table.
use contract_management.Prelude.{
  ◌≡◌, ◌≢◌, refl, Bool, true, false, String, Option, none, some, List, map, arith, if◌then◌else◌,
  string_eq, str_eq, eq_iff,
}
use mathlib.Core.Option
use contract_management.Prelude.Int.{ℤ_eq}
use contract_management.Prelude.Table
use contract_management.Failure.{Result, ok, err}
use contract_management.Exec.{state_of}
use contract_management.Site.{ContractVersion, Site, find_version}
use contract_management.Platform.{Platform}
use contract_management.Doctype.ContractVersion

-- Two rows of the contract that are both marked current are one row.
abbrev pub OneCurrent : String → List ContractVersion → Type 0
OneCurrent c rows =
    (j k : String) (v w : ContractVersion)
    → find_version j rows ≡ some v
    → find_version k rows ≡ some w
    → v.contract ≡ c
    → w.contract ≡ c
    → v.is_current ≡ true
    → w.is_current ≡ true
    → j ≡ k

demote-name : (v r : ContractVersion) → (ContractVersion.demote v r).name ≡ r.name
unfolding ContractVersion.demote
demote-name v r = ground arith

demote-contract : (v r : ContractVersion) → (ContractVersion.demote v r).contract ≡ r.contract
unfolding ContractVersion.demote
demote-contract v r = ground arith

find-demoted :
    (v : ContractVersion) (b : Bool) (k : String) (rows : List ContractVersion)
    → find_version k (if b then map (ContractVersion.demote v) rows else rows) ≡ (
        if b
        then Option.map (ContractVersion.demote v) (find_version k rows)
        else find_version k rows)
find-demoted v true k rows =
    Table.find-map (λ (r : ContractVersion). r.name) (ContractVersion.demote v) (demote-name v) k
      rows
find-demoted v false k rows = refl

find-write :
    (v : ContractVersion) (k : String) (rows : List ContractVersion)
    → find_version k (ContractVersion.write v rows) ≡ (
        if str_eq v.name k
        then some v
        else if v.is_current
        then Option.map (ContractVersion.demote v) (find_version k rows)
        else find_version k rows)
unfolding ContractVersion.write ContractVersion.before_save ContractVersion.set_as_current_version
find-write v k rows =
    rw
      (
        Table.find-put (λ (r : ContractVersion). r.name) v k
            (if v.is_current then map (ContractVersion.demote v) rows else rows),
        find-demoted v v.is_current k rows,
      )
      refl

-- A row that the save left in the table, and what it was before.
pub record Kept (v a : ContractVersion) (b : ContractVersion) : Type 0 where
  pub same_contract : a.contract ≡ b.contract
  pub same_number : a.version_number ≡ b.version_number
  pub was_current : a.is_current ≡ true → b.is_current ≡ true
  pub not_beside : v.is_current ≡ true → a.is_current ≡ true → b.contract ≢ v.contract

Kept-same : (v b : ContractVersion) → v.is_current ≡ false → Kept v b b
Kept-same v b past = record {
  same_contract = refl;
  same_number = refl;
  was_current = λ h. h;
  not_beside = λ h. cc;
}

Kept-demote :
    (v b : ContractVersion) → str_eq v.name b.name ≡ false → Kept v (ContractVersion.demote v b) b
unfolding ContractVersion.demote ContractVersion.other_current
Kept-demote v b other = record {
  same_contract = demote-contract v b;
  same_number = ground arith;
  was_current = ground arith;
  not_beside =
      ground (arith, eq_iff b.contract v.contract, eq_iff b.name v.name, eq_iff v.name b.name);
}

-- What stands in the table under a name after the save.
pub data Found (v : ContractVersion) (k : String) (rows : List ContractVersion)
    : ContractVersion → Type 0 where
  saved : v.name ≡ k → Found v k rows v
  kept :
      {a : ContractVersion} (b : ContractVersion)
      → find_version k rows ≡ some b
      → str_eq v.name k ≡ false
      → Kept v a b
      → Found v k rows a

other_row :
    (v a : ContractVersion) (k : String) (rows : List ContractVersion)
    → str_eq v.name k ≡ false
    → (if v.is_current
        then Option.map (ContractVersion.demote v) (find_version k rows)
        else find_version k rows)
      ≡ some a
    → Found v k rows a
other_row v a k rows other h = go v.is_current refl (find_version k rows) refl h
  where
    go :
        (c : Bool)
        → v.is_current ≡ c
        → (o : Option ContractVersion) → find_version k rows ≡ o
        → (if c then Option.map (ContractVersion.demote v) o else o) ≡ some a
        → Found v k rows a
    go true e none f g = cc
    go false e none f g = cc
    go true e (some b) f g =
        let named : str_eq v.name b.name ≡ false =
          rw (Table.find-key (λ (r : ContractVersion). r.name) k rows b f) other in
        let kept_b = Kept-demote v b named in
        let is_a : ContractVersion.demote v b ≡ a = cc in kept b f other (rw (← is_a) kept_b)
    go false e (some b) f g =
        let is_a : b ≡ a = cc in kept b f other (rw (← is_a) (Kept-same v b e))

pub find-Found :
    (v a : ContractVersion) (k : String) (rows : List ContractVersion)
    → find_version k (ContractVersion.write v rows) ≡ some a
    → Found v k rows a
find-Found v a k rows h = go (str_eq v.name k) refl (rw (← find-write v k rows) h)
  where
    go :
        (c : Bool)
        → str_eq v.name k ≡ c
        → (if c
            then some v
            else if v.is_current
            then Option.map (ContractVersion.demote v) (find_version k rows)
            else find_version k rows)
          ≡ some a
        → Found v k rows a
    go true e g = let is_a : v ≡ a = cc in rw (← is_a) (saved ((eq_iff v.name k).0 e))
    go false e g = other_row v a k rows e g

write-OneCurrent :
    (v : ContractVersion) (c : String) (rows : List ContractVersion)
    → OneCurrent c rows
    → OneCurrent c (ContractVersion.write v rows)
write-OneCurrent v c rows one j k a b ha hb ca cb ta tb =
    go j k a b (find-Found v a j rows ha) (find-Found v b k rows hb) ca cb ta tb
  where
    go :
        (j k : String) (a b : ContractVersion)
        → Found v j rows a
        → Found v k rows b
        → a.contract ≡ c
        → b.contract ≡ c
        → a.is_current ≡ true
        → b.is_current ≡ true
        → j ≡ k
    go j k a b (saved e) (saved f) ca cb ta tb = cc
    go j k a b (saved e) (kept b' g _ m) ca cb ta tb =
        absurd (m.not_beside ta tb (cc (m.same_contract)))
    go j k a b (kept a' g _ m) (saved e) ca cb ta tb =
        absurd (m.not_beside tb ta (cc (m.same_contract)))
    go j k a b (kept a' f _ m) (kept b' g _ n) ca cb ta tb =
        one j k a' b' f g (cc (m.same_contract)) (cc (n.same_contract)) (m.was_current ta)
          (n.was_current tb)

-- A save of a Contract Version, whether it returns or raises, leaves a contract with at most one
-- current version if it had at most one before.
pub save-OneCurrent :
    (p : Platform) (ignore : Bool) (v : ContractVersion) (site : Site) (c : String)
    → OneCurrent c site.versions
    → OneCurrent c (state_of (ContractVersion.save p ignore v site)).versions
unfolding ContractVersion.save ContractVersion.store
save-OneCurrent p ignore v site c one = go (ContractVersion.accept p ignore site v)
  where
    go :
        (r : Result ContractVersion)
        → OneCurrent c (state_of (ContractVersion.store site r)).versions
    go (ok w) = write-OneCurrent w c site.versions one
    go (err e) = one
