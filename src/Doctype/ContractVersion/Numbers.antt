-- ===== src/Doctype/ContractVersion/Numbers.antt =====
-- The version numbers of a contract after a save of a Contract Version.
use contract_management.Prelude.{
  ◌≡◌, refl, Bool, true, false, String, Option, some, List, [], ◌∷◌, arith, string_eq, str_eq,
  eq_iff,
}
use contract_management.Prelude.Int.{ℤ, ℤ_eq, eq_ℤ_iff}
use contract_management.Prelude.Lists.{any}
use contract_management.Prelude.Table
use contract_management.Failure.{Result, ok, err, ◌>>=◌, >>=-eq-ok, check}
use contract_management.Exec.{state_of}
use contract_management.Site.{ContractVersion, Site, find_version}
use contract_management.Platform.{Platform}
use contract_management.Doctype.ContractVersion
use contract_management.Doctype.ContractVersion.Current.{Found, saved, kept, Kept, find-Found}

-- Two rows of the contract with the same version number are one row.
abbrev pub OneNumber : String → List ContractVersion → Type 0
OneNumber c rows =
    (j k : String) (v w : ContractVersion) (n : ℤ)
    → find_version j rows ≡ some v
    → find_version k rows ≡ some w
    → v.contract ≡ c
    → w.contract ≡ c
    → v.version_number ≡ some n
    → w.version_number ≡ some n
    → j ≡ k

any-find :
    (test : ContractVersion → Bool) (k : String) (rows : List ContractVersion) (b : ContractVersion)
    → any test rows ≡ false
    → find_version k rows ≡ some b
    → test b ≡ false
unfolding any Table.find
any-find test k [] b h e = ground arith
any-find test k (r ∷ rows) b h e = ground (arith, any-find test k rows b)

validate-any :
    (rows : List ContractVersion) (o : Option ContractVersion) (v w : ContractVersion)
    → ContractVersion.validate rows o v ≡ ok w
    → any (ContractVersion.same_number w) rows ≡ false
unfolding ContractVersion.validate ContractVersion.validate_unique_version_number
validate-any rows o v w h =
    let d = ContractVersion.normalize_fields v in
    let (_, _, h1) =
      >>=-eq-ok (ContractVersion.validate_required_fields d)
        (λ _. ContractVersion.validate_unique_version_number rows d >>= λ _.
          ContractVersion.validate_status_consistency d >>= λ _.
          ContractVersion.validate_current_version_exists rows o d >>= λ _. ok d)
        h in
    let (_, unique, h2) =
      >>=-eq-ok (ContractVersion.validate_unique_version_number rows d)
        (λ _. ContractVersion.validate_status_consistency d >>= λ _.
          ContractVersion.validate_current_version_exists rows o d >>= λ _. ok d)
        h1 in
    let (_, _, h3) =
      >>=-eq-ok (ContractVersion.validate_status_consistency d)
        (λ _. ContractVersion.validate_current_version_exists rows o d >>= λ _. ok d) h2 in
    let (_, _, h4) =
      >>=-eq-ok (ContractVersion.validate_current_version_exists rows o d) (λ _. ok d) h3 in
    let is_w : d ≡ w = cc in rw (← is_w) (ground (arith, unique))

accept-any :
    (p : Platform) (ignore : Bool) (site : Site) (v w : ContractVersion)
    → ContractVersion.accept p ignore site v ≡ ok w
    → any (ContractVersion.same_number w) site.versions ≡ false
unfolding ContractVersion.accept
accept-any p ignore site v w h =
    let before = find_version v.name site.versions in
    let (_, _, h1) =
      >>=-eq-ok (check (p.check_version site.user ignore before v))
        (λ _. ContractVersion.validate site.versions before v) h in
    validate-any site.versions before v w h1

-- No row that the query finds beside the saved one has its number.
other_number :
    (v b : ContractVersion) (n : ℤ)
    → ContractVersion.same_number v b ≡ false
    → str_eq v.name b.name ≡ false
    → b.contract ≡ v.contract
    → b.version_number ≡ some n
    → v.version_number ≡ some n
    → ⊥
unfolding ContractVersion.same_number
other_number v b n h other same mb mv =
    let test : ContractVersion.sql_eq b.version_number v.version_number ≡ true =
      rw (mb, mv) ((eq_ℤ_iff n n).1 refl) in
    ground (arith, (eq_iff b.contract v.contract), eq_iff b.name v.name, eq_iff v.name b.name)

write-OneNumber :
    (v : ContractVersion) (c : String) (rows : List ContractVersion)
    → any (ContractVersion.same_number v) rows ≡ false
    → OneNumber c rows
    → OneNumber c (ContractVersion.write v rows)
write-OneNumber v c rows free one j k a b n ha hb ca cb na nb =
    go j k a b (find-Found v a j rows ha) (find-Found v b k rows hb) ca cb na nb
  where
    clash :
        (k : String) (b b' : ContractVersion)
        → find_version k rows ≡ some b'
        → str_eq v.name k ≡ false
        → Kept v b b'
        → v.contract ≡ c
        → b.contract ≡ c
        → v.version_number ≡ some n
        → b.version_number ≡ some n
        → ⊥
    clash k b b' g other m cv cb nv nb =
        other_number v b' n (any-find (ContractVersion.same_number v) k rows b' free g)
          (rw (Table.find-key (λ (r : ContractVersion). r.name) k rows b' g) other)
          (cc (m.same_contract)) (cc (m.same_number)) nv

    go :
        (j k : String) (a b : ContractVersion)
        → Found v j rows a
        → Found v k rows b
        → a.contract ≡ c
        → b.contract ≡ c
        → a.version_number ≡ some n
        → b.version_number ≡ some n
        → j ≡ k
    go j k a b (saved e) (saved f) ca cb na nb = cc
    go j k a b (saved e) (kept b' g o m) ca cb na nb = absurd (clash k b b' g o m ca cb na nb)
    go j k a b (kept a' g o m) (saved e) ca cb na nb = absurd (clash j a a' g o m cb ca nb na)
    go j k a b (kept a' f _ m) (kept b' g _ m') ca cb na nb =
        one j k a' b' n f g (cc (m.same_contract)) (cc (m'.same_contract)) (cc (m.same_number))
          (cc (m'.same_number))

-- A save of a Contract Version, whether it returns or raises, leaves no two versions of a contract
-- with the same number if there were no two before.
pub save-OneNumber :
    (p : Platform) (ignore : Bool) (v : ContractVersion) (site : Site) (c : String)
    → OneNumber c site.versions
    → OneNumber c (state_of (ContractVersion.save p ignore v site)).versions
unfolding ContractVersion.save ContractVersion.store
save-OneNumber p ignore v site c one = go (ContractVersion.accept p ignore site v) refl
  where
    go :
        (r : Result ContractVersion)
        → ContractVersion.accept p ignore site v ≡ r
        → OneNumber c (state_of (ContractVersion.store site r)).versions
    go (ok w) e = write-OneNumber w c site.versions (accept-any p ignore site v w e) one
    go (err x) e = one
