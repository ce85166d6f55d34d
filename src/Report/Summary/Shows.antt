-- ===== src/Report/Summary/Shows.antt =====
-- report/contract_summary/contract_summary.py: which rows the summary holds.
use contract_management.Prelude.{
  ◌≡◌, refl, ◌↔◌, ◌⊎◌, inl, inr, subst, sym, true, none, List, [], ◌∷◌, eq_iff, arith,
}
use contract_management.Prelude.Lists.{filter, append}
use contract_management.Prelude.Order.{In, Ordered, sort_by, In-sort_by, In-filter, sort_by-Ordered}
use contract_management.Prelude.Timestamps.{not_before_total}
use contract_management.Site.{Contract, ContractVersion, Site}
use contract_management.Platform.{Platform}
use contract_management.Report.{In-map}
use contract_management.Report.Summary.{
  Filters, Row, passes, row_of, is_joined, rows_with, joined, row_order, get_data, execute,
}

In-append : {A : Type 0} (a : A) (xs ys : List A) → In a (append xs ys) ↔ (In a xs ⊎ In a ys)
In-append a [] ys = (λ h. inr h, λ h. elim h [ inl k ↦ absurd k | inr k ↦ k ])
In-append {A} a (x ∷ xs) ys = (to (In-append a xs ys).0, from (In-append a xs ys).1)
  where
    to :
        (In a (append xs ys) → In a xs ⊎ In a ys)
        → In a (x ∷ append xs ys)
        → In a (x ∷ xs) ⊎ In a ys
    to rest (inl same) = inl (inl same)
    to rest (inr place) = elim (rest place) [ inl k ↦ inl (inr k) | inr k ↦ inr k ]

    from :
        (In a xs ⊎ In a ys → In a (append xs ys))
        → In a (x ∷ xs) ⊎ In a ys
        → In a (x ∷ append xs ys)
    from rest (inl (inl same)) = inl same
    from rest (inl (inr k)) = inr (rest (inl k))
    from rest (inr k) = inr (rest (inr k))

-- The row of a contract with one of its current versions, or with none if it has none.
abbrev pub Shows : Platform → List ContractVersion → Contract → Row → Type 0
Shows p versions c row =
    ((filter (is_joined c) versions ≡ []) × (row_of p c none ≡ row))
    ⊎ ((v : ContractVersion) × In v versions
        × (v.contract ≡ c.name)
        × (v.is_current ≡ true)
        × (row_of p c v.version_number ≡ row))

is_joined-true :
    (c : Contract) (v : ContractVersion)
    → (is_joined c v ≡ true) ↔ ((v.contract ≡ c.name) × (v.is_current ≡ true))
unfolding is_joined
is_joined-true c v = (
  λ h. ground (arith, eq_iff v.contract c.name),
  λ h. ground (arith, h.0, h.1, eq_iff v.contract c.name),
)

abbrev number_row : Platform → Contract → ContractVersion → Row
number_row p c v = row_of p c v.version_number

In-rows_with :
    (p : Platform) (versions : List ContractVersion) (c : Contract) (row : Row)
    → In row (rows_with p c (filter (is_joined c) versions)) ↔ Shows p versions c row
unfolding rows_with
In-rows_with p versions c row = (
  λ h. to (filter (is_joined c) versions) refl h,
  λ h. from (filter (is_joined c) versions) refl h,
)
  where
    to :
        (found : List ContractVersion)
        → filter (is_joined c) versions ≡ found
        → In row (rows_with p c found)
        → Shows p versions c row
    to [] e (inl same) = inl (e, same)
    to [] e (inr k) = absurd k
    to (v ∷ rest) e h =
        let (u, place, same) = (In-map (number_row p c) row (v ∷ rest)).0 h in
        let (there, joins) = (In-filter (is_joined c) u versions).0 (rw e place) in
        let (names, current) = (is_joined-true c u).0 joins in inr (u, there, names, current, same)

    from :
        (found : List ContractVersion)
        → filter (is_joined c) versions ≡ found
        → Shows p versions c row
        → In row (rows_with p c found)
    from [] e (inl (empty, same)) = inl same
    from [] e (inr (v, there, names, current, same)) =
        let place : In v [] = subst (In v) e (
          (In-filter (is_joined c) v versions).1
            (there, (is_joined-true c v).1 (names, current))) in
        absurd place
    from (v ∷ rest) e (inl (empty, same)) = cc
    from (v ∷ rest) e (inr (u, there, names, current, same)) =
        let place : In u (v ∷ rest) = subst (In u) e (
          (In-filter (is_joined c) u versions).1
            (there, (is_joined-true c u).1 (names, current))) in
        (In-map (number_row p c) row (v ∷ rest)).1 (u, place, same)

In-joined :
    (p : Platform) (versions : List ContractVersion) (contracts : List Contract) (row : Row)
    → In row (joined p versions contracts)
      ↔ ((c : Contract) × In c contracts × Shows p versions c row)
unfolding joined
In-joined p versions [] row = (λ h. absurd h, λ h. absurd h.1)
In-joined p versions (c ∷ rest) row =
    (to (In-joined p versions rest row).0, from (In-joined p versions rest row).1)
  where
    own : List Row
    own = rows_with p c (filter (is_joined c) versions)

    to :
        (In row (joined p versions rest) → (d : Contract) × In d rest × Shows p versions d row)
        → In row (append own (joined p versions rest))
        → (d : Contract) × In d (c ∷ rest) × Shows p versions d row
    to old h = elim ((In-append row own (joined p versions rest)).0 h) [
      | inl place ↦ (c, inl refl, (In-rows_with p versions c row).0 place)
      | inr place ↦ let (d, there, shows) = old place in (d, inr there, shows)
    ]

    from :
        ((d : Contract) × In d rest × Shows p versions d row → In row (joined p versions rest))
        → (d : Contract) × In d (c ∷ rest) × Shows p versions d row
        → In row (append own (joined p versions rest))
    from old (d, inl same, shows) = (In-append row own (joined p versions rest)).1 (
        inl (
          (In-rows_with p versions c row).1 (subst (λ x. Shows p versions x row) (sym same) shows)))
    from old (d, inr there, shows) =
        (In-append row own (joined p versions rest)).1 (inr (old (d, there, shows)))

-- The contract summary holds exactly these rows: for each contract that passes the filters, one with
-- the number of each of its current versions, or one without a number if it has none. The contract
-- that was changed last comes first.
pub execute-Shows :
    (p : Platform) (f : Filters) (site : Site)
    → ((row : Row)
        → In row (execute p f site).1 ↔ (
            (c : Contract) × In c site.contracts
            × (passes f c ≡ true)
            × Shows p site.versions c row))
      × Ordered row_order (execute p f site).1
unfolding get_data
execute-Shows p f site = (
  λ row. (λ h. to row h, λ h. from row h),
  sort_by-Ordered row_order (λ x y. not_before_total x.modified y.modified) rows,
)
  where
    rows : List Row
    rows = joined p site.versions (filter (passes f) site.contracts)

    Expected : Row → Type 0
    Expected row =
        (c : Contract) × In c site.contracts × (passes f c ≡ true) × Shows p site.versions c row

    to : (row : Row) → In row (sort_by row_order rows) → Expected row
    to row h =
        let (c, place, shows) =
          (In-joined p site.versions (filter (passes f) site.contracts) row).0
            ((In-sort_by row_order row rows).0 h) in
        let (there, passing) = (In-filter (passes f) c site.contracts).0 place in
        (c, there, passing, shows)

    from : (row : Row) → Expected row → In row (sort_by row_order rows)
    from row (c, there, passing, shows) = (In-sort_by row_order row rows).1 (
        (In-joined p site.versions (filter (passes f) site.contracts) row).1
          (c, (In-filter (passes f) c site.contracts).1 (there, passing), shows))
