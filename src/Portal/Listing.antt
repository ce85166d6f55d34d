-- ===== src/Portal/Listing.antt =====
-- portal_api.py: what `get_dashboard` lists.
use contract_management.Prelude.{
  ◌≡◌, refl, ◌↔◌, eq_iff, inl, inr, ap, ◌∙◌, Bool, true, false, Option, none, some, List, [], ◌∷◌,
  arith, if◌then◌else◌,
}
use contract_management.Prelude.Order.{sort_by, In, Ordered, In-sort_by, sort_by-Ordered}
use contract_management.Prelude.Timestamps.{not_before_total}
use contract_management.Failure.{ok}
use contract_management.Site.{Contract, ContractVersion, Site, find_contract}
use contract_management.Platform.{Platform}
use contract_management.Portal.{Member, require_counterparty}
use contract_management.Portal.Dashboard.{
  Row, row_of, is_listed, joined, select_rows, row_order, Dashboard, get_dashboard,
}

-- The row stands for a version of a contract that the WHERE clause accepts.
abbrev pub IsListed : Platform → Member → List Contract → List ContractVersion → Row → Type 0
IsListed p member contracts versions row =
    (v : ContractVersion) × (c : Contract) × In v versions
    × (find_contract v.contract contracts ≡ some c)
    × (c.counterparty ≡ member.name)
    × (v.is_current ≡ true)
    × (c.docstatus ≡ 1)
    × (row_of p c v ≡ row)

is_listed-true :
    (member : Member) (c : Contract) (v : ContractVersion)
    → (is_listed member c v ≡ true)
      ↔ ((c.counterparty ≡ member.name) × (v.is_current ≡ true) × (c.docstatus ≡ 1))
unfolding is_listed
is_listed-true member c v = (
  λ h. ground (arith, eq_iff c.counterparty member.name),
  λ h. ground (arith, h.0, h.1, h.2, eq_iff c.counterparty member.name),
)

module _ (p : Platform) (member : Member) (contracts : List Contract) where
  weaken :
      (v : ContractVersion) (rows : List ContractVersion) (row : Row)
      → IsListed p member contracts rows row
      → IsListed p member contracts (v ∷ rows) row
  weaken v rows row (u, c, place, found, own, current, submitted, same) =
      (u, c, inr place, found, own, current, submitted, same)

  module _ (v : ContractVersion) (versions : List ContractVersion) (row : Row) where
    -- The row that a version adds, if its contract `c` passes the condition.
    added :
        (c : Contract) (rest : List Row) (b : Bool)
        → find_contract v.contract contracts ≡ some c
        → is_listed member c v ≡ b
        → (In row rest → IsListed p member contracts versions row)
        → In row (if b then row_of p c v ∷ rest else rest)
        → IsListed p member contracts (v ∷ versions) row
    added c rest true e passes old (inl same) =
        let (own, current, submitted) = (is_listed-true member c v).0 passes in
        (v, c, inl refl, e, own, current, submitted, same)
    added c rest true e passes old (inr place) = weaken v versions row (old place)
    added c rest false e passes old place = weaken v versions row (old place)

    from_joined :
        (o : Option Contract) (rest : List Row)
        → find_contract v.contract contracts ≡ o
        → (In row rest → IsListed p member contracts versions row)
        → In row (joined p member o v rest)
        → IsListed p member contracts (v ∷ versions) row
    unfolding joined
    from_joined none rest e old place = weaken v versions row (old place)
    from_joined (some c) rest e old place = added c rest (is_listed member c v) e refl old place

    -- What was there before stays.
    kept : (o : Option Contract) (rest : List Row) → In row rest → In row (joined p member o v rest)
    unfolding joined
    kept none rest place = place
    kept (some c) rest place = go (is_listed member c v)
      where
        go : (b : Bool) → In row (if b then row_of p c v ∷ rest else rest)
        go true = inr place
        go false = place

    own_row :
        (c : Contract) (rest : List Row)
        → is_listed member c v ≡ true
        → row_of p c v ≡ row
        → In row (joined p member (some c) v rest)
    unfolding joined
    own_row c rest passes same = rw passes (inl same)

  to_listed :
      (versions : List ContractVersion) (row : Row)
      → In row (select_rows p member contracts versions)
      → IsListed p member contracts versions row
  unfolding select_rows
  to_listed [] row place = absurd place
  to_listed (v ∷ versions) row place =
      from_joined v versions row (find_contract v.contract contracts)
        (select_rows p member contracts versions) refl (to_listed versions row) place

  from_listed :
      (versions : List ContractVersion) (row : Row)
      → IsListed p member contracts versions row
      → In row (select_rows p member contracts versions)
  unfolding select_rows
  from_listed [] row (v, c, place, found, own, current, submitted, same) = absurd place
  from_listed (u ∷ versions) row (v, c, inl same, e, own, current, submitted, eq) =
      let rest = select_rows p member contracts versions in
      let passes = (is_listed-true member c v).1 (own, current, submitted) in
      let found : find_contract u.contract contracts ≡ some c = rw same e in
      rw found (own_row u versions row c rest (rw same passes) (ap (row_of p c) same ∙ eq))
  from_listed (u ∷ versions) row (v, c, inr place, e, own, current, submitted, same) =
      kept u versions row (find_contract u.contract contracts)
        (select_rows p member contracts versions)
        (from_listed versions row (v, c, place, e, own, current, submitted, same))

row_order_total : (x y : Row) → row_order x y ≡ false → row_order y x ≡ true
unfolding row_order
row_order_total x y = ground (arith, not_before_total x.modified y.modified)

-- For a portal user, the dashboard holds exactly one kind of row: one for each current version of a
-- submitted contract of the user's own counterparty, sorted by the place of the version's status in
-- the query's list and then by the contract's last change, newest first.
pub get_dashboard-Listed :
    (p : Platform) (site : Site) (member : Member)
    → require_counterparty p site ≡ ok member
    → (d : Dashboard) × (get_dashboard p site ≡ ok d)
      × (d.counterparty ≡ member)
      × ((row : Row) → In row d.contracts ↔ IsListed p member site.contracts site.versions row)
      × Ordered row_order d.contracts
unfolding get_dashboard
get_dashboard-Listed p site member h = (
  record {
    counterparty = member;
    contracts = sort_by row_order (select_rows p member site.contracts site.versions);
  },
  rw h refl,
  refl,
  λ row. (
    λ place.
        to_listed p member site.contracts site.versions row
          ((In-sort_by row_order row (select_rows p member site.contracts site.versions)).0 place),
    λ listed.
        (In-sort_by row_order row (select_rows p member site.contracts site.versions)).1
          (from_listed p member site.contracts site.versions row listed),
  ),
  sort_by-Ordered row_order row_order_total (select_rows p member site.contracts site.versions),
)
