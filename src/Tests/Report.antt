-- ===== src/Tests/Report.antt =====
-- The theorems on the reports.
use contract_management.Prelude.{◌≡◌, ◌↔◌, refl, true, some, none, ◌∷◌}
use contract_management.Prelude.Order.{In, Ordered}
use contract_management.Workflow.{VersionStatus, SignatureRequestStatus}
use contract_management.Site.{Contract, SignatureRequest, Site}
use contract_management.Report.Expiring
use contract_management.Report.Expiring.{execute-Lists}
use contract_management.Report.PendingSignatures
use contract_management.Report.PendingSignatures.{execute-Awaiting}
use contract_management.Portal.Detail.{awaits_signature}
use contract_management.Report.Summary
use contract_management.Report.Summary.Shows.{Shows, execute-Shows}
use contract_management.Tests.Sample.{sample, lease, site_with}
use contract_management.Prelude.{[]}

abbrev office : Site
office = site_with VersionStatus.draft [] SignatureRequestStatus.draft

abbrev soon : Expiring.Filters
soon = record {
  status = "Draft";
  counterparty = "";
  expiration_date_from = none;
  expiration_date_to = some 30;
}

execute-Lists_example :
    ((row : Expiring.Row)
      → In row (Expiring.execute sample 15 soon office).1 ↔ (
          (c : Contract) × In c office.contracts
          × Expiring.IsSelected soon c
          × Expiring.Describes sample c row
          × Expiring.CountsDays 15 c.expiration_date row.days_remaining))
    × Expiring.Ascending (Expiring.execute sample 15 soon office).1
execute-Lists_example = execute-Lists sample 15 soon office

-- The one contract of the site is listed, five days before it expires.
lease_listed : (Expiring.execute sample 15 soon office).1 ≡ Expiring.row_of sample 15 lease ∷ []
unfolding Expiring.get_data
lease_listed = refl

abbrev every : Summary.Filters
every = record {
  status = "";
  counterparty = "";
  effective_date_from = none;
  effective_date_to = none;
}

execute-Shows_example :
    ((row : Summary.Row)
      → In row (Summary.execute sample every office).1 ↔ (
          (c : Contract) × In c office.contracts
          × (Summary.passes every c ≡ true)
          × Shows sample office.versions c row))
    × Ordered Summary.row_order (Summary.execute sample every office).1
execute-Shows_example = execute-Shows sample every office

execute-Awaiting_example :
    ((row : PendingSignatures.Row)
      → In row (PendingSignatures.execute sample (λ s. 9) 15 PendingSignatures.no_filters office).1
        ↔ ((r : SignatureRequest) × In r office.requests
            × (awaits_signature r.status ≡ true)
            × (PendingSignatures.row_of sample (λ s. 9) 15 office r ≡ row)))
    × Ordered PendingSignatures.row_order
        (PendingSignatures.execute sample (λ s. 9) 15 PendingSignatures.no_filters office).1
execute-Awaiting_example = execute-Awaiting sample (λ s. 9) 15 office
