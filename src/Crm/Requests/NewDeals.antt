-- ===== src/Crm/Requests/NewDeals.antt =====
-- crm/site/requestadmin.py: the deal that is made of a request. `none` is an exception.
use django_crm_marscode.Prelude.{
  ℕ, Bool, true, not, ◌&&◌, ◌||◌, Option, none, some, List, [], ◌∷◌, ◌++◌, map, ◌==◌, if◌then◌else◌,
  opt_eq, is_some, filter, find,
}
use django_crm_marscode.Crm.Persons.{Contact, Lead, Company}
use django_crm_marscode.Crm.Deals.{DealStage, Deal, get_one}
use django_crm_marscode.Crm.Requests.{Request, Base}
use django_crm_marscode.Crm.Requests.Assigning.{company_of}
use django_crm_marscode.Prelude.Options.{◌>>=◌}

-- A row of crm's CrmEmail.
pub record Email : Type 0 where
  pub ident : ℕ
  pub ticket : ℕ
  pub deal : Option ℕ

-- The rows that the step reads and writes. A department has its default currency; a currency is
-- marked as the state's one.
pub record Rows : Type 0 where
  pub deals : List Deal
  pub outputs : List (ℕ × ℕ)
  pub emails : List Email
  pub stages : List DealStage
  pub departments : List (ℕ × Option ℕ)
  pub currencies : List (ℕ × Bool)

-- What the step reads besides the rows: the user's department, the day, the key that the database
-- gives to a new row, and the texts `FIRST_STEP` and the first line of the workflow.
pub record Call : Type 0 where
  pub department : Option ℕ
  pub today : ℕ
  pub ident : ℕ
  pub first_step : List ℕ
  pub first_line : List ℕ

-- `Deal.objects.get(request=obj, ticket=obj.ticket)` finds the deals that fit.
abbrev pub deals_of : Request → Rows → List Deal
deals_of q rows = filter (λ d. opt_eq d.request (some q.ident) && d.ticket == q.ticket) rows.deals

abbrev pub state_currency : List ℕ → Option (Option ℕ)
state_currency keys = elim (get_one keys) [ none ↦ none | some k ↦ some (some k) ]

abbrev pub currency_of : Option ℕ → Rows → Option (Option ℕ)
currency_of none rows = state_currency (map (λ c. c.0) (filter (λ c. c.1) rows.currencies))
currency_of (some department) rows =
    get_one (map (λ d. d.1) (filter (λ d. d.0 == department) rows.departments))

abbrev pub first_stage : Option ℕ → Rows → Option DealStage
first_stage department rows = find (λ s. opt_eq s.department department && s.default) rows.stages

abbrev pub stage_ident : Option DealStage → Option ℕ
stage_ident none = none
stage_ident (some s) = some s.ident

-- The deal before its counterparty and its currency are set.
abbrev pub plain_deal : Base → Call → Rows → ℕ → Request → Deal
plain_deal base call rows owner q =
    let department = base.department_of owner in
    let stage = first_stage department rows in
    record {
      ident = call.ident;
      request = some q.ident;
      ticket = q.ticket;
      contact = none;
      company = none;
      country = none;
      city = none;
      currency = none;
      co_owner = q.co_owner;
      owner = some owner;
      department = department;
      modified_by = none;
      next_step = call.first_step;
      workflow = call.first_line ∷ [];
      stage = stage;
      stages_dates = (call.today, stage_ident stage) ∷ [];
      closing_reason = none;
      closing_date = none;
      win_closing_date = none;
      lead = none;
      relevant = true;
      active = true;
      is_new = true;
    }

abbrev pub at_company : Option Company → Deal → Deal
at_company none d = d
at_company (some c) d = record d { country = c.country; city = c.city }

abbrev pub of_lead : Option Lead → Deal → Deal
of_lead none d = record d { lead = none }
of_lead (some l) d = record d { lead = some l; country = l.country; city = l.city }

abbrev pub with_person : Base → Request → Option Contact → Deal → Deal
with_person base q none d = of_lead q.lead d
with_person base q (some c) d =
    at_company (company_of base (some c.company))
      (record d { contact = some c.ident; company = some c.company })

abbrev pub add_deal : Deal → Request → Rows → Rows
add_deal d q rows = record rows {
  deals = rows.deals ++ (d ∷ []);
  outputs = rows.outputs ++ map (λ p. (d.ident, p)) q.products;
}

abbrev pub create_deal : Base → Call → Rows → Option ℕ → Request → Option (Deal × Rows)
create_deal base call rows none q = none
create_deal base call rows (some owner) q = do
  currency ← currency_of call.department rows
  let d =
      with_person base q q.contact
        (record (plain_deal base call rows owner q) { currency = currency })
  some (d, add_deal d q rows)

abbrev pub get_or_create_from : List Deal → Base → Call → Rows → Request → Option (Deal × Rows)
get_or_create_from [] base call rows q = create_deal base call rows q.owner q
get_or_create_from (d ∷ []) base call rows q = some (d, rows)
get_or_create_from (d ∷ e ∷ more) base call rows q = none

-- `_get_or_create_deal`
unfoldable pub get_or_create_deal : Base → Call → Rows → Request → Option (Deal × Rows)
get_or_create_deal base call rows q = get_or_create_from (deals_of q rows) base call rows q

abbrev pub company_of_contact : Option Contact → Option ℕ → Option ℕ
company_of_contact none company = company
company_of_contact (some c) none = some c.company
company_of_contact (some c) (some k) = some k

-- The emails of the ticket that have no deal get this one.
abbrev pub link_emails : ℕ → ℕ → List Email → List Email
link_emails ticket deal emails =
    map
      (λ e. if e.ticket == ticket && not (is_some e.deal) then record e { deal = some deal } else e)
      emails

-- The request and the emails are linked to the deal.
abbrev pub link_deal : Request → Deal × Rows → Request × Rows
link_deal q (d, rows) = (
  record q { deal = some d.ident; company = company_of_contact q.contact q.company },
  record rows { emails = link_emails q.ticket d.ident rows.emails },
)

-- The part of `RequestAdmin.save_related` for the wish for a deal.
unfoldable pub make_deal : Base → Call → Rows → Request → Option (Request × Rows)
make_deal base call rows q =
    if q.pending || is_some q.deal || q.duplicate
    then some (q, rows)
    else (do made ← get_or_create_deal base call rows q; some (link_deal q made))
