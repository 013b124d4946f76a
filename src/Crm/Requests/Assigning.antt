-- ===== src/Crm/Requests/Assigning.antt =====
-- crm/models/request.py and crm/site/requestadmin.py: who the counterparty of a request becomes.
-- `none` is an exception.
use django_crm_marscode.Prelude.Options.{◌>>=◌}
use django_crm_marscode.Prelude.{
  ℕ, Bool, true, false, ◌&&◌, ◌||◌, Option, none, some, List, [], ◌∷◌, ◌++◌, ◌==◌, if◌then◌else◌,
  is_some, find,
}
use django_crm_marscode.Crm.Persons.{Contact, Lead, Company}
use django_crm_marscode.Crm.Requests.{Request, Base, is_given, find_contact_or_lead}
use django_crm_marscode.Crm.Requests.Companies.{find_company}

-- The company with the key.
abbrev pub company_of : Base → Option ℕ → Option Company
company_of base none = none
company_of base (some k) = find (λ c. c.ident == k) base.companies

-- The contact and the lead that are made, `ident` being the key that the database gives.
abbrev pub new_contact : Base → ℕ → Company → ℕ → Request → Contact
new_contact base ident company owner q = record {
  ident = ident;
  first_name = q.first_name;
  last_name = q.last_name;
  email = q.email;
  phone = [];
  country = company.country;
  company = company.ident;
  department = base.department_of owner;
  owner = some owner;
}

abbrev pub new_lead : Base → ℕ → ℕ → Request → Lead
new_lead base ident owner q = record {
  ident = ident;
  first_name = q.first_name;
  last_name = q.last_name;
  email = q.email;
  phone = q.phone;
  company_name = q.company_name;
  website = [];
  company_email = [];
  country = q.country;
  city = q.city;
  company = none;
  department = base.department_of owner;
  owner = some owner;
}

abbrev pub of_company : Option Company → Lead → Lead
of_company none l = l
of_company (some c) l = record l {
  company = some c.ident;
  company_name = c.full_name;
  website = c.website;
  company_email = c.email;
}

-- `get_department_id` raises an exception where there is no owner.
abbrev pub create_contact : Base → ℕ → Company → Option ℕ → Request → Option (Base × Request)
create_contact base ident company none q = none
create_contact base ident company (some owner) q =
    let c = new_contact base ident company owner q in
    some (
      record base { contacts = base.contacts ++ (c ∷ []) },
      record q { contact = some c; verification_required = true },
    )

abbrev pub create_lead : Base → ℕ → Option Company → Option ℕ → Request → Option (Base × Request)
create_lead base ident company none q = none
create_lead base ident company (some owner) q =
    let l = of_company company (new_lead base ident owner q) in
    some (
      record base { leads = base.leads ++ (l ∷ []) },
      record q { lead = some l; company = none; verification_required = true },
    )

abbrev pub create_counterparty : Base → ℕ → Option Company → Request → Option (Base × Request)
create_counterparty base ident none q = create_lead base ident none q.owner q
create_counterparty base ident (some company) q =
    if is_given q.first_name && is_given q.email
    then create_contact base ident company company.owner q
    else create_lead base ident (some company) q.owner q

abbrev pub unless_found : Base → ℕ → Bool × Request → Option (Base × Request)
unless_found base ident (true, q) = some (base, record q { verification_required = true })
unless_found base ident (false, q) =
    let q' = find_company base q in create_counterparty base ident (company_of base q'.company) q'

-- `Request.get_or_create_contact_or_lead`
unfoldable pub get_or_create_contact_or_lead : Base → ℕ → Request → Option (Base × Request)
get_or_create_contact_or_lead base ident q = unless_found base ident (find_contact_or_lead base q)

-- The fields of a request that has a company, where they are empty.
abbrev pub fill_text : List ℕ → List ℕ → List ℕ
fill_text [] other = other
fill_text (c ∷ text) other = c ∷ text

abbrev pub fill_key : Option ℕ → Option ℕ → Option ℕ
fill_key none other = other
fill_key (some k) other = some k

abbrev pub from_company : Option Company → Request → Request
from_company none q = q
from_company (some c) q = record q {
  company_name = fill_text q.company_name c.full_name;
  country = fill_key q.country c.country;
  city = fill_key q.city c.city;
}

abbrev pub company_from_contact : Option ℕ → Option Contact → Request → Request
company_from_contact (some c) contact q = q
company_from_contact none none q = q
company_from_contact none (some contact) q = record q { company = some contact.company }

-- The branch of `RequestAdmin.save_model` for a request that is not pending.
abbrev pub owned : ℕ → Request → Request
owned user q = record q { owner = fill_key q.owner (some user) }

abbrev pub with_counterparty : Base → ℕ → Request → Option (Base × Request)
with_counterparty base ident q =
    if is_some q.contact || is_some q.lead
    then some (base, q)
    else get_or_create_contact_or_lead base ident q

abbrev pub with_company : Base → Request → Request
with_company base q =
    let q' = company_from_contact q.company q.contact q in
    from_company (company_of base q'.company) q'

abbrev pub process : Base → ℕ → ℕ → Request → Option (Base × Request)
process base user ident q = do
  (base', q') ← with_counterparty base ident (owned user q)
  some (base', with_company base' q')

-- The branch for a pending one.
abbrev pub contact_company : Option Contact → Request → Request
contact_company none q = q
contact_company (some c) q = record q { company = some c.company }

abbrev pub search_pending : Base → Request → Request
search_pending base q =
    let q1 = (if is_some q.contact || is_some q.lead then q else (find_contact_or_lead base q).1) in
    let q2 = contact_company q1.contact q1 in
    if is_some q2.company then q2 else find_company base q2

-- The part of `RequestAdmin.save_model` that finds the counterparty, for a request that exists
-- already. `create` tells that the user asks for a deal.
unfoldable pub save_counterparty : Base → ℕ → ℕ → Bool → Bool → Request → Option (Base × Request)
save_counterparty base user ident create duplicate_changed q =
    let q' =
      (if create || (duplicate_changed && q.duplicate) then record q { pending = false } else q) in
    if q'.pending then some (base, search_pending base q') else process base user ident q'
