-- ===== src/Crm/Requests/Counterparties.antt =====
-- crm/models/request.py and crm/site/requestadmin.py: the counterparty of a request that is processed.
use django_crm_marscode.Crm.Requests.Ends.{
  foreign, has_counterparty, Same, Ends, AllOwned, with_counterparty-Ends,
}
use django_crm_marscode.Prelude.{
  ℕ, ◌≡◌, refl, sym, ap, ◌∙◌, Bool, true, false, not, ◌||◌, Option, none, some, is_some, any,
}
use django_crm_marscode.Crm.Requests.{
  Request, Base, asked, search, found_contact, found_lead, find_contact_or_lead, Contact, Company,
  Lead,
}
use django_crm_marscode.Crm.Requests.Search.{candidate, search-candidate}
use django_crm_marscode.Crm.Requests.Assigning.{
  company_of, with_company, owned, process, save_counterparty, from_company, company_from_contact,
  fill_key,
}

-- The search answers that it found someone exactly when a contact or a lead fits the request.
pub find_contact_or_lead-candidate :
    (base : Base) (q : Request)
    → (find_contact_or_lead base q).0 ≡ (
        any (candidate (asked base base.of_contact q)) base.contacts
        || any (candidate (asked base base.of_lead q)) base.leads)
unfolding find_contact_or_lead
find_contact_or_lead-candidate base q =
    rw (sym (search-candidate (asked base base.of_contact q) base.contacts)) (
      rw (sym (search-candidate (asked base base.of_lead q) base.leads))
        (found_lem (search (asked base base.of_contact q) base.contacts)))
  where
    leads_lem : (o : Option Lead) → (found_lead o q).0 ≡ is_some o
    leads_lem none = refl
    leads_lem (some l) = refl

    found_lem :
        (o : Option Contact)
        → (found_contact base o q).0
          ≡ (is_some o || is_some (search (asked base base.of_lead q) base.leads))
    found_lem none = leads_lem (search (asked base base.of_lead q) base.leads)
    found_lem (some c) = refl

from_company_lem :
    (o : Option Company) (q : Request)
    → Same q (from_company o q) × (has_counterparty (from_company o q) ≡ has_counterparty q)
from_company_lem none q = ((refl, refl), refl)
from_company_lem (some c) q = ((refl, refl), refl)

company_from_contact_lem :
    (o : Option ℕ) (c : Option Contact) (q : Request)
    → Same q (company_from_contact o c q)
      × (has_counterparty (company_from_contact o c q) ≡ has_counterparty q)
company_from_contact_lem (some k) c q = ((refl, refl), refl)
company_from_contact_lem none none q = ((refl, refl), refl)
company_from_contact_lem none (some c) q = ((refl, refl), refl)

with_company_lem :
    (base : Base) (q : Request)
    → Same q (with_company base q) × (has_counterparty (with_company base q) ≡ has_counterparty q)
with_company_lem base q =
    let q' = company_from_contact q.company q.contact q in
    let ((pending, owner), has) = company_from_contact_lem q.company q.contact q in
    let ((pending', owner'), has') = from_company_lem (company_of base q'.company) q' in
    ((pending' ∙ pending, owner' ∙ owner), has' ∙ has)

owned-is_some : (user : ℕ) (o : Option ℕ) → is_some (fill_key o (some user)) ≡ true
owned-is_some user none = refl
owned-is_some user (some k) = refl

process-Ends :
    (base : Base) (user ident : ℕ) (q : Request)
    → AllOwned base
    → Ends (owned user q) (has_counterparty q || not (foreign base q)) (process base user ident q)
process-Ends base user ident q all_owned =
    let ends =
      with_counterparty-Ends base ident (owned user q) all_owned (owned-is_some user q.owner) in
    let (same, has) = with_company_lem ends.base ends.request in
    record {
      base = ends.base;
      request = with_company ends.base ends.request;
      returns = rw ends.returns refl;
      same = (same.0 ∙ ends.same.0, same.1 ∙ ends.same.1);
      has = has ∙ ends.has;
    }

-- Where every company has an owner, the part `save_counterparty` of saving a request, with the wish
-- for a deal, returns. The request is then no longer pending and has an owner. It has a contact or a lead, unless it had neither before
-- and the contact that is found for it is of another company.
pub save_counterparty-processed :
    (base : Base) (user ident : ℕ) (changed : Bool) (q : Request)
    → AllOwned base
    → (base' : Base) × (q' : Request) × (save_counterparty base user ident true changed q
        ≡ some (base', q'))
      × (q'.pending ≡ false)
      × (is_some q'.owner ≡ true)
      × (has_counterparty q' ≡ (has_counterparty q || not (foreign base q)))
unfolding save_counterparty
save_counterparty-processed base user ident changed q all_owned =
    let ends = process-Ends base user ident (record q { pending = false }) all_owned in
    (
      ends.base,
      ends.request,
      ends.returns,
      ends.same.0,
      ap is_some ends.same.1 ∙ owned-is_some user q.owner,
      ends.has,
    )
