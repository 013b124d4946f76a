-- ===== src/Crm/Requests/Ends.antt =====
-- crm/models/request.py: how the search for a counterparty, or its making, ends.
use django_crm_marscode.Prelude.{
  ℕ, ◌≡◌, refl, ap, ◌∙◌, inl, inr, Bool, true, false, not, ◌&&◌, ◌||◌, Option, none, some, List, [],
  ◌∷◌, arith, ◌==◌, if◌then◌else◌, is_some, Bool-cases, Option-cases, find, all,
}
use django_crm_marscode.Crm.Requests.{
  Request, Base, asked, search, is_given, found_contact, found_lead, set_contact,
  find_contact_or_lead, Contact, Company, Lead,
}
use django_crm_marscode.Crm.Requests.Companies.{find_company}
use django_crm_marscode.Crm.Requests.Linked.{find_company-Linked}
use django_crm_marscode.Crm.Requests.Assigning.{
  company_of, create_counterparty, with_counterparty, unless_found, get_or_create_contact_or_lead,
  create_lead, create_contact,
}

-- Whether the contact that the search finds is of another company than the request.
abbrev pub foreign_to : Option Contact → Option ℕ → Bool
foreign_to none company = false
foreign_to (some c) none = false
foreign_to (some c) (some k) = not (k == c.company)

abbrev pub foreign : Base → Request → Bool
foreign base q = foreign_to (search (asked base base.of_contact q) base.contacts) q.company

abbrev pub has_counterparty : Request → Bool
has_counterparty q = is_some q.contact || is_some q.lead

-- The second request has the state and the owner of the first one.
abbrev pub Same : Request → Request → Type 0
Same q q' = (q'.pending ≡ q.pending) × (q'.owner ≡ q.owner)

-- The step returns a request of the same state and owner, which has a counterparty or not.
pub record Ends (q : Request) (expected : Bool) (r : Option (Base × Request)) : Type 0 where
  pub base : Base
  pub request : Request
  pub returns : r ≡ some (base, request)
  pub same : Same q request
  pub has : has_counterparty request ≡ expected

-- Every company has an owner.
abbrev pub AllOwned : Base → Type 0
AllOwned base = all (λ c. is_some c.owner) base.companies ≡ true

abbrev has_owner : Option Company → Bool
has_owner none = true
has_owner (some c) = is_some c.owner

find-has_owner :
    (l : List Company) (test : Company → Bool)
    → all (λ d. is_some d.owner) l ≡ true
    → has_owner (find test l) ≡ true
find-has_owner [] test h = refl
find-has_owner (d ∷ l) test h = elim (Bool-cases (test d)) [
  | inl fits ↦ rw fits (ground arith)
  | inr fails ↦ rw fails (find-has_owner l test (ground arith))
]

company_of-has_owner :
    (base : Base) (o : Option ℕ) → AllOwned base → has_owner (company_of base o) ≡ true
company_of-has_owner base none h = refl
company_of-has_owner base (some k) h = find-has_owner base.companies (λ c. c.ident == k) h

create_contact-Ends :
    (base : Base) (ident : ℕ) (c : Company) (o : Option ℕ) (q : Request)
    → is_some o ≡ true
    → Ends q true (create_contact base ident c o q)
create_contact-Ends base ident c none q h = ground arith
create_contact-Ends base ident c (some owner) q h = record {
  base = _;
  request = _;
  returns = refl;
  same = (refl, refl);
  has = refl;
}

create_lead-Ends :
    (base : Base) (ident : ℕ) (c : Option Company) (o : Option ℕ) (q : Request)
    → is_some o ≡ true
    → Ends q true (create_lead base ident c o q)
create_lead-Ends base ident c none q h = ground arith
create_lead-Ends base ident c (some owner) q h = record {
  base = _;
  request = _;
  returns = refl;
  same = (refl, refl);
  has = ground arith;
}

if-Ends :
    (q : Request) (has b : Bool) (r r' : Option (Base × Request))
    → Ends q has r
    → Ends q has r'
    → Ends q has (if b then r else r')
if-Ends q has true r r' h h' = h
if-Ends q has false r r' h h' = h'

create_counterparty-Ends :
    (base : Base) (ident : ℕ) (o : Option Company) (q : Request)
    → has_owner o ≡ true
    → is_some q.owner ≡ true
    → Ends q true (create_counterparty base ident o q)
create_counterparty-Ends base ident none q known owner =
    create_lead-Ends base ident none q.owner q owner
create_counterparty-Ends base ident (some c) q known owner =
    if-Ends q true (is_given q.first_name && is_given q.email) _ _
      (create_contact-Ends base ident c c.owner q known)
      (create_lead-Ends base ident (some c) q.owner q owner)

set_contact-Ends :
    (base : Base) (c : Contact) (q : Request)
    → has_counterparty q ≡ false
    → Ends q
        (not (foreign_to (some c) q.company))
        (some (base, record (set_contact c q) { verification_required = true }))
set_contact-Ends base c q neither = record {
  base = _;
  request = _;
  returns = refl;
  same = set_contact-Same c q;
  has = ground arith;
}
  where
    set_contact-Same : (c : Contact) (q : Request) → Same q (set_contact c q)
    set_contact-Same c q = elim (Option-cases q.company) [
      | inl missing ↦ rw missing (refl, refl)
      | inr (k, given) ↦ (ground arith, ground arith)
    ]

unless_found-Ends :
    (base : Base) (ident : ℕ) (o : Option Contact) (q : Request)
    → AllOwned base
    → is_some q.owner ≡ true
    → has_counterparty q ≡ false
    → Ends q (not (foreign_to o q.company)) (unless_found base ident (found_contact base o q))
unless_found-Ends base ident (some c) q all_owned owner neither = set_contact-Ends base c q neither
unless_found-Ends base ident none q all_owned owner neither =
    leads_lem (search (asked base base.of_lead q) base.leads)
  where
    leads_lem : (o : Option Lead) → Ends q true (unless_found base ident (found_lead o q))
    leads_lem none =
        let q' = find_company base q in
        let h = find_company-Linked base q in
        let ends =
          create_counterparty-Ends base ident (company_of base q'.company) q'
            (company_of-has_owner base q'.company all_owned) (ap is_some h.owner ∙ owner) in
        record {
          base = ends.base;
          request = ends.request;
          returns = ends.returns;
          same = (ends.same.0 ∙ h.pending, ends.same.1 ∙ h.owner);
          has = ends.has;
        }
    leads_lem (some l) = record {
      base = _;
      request = _;
      returns = refl;
      same = (refl, refl);
      has = ground arith;
    }

pub with_counterparty-Ends :
    (base : Base) (ident : ℕ) (q : Request)
    → AllOwned base
    → is_some q.owner ≡ true
    → Ends q (has_counterparty q || not (foreign base q)) (with_counterparty base ident q)
unfolding get_or_create_contact_or_lead find_contact_or_lead
with_counterparty-Ends base ident q all_owned owner =
    let o = search (asked base base.of_contact q) base.contacts in
    elim (Bool-cases (has_counterparty q)) [
      | inl given ↦
          rw given
            (record { base = base; request = q; returns = refl; same = (refl, refl); has = given })
      | inr neither ↦ rw neither (unless_found-Ends base ident o q all_owned owner neither)
    ]
