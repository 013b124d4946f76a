-- ===== src/Crm/RequestSamples.antt =====
-- Concrete requests, and each theorem about them at one input.
use django_crm_marscode.Prelude.{◌++◌}
use django_crm_marscode.Crm.Tickets.{get_ticket, get_ticket_str, get_ticket-get_ticket_str}
use django_crm_marscode.Crm.Requests.NewDeals.{get_or_create_deal, make_deal}
use django_crm_marscode.Prelude.{
  ℕ, ◌≡◌, refl, true, false, ◌&&◌, none, some, List, [], ◌∷◌, leb, ◌==◌, is_some, any, ◌||◌,
}
use django_crm_marscode.Crm.Persons.{Contact}
use django_crm_marscode.Crm.Requests.{Request, Base, asked, search, find_contact_or_lead}
use django_crm_marscode.Crm.Requests.Texts.{same_text}
use django_crm_marscode.Crm.Requests.Search.{candidate}
use django_crm_marscode.Crm.Requests.Found.{is_akin, search-is_akin}
use django_crm_marscode.Crm.Requests.Assigning.{save_counterparty}
use django_crm_marscode.Crm.Requests.Counterparties.{
  find_contact_or_lead-candidate, save_counterparty-processed,
}
use django_crm_marscode.Crm.Requests.Ends.{has_counterparty}
use django_crm_marscode.Crm.Requests.NewDeals.{Rows, Call, get_or_create_deal, make_deal}
use django_crm_marscode.Crm.Deals.{Deal}

abbrev ann : List ℕ
ann = 97 ∷ 110 ∷ []

abbrev mail : List ℕ
mail = 97 ∷ 64 ∷ 98 ∷ []

abbrev contact : Contact
contact = record {
  ident = 1;
  first_name = ann;
  last_name = 98 ∷ [];
  email = mail;
  phone = [];
  country = none;
  company = 20;
  department = none;
  owner = some 3;
}

abbrev base : Base
base = record {
  contacts = contact ∷ [];
  leads = [];
  companies = [];
  of_contact = record {
    first_name = λ t c. same_text t c.first_name;
    last_name = λ t c. same_text t c.last_name;
    email = λ t c. same_text t c.email;
    phone = λ t c. same_text t c.phone;
    company_name = λ t c. false;
  };
  of_lead = record {
    first_name = λ t c. same_text t c.first_name;
    last_name = λ t c. same_text t c.last_name;
    email = λ t c. same_text t c.email;
    phone = λ t c. same_text t c.phone;
    company_name = λ t c. same_text t c.company_name;
  };
  of_company = record {
    name = λ words c. false;
    website = λ t c. same_text t c.website;
    domain = λ t c. false;
  };
  public_domains = [];
  department_of = λ user. some 7;
  parseaddr = λ t. t;
  isdigit = λ c. leb 48 c && leb c 57;
  isalpha = λ c. leb 97 c && leb c 122;
  isspace = λ c. c == 32;
  lower = λ t. t;
}

abbrev request : Request
request = record {
  ident = 5;
  ticket = 55;
  first_name = ann;
  last_name = [];
  email = mail;
  phone = [];
  company_name = [];
  website = [];
  country = none;
  city = none;
  department = none;
  owner = none;
  co_owner = none;
  contact = none;
  lead = none;
  company = none;
  deal = none;
  products = 8 ∷ [];
  pending = true;
  subsequent = false;
  duplicate = false;
  verification_required = false;
}

-- The same person without an email, with a short phone number.
abbrev called : Request
called = record request { email = []; phone = 49 ∷ 50 ∷ 51 ∷ [] }

abbrev owned : Request
owned = record request { pending = false; owner = some 3; contact = some contact }

abbrev rows : Rows
rows = record {
  deals = [];
  outputs = [];
  emails = record { ident = 1; ticket = 55; deal = none } ∷ [];
  stages = [];
  departments = (7, some 2) ∷ [];
  currencies = [];
}

abbrev call : Call
call = record { department = some 7; today = 100; ident = 9; first_step = ann; first_line = ann }

find_contact_or_lead-candidate_example : (find_contact_or_lead base request).0 ≡ (
    any (candidate (asked base base.of_contact request)) base.contacts
    || any (candidate (asked base base.of_lead request)) base.leads)
find_contact_or_lead-candidate_example = find_contact_or_lead-candidate base request

search-is_akin_example : is_akin (asked base base.of_contact request) contact ≡ true
unfolding search
search-is_akin_example =
    search-is_akin (asked base base.of_contact request) base.contacts contact refl

save_counterparty-processed_example :
    (base' : Base) × (q' : Request) × (save_counterparty base 3 9 true false request
      ≡ some (base', q'))
    × (q'.pending ≡ false)
    × (is_some q'.owner ≡ true)
    × (has_counterparty q' ≡ true)
unfolding search
save_counterparty-processed_example = save_counterparty-processed base 3 9 false request refl

-- The deal that is made of the request, and the rows with it.
abbrev new_deal : Deal
new_deal = record {
  ident = 9;
  request = some 5;
  ticket = 55;
  contact = some 1;
  company = some 20;
  country = none;
  city = none;
  currency = some 2;
  co_owner = none;
  owner = some 3;
  department = some 7;
  modified_by = none;
  next_step = ann;
  workflow = ann ∷ [];
  stage = none;
  stages_dates = (100, none) ∷ [];
  closing_reason = none;
  closing_date = none;
  win_closing_date = none;
  lead = none;
  relevant = true;
  active = true;
  is_new = true;
}

abbrev rows_with_deal : Rows
rows_with_deal = record rows { deals = new_deal ∷ []; outputs = (9, 8) ∷ [] }

abbrev linked_rows : Rows
linked_rows = record rows_with_deal {
  emails = record { ident = 1; ticket = 55; deal = some 9 } ∷ [];
}

get_ticket-get_ticket_str_example :
    get_ticket ((ann ++ get_ticket_str (50 ∷ 51 ∷ [])) ∷ mail ∷ []) ≡ some (50 ∷ 51 ∷ [])
get_ticket-get_ticket_str_example = get_ticket-get_ticket_str ann (50 ∷ 51 ∷ []) mail refl refl
