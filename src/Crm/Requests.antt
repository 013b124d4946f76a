-- ===== src/Crm/Requests.antt =====
-- crm/models/request.py: the request of a client, and the search for the person who made it. Texts
-- are lists of characters; what the database finds for a text is a test of the row.
pub mod Search
pub mod Found
pub mod Texts
pub mod Companies
pub mod Assigning
pub mod Linked
pub mod Ends
pub mod Counterparties
pub mod NewDeals
pub mod OneDeal
pub mod Owners
use django_crm_marscode.Prelude.{}
use django_crm_marscode.Crm.Persons.{Contact, Lead, Company}
use django_crm_marscode.Prelude.{
  ℕ, zero, suc, ◌+◌, ◌-◌, ◌*◌, ◌/◌, ◌%◌, ◌≤◌, ◌<◌, String, ◌≡◌, refl, sym, ap, ◌∙◌, ◌≢◌, ◌↔◌, ◌⊎◌,
  inl, inr, Bool, true, false, not, ◌&&◌, ◌||◌, Option, none, some, List, [], ◌∷◌, ◌++◌, map,
  append_assoc, append-nil, arith, ltb, leb, ◌==◌, if◌then◌else◌, opt_eq, is_some, ltb→lt, lt→ltb,
  leb→le, ==_iff, ==_self, Bool-cases, Option-cases, length, length-append, All, filter, find, any,
  all, contains, remove_first, count, count-append, contains-append, remove_first-contains,
  remove_first_missing, count-remove_first,
}

pub record Request : Type 0 where
  pub ident : ℕ
  pub ticket : ℕ
  pub first_name : List ℕ
  pub last_name : List ℕ
  pub email : List ℕ
  pub phone : List ℕ
  pub company_name : List ℕ
  pub website : List ℕ
  pub country : Option ℕ
  pub city : Option ℕ
  pub department : Option ℕ
  pub owner : Option ℕ
  pub co_owner : Option ℕ
  pub contact : Option Contact
  pub lead : Option Lead
  pub company : Option ℕ
  pub deal : Option ℕ
  pub products : List ℕ
  pub pending : Bool
  pub subsequent : Bool
  pub duplicate : Bool
  pub verification_required : Bool

abbrev pub is_given : List ℕ → Bool
is_given [] = false
is_given (c ∷ cs) = true

-- The lookups on one table: `first_name__iexact`, `last_name__iexact`, the two emails by
-- `icontains`, the three phones by `iregex`, and the name of the company.
pub record Lookups (A : Type 0) : Type 0 where
  pub first_name : List ℕ → A → Bool
  pub last_name : List ℕ → A → Bool
  pub email : List ℕ → A → Bool
  pub phone : List ℕ → A → Bool
  pub company_name : List ℕ → A → Bool

-- The lookups on companies: `full_name__iregex` with the pattern made of the words,
-- `website__icontains`, and `email__icontains` of a domain.
pub record CompanyLookups : Type 0 where
  pub name : List (List ℕ) → Company → Bool
  pub website : List ℕ → Company → Bool
  pub domain : List ℕ → Company → Bool

-- The database, the functions of Python `parseaddr`, `isdigit`, `isalpha`,
-- `isspace` and `lower`, and `get_department_id`.
pub record Base : Type 0 where
  pub contacts : List Contact
  pub leads : List Lead
  pub companies : List Company
  pub of_contact : Lookups Contact
  pub of_lead : Lookups Lead
  pub of_company : CompanyLookups
  pub public_domains : List (List ℕ)
  pub department_of : ℕ → Option ℕ
  pub parseaddr : List ℕ → List ℕ
  pub isdigit : ℕ → Bool
  pub isalpha : ℕ → Bool
  pub isspace : ℕ → Bool
  pub lower : List ℕ → List ℕ

-- The conditions of one turn of the search: which values the request has, and which rows fit them.
pub record Asked (A : Type 0) : Type 0 where
  pub has_email : Bool
  pub has_phone : Bool
  pub has_last_name : Bool
  pub has_company_name : Bool
  pub first_name : A → Bool
  pub last_name : A → Bool
  pub email : A → Bool
  pub phone : A → Bool
  pub company : A → Bool

-- `add_phone_q_params` makes no condition of a number with fewer than five digits.
abbrev pub asked : {A : Type 0} → Base → Lookups A → Request → Asked A
asked base t q = record {
  has_email = is_given q.email;
  has_phone = ltb 4 (length (filter base.isdigit q.phone));
  has_last_name = is_given q.last_name;
  has_company_name = is_given q.company_name;
  first_name = t.first_name q.first_name;
  last_name = t.last_name q.last_name;
  email = t.email (base.parseaddr q.email);
  phone = t.phone (filter base.isdigit q.phone);
  company = t.company_name q.company_name;
}

abbrev pub some_row : {A : Type 0} → List A → Bool
some_row [] = false
some_row (x ∷ rest) = true

abbrev pub first : {A : Type 0} → List A → Option A
first [] = none
first (x ∷ rest) = some x

-- `contacts1` to `contacts4`, each in the order of the table and empty where it is not made.
abbrev pub contacts1 : {A : Type 0} → Asked A → List A → List A
contacts1 a rows = if a.has_email then filter (λ x. a.email x && a.first_name x) rows else []

abbrev pub contacts2 : {A : Type 0} → Asked A → Bool → List A → List A
contacts2 a several rows =
    if a.has_phone
    then (if several
        then filter (λ x. a.email x && a.phone x && a.first_name x) rows
        else filter (λ x. (a.has_email && a.email x || a.phone x) && a.first_name x) rows)
    else []

abbrev pub contacts4 : {A : Type 0} → Asked A → List A → List A → List A
contacts4 a three rows =
    if ltb 1 (length three)
    then filter a.company three
    else filter (λ x. a.company x && a.first_name x && (not a.has_last_name || a.last_name x)) rows

-- The row of a result with one row, and the rest of the search otherwise.
abbrev pub only : {A : Type 0} → List A → Option A → Option A
only [] rest = rest
only (x ∷ []) rest = some x
only (x ∷ y ∷ more) rest = rest

-- The first row of the narrowest result that has one.
abbrev pub narrowest : {A : Type 0} → List A → List A → List A → Option A
narrowest three two one =
    if some_row three then first three else (if some_row two then first two else first one)

abbrev pub by_company : {A : Type 0} → Asked A → List A → List A → List A → List A → Option A
by_company a rows three two one =
    let found = some_row three || some_row two || some_row one in
    let four = contacts4 a three rows in
    if (a.has_company_name && found) || a.has_last_name
    then (if not (some_row four) && not found
        then none
        else (if some_row four then first four else narrowest three two one))
    else narrowest three two one

abbrev pub by_last_name : {A : Type 0} → Asked A → List A → List A → List A → Option A
by_last_name a rows two one =
    if a.has_last_name && ltb 1 (length two)
    then (let three = filter a.last_name two in
        if not (some_row three) && not (some_row two || some_row one)
        then none
        else only three (by_company a rows three two one))
    else by_company a rows [] two one

-- One turn of the loop of `find_contact_or_lead`: the row that is given to `_set_contact`.
unfoldable pub search : {A : Type 0} → Asked A → List A → Option A
search a rows =
    let one = contacts1 a rows in
    let two = contacts2 a (ltb 1 (length one)) rows in
    only one (only two (by_last_name a rows two one))

-- `Request._set_contact` with a contact: one of another company is not set.
abbrev pub set_contact : Contact → Request → Request
set_contact c q =
    record (elim q.company [
      | none ↦ record q { contact = some c; company = some c.company }
      | some company ↦ if company == c.company then record q { contact = some c } else q
    ]) { verification_required = true }

abbrev pub set_lead : Lead → Request → Request
set_lead l q = record q { lead = some l; verification_required = true }

abbrev pub found_lead : Option Lead → Request → Bool × Request
found_lead none q = (false, q)
found_lead (some l) q = (true, set_lead l q)

abbrev pub found_contact : Base → Option Contact → Request → Bool × Request
found_contact base none q = found_lead (search (asked base base.of_lead q) base.leads) q
found_contact base (some c) q = (true, set_contact c q)

-- `Request.find_contact_or_lead`
unfoldable pub find_contact_or_lead : Base → Request → Bool × Request
find_contact_or_lead base q =
    found_contact base (search (asked base base.of_contact q) base.contacts) q
