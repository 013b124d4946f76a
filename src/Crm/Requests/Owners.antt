-- ===== src/Crm/Requests/Owners.antt =====
-- crm/site/requestadmin.py: a request's new owner and department are passed on, and the message about
-- a counterparty that somebody else is assigned to. `none` is an exception.
use django_crm_marscode.Prelude.{
  ℕ, ◌≡◌, refl, inl, inr, Bool, true, false, ◌&&◌, Option, none, some, List, [], ◌∷◌, arith, ◌==◌,
  if◌then◌else◌, opt_eq, is_some, ==_iff, ==_self, Bool-cases, find,
}
use django_crm_marscode.Crm.Persons.{Contact, Lead, Company}
use django_crm_marscode.Crm.Deals.{Deal}
use django_crm_marscode.Crm.Requests.{Request}
use django_crm_marscode.Prelude.Options.{◌>>=◌}

-- What is read of a CrmEmail.
pub record Inquiry : Type 0 where
  pub request : Option ℕ
  pub incoming : Bool
  pub inquiry : Bool
  pub department : Option ℕ
  pub owner : Option ℕ

pub record Tables : Type 0 where
  pub contacts : List Contact
  pub leads : List Lead
  pub companies : List Company
  pub deals : List Deal
  pub emails : List Inquiry

-- The attributes that are passed on, in `attrs`.
pub record Attrs : Type 0 where
  pub department : Bool
  pub owner : Bool

-- `attrs` as `save_related` fills it; `is_manager` is the membership in the group of managers, of an
-- owner that has to be there.
abbrev pub owner_attr : (ℕ → Bool) → Option ℕ → Option Bool
owner_attr is_manager none = none
owner_attr is_manager (some owner) = some (is_manager owner)

unfoldable pub attrs_of : (ℕ → Bool) → Bool → Bool → Request → Option Attrs
attrs_of is_manager department_changed owner_changed q =
    if owner_changed
    then (do
      owner ← owner_attr is_manager q.owner
      some (record { department = department_changed; owner = owner }))
    else some (record { department = department_changed; owner = false })

abbrev pub passed : Bool → Option ℕ → Option ℕ → Option ℕ
passed b new old = if b then new else old

abbrev pub set_contact_attrs : Attrs → Request → Contact → Contact
set_contact_attrs a q c = record c {
  department = passed a.department q.department c.department;
  owner = passed a.owner q.owner c.owner;
}

abbrev pub set_lead_attrs : Attrs → Request → Lead → Lead
set_lead_attrs a q l = record l {
  department = passed a.department q.department l.department;
  owner = passed a.owner q.owner l.owner;
}

abbrev pub set_company_attrs : Attrs → Request → Company → Company
set_company_attrs a q c = record c {
  department = passed a.department q.department c.department;
  owner = passed a.owner q.owner c.owner;
}

abbrev pub set_deal_attrs : Attrs → Request → Deal → Deal
set_deal_attrs a q d = record d {
  department = passed a.department q.department d.department;
  owner = passed a.owner q.owner d.owner;
}

-- The update of the rows that the test holds of.
abbrev pub update : {A : Type 0} → (A → Bool) → (A → A) → List A → List A
update test f [] = []
update test f (x ∷ rows) = (if test x then f x else x) ∷ update test f rows

abbrev pub key_of : Option Contact → Option ℕ
key_of none = none
key_of (some c) = some c.ident

abbrev pub lead_key : Option Lead → Option ℕ
lead_key none = none
lead_key (some l) = some l.ident

-- The key of the company of the contact.
abbrev pub company_key : Option Contact → Option ℕ
company_key none = none
company_key (some c) = some c.company

abbrev pub is_inquiry_of : Request → Inquiry → Bool
is_inquiry_of q e = opt_eq e.request (some q.ident) && e.incoming && e.inquiry

-- `_change_related_objs_attrs`
unfoldable pub change_related_objs_attrs : Attrs → Request → Tables → Tables
change_related_objs_attrs a q t = record {
  contacts =
      update (λ c. opt_eq (key_of q.contact) (some c.ident)) (set_contact_attrs a q) t.contacts;
  leads = update (λ l. opt_eq (lead_key q.lead) (some l.ident)) (set_lead_attrs a q) t.leads;
  companies =
      update (λ c. opt_eq (company_key q.contact) (some c.ident)) (set_company_attrs a q)
        t.companies;
  deals = update (λ d. opt_eq q.deal (some d.ident)) (set_deal_attrs a q) t.deals;
  emails =
      update (is_inquiry_of q)
        (λ e. record e {
          department = passed a.department q.department e.department;
          owner = passed a.owner q.owner e.owner;
        })
        t.emails;
}

-- The level of the message, `messages.INFO` or `messages.WARNING`.
pub data Level : Type 0 where
  info : Level
  warning : Level

abbrev pub owner_in : {A : Type 0} → (A → Option ℕ) → Option A → Option ℕ
owner_in owner none = none
owner_in owner (some x) = owner x

-- The owner of the row that a foreign key names, as the join gives it.
abbrev pub joined : {A : Type 0} → (A → ℕ) → (A → Option ℕ) → Option ℕ → List A → Option ℕ
joined ident owner none rows = none
joined ident owner (some k) rows = owner_in owner (find (λ x. ident x == k) rows)

-- `data[1] or data[2] or data[3]`
abbrev pub or_next : Option ℕ → Option ℕ → Option ℕ
or_next none other = other
or_next (some k) other = some k

abbrev pub assigned_to : Request → Tables → Option ℕ
assigned_to q t = or_next (joined (λ c. c.ident) (λ c. c.owner) (key_of q.contact) t.contacts) (
    or_next (joined (λ c. c.ident) (λ c. c.owner) q.company t.companies)
      (joined (λ l. l.ident) (λ l. l.owner) (lead_key q.lead) t.leads))

abbrev pub level_for : Option ℕ → Option ℕ → Option Level
level_for owner none = none
level_for none (some k) = some info
level_for (some o) (some k) = if o == k then none else some warning

-- `check_for_counterparty_assignment`: the level of its message, if it adds one.
unfoldable pub check_for_counterparty_assignment : Request → Tables → Option Level
check_for_counterparty_assignment q t = level_for q.owner (assigned_to q t)

find-update :
    {A : Type 0} (ident : A → ℕ) (owner : A → Option ℕ) (f : A → A) (k : ℕ) (o : Option ℕ)
    (rows : List A)
    → ((x : A) → ident (f x) ≡ ident x)
    → ((x : A) → owner (f x) ≡ o)
    → is_some (find (λ x. ident x == k) rows) ≡ true
    → joined ident owner (some k) (update (λ x. opt_eq (some k) (some (ident x))) f rows) ≡ o
find-update ident owner f k o [] same set h = ground arith
find-update ident owner f k o (x ∷ rows) same set h = elim (Bool-cases (k == ident x)) [
  | inl eq ↦
      let eq' : (ident x == k) ≡ true = ground (arith, ==_iff k (ident x), ==_iff (ident x) k) in
      rw eq (rw (same x) (rw eq' (set x)))
  | inr other ↦
      let other' : (ident x == k) ≡ false =
        ground (arith, ==_iff k (ident x), ==_iff (ident x) k) in
      rw other (rw other' (find-update ident owner f k o rows same set (ground arith)))
]

level_same :
    (owner first second : Option ℕ) (o : ℕ)
    → owner ≡ some o
    → first ≡ some o
    → level_for owner (or_next first second) ≡ none
level_same owner first second o h h' = rw h (rw h' (rw (==_self o) refl))

joined-contact :
    (a : Attrs) (q : Request) (rows : List Contact) (contact : Option Contact) (c : Contact) (o : ℕ)
    → a.owner ≡ true
    → q.owner ≡ some o
    → contact ≡ some c
    → is_some (find (λ r. r.ident == c.ident) rows) ≡ true
    → joined
        (λ r. r.ident)
        (λ r. r.owner)
        (key_of contact)
        (update (λ r. opt_eq (key_of contact) (some r.ident)) (set_contact_attrs a q) rows)
      ≡ some o
joined-contact a q rows contact c o given owner is row = rw is (
    find-update (λ r. r.ident) (λ r. r.owner) (set_contact_attrs a q) c.ident (some o) rows
      (λ r. refl) (λ r. rw given owner) row)

-- Once the owner has been passed on, a request with a contact in the table gets no message.
pub check-change_related :
    (a : Attrs) (q : Request) (t : Tables) (c : Contact) (o : ℕ)
    → a.owner ≡ true
    → q.owner ≡ some o
    → q.contact ≡ some c
    → is_some (find (λ r. r.ident == c.ident) t.contacts) ≡ true
    → check_for_counterparty_assignment q (change_related_objs_attrs a q t) ≡ none
unfolding check_for_counterparty_assignment change_related_objs_attrs
check-change_related a q t c o given owner contact row =
    level_same q.owner _ _ o owner
      (joined-contact a q t.contacts q.contact c o given owner contact row)
