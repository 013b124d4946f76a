-- ===== src/Crm/Requests/OneDeal.antt =====
-- crm/site/requestadmin.py: a request gets one deal.
use django_crm_marscode.Prelude.{
  ℕ, ◌≡◌, refl, ap, ◌∙◌, inl, inr, Bool, true, not, ◌&&◌, ◌||◌, Option, none, some, List, [], ◌∷◌,
  ◌++◌, arith, ◌==◌, opt_eq, is_some, ==_self, Bool-cases, Option-cases, filter, all,
}
use django_crm_marscode.Crm.Persons.{Contact, Lead, Company}
use django_crm_marscode.Crm.Deals.{Deal}
use django_crm_marscode.Crm.Requests.{Request, Base}
use django_crm_marscode.Crm.Requests.Assigning.{company_of}
use mathlib.Core.Path.{subst}
use django_crm_marscode.Crm.Requests.NewDeals.{
  Rows, Call, deals_of, currency_of, plain_deal, at_company, of_lead, with_person, add_deal,
  create_deal, get_or_create_from, get_or_create_deal,
}

filter-append :
    {A : Type 0} (p : A → Bool) (xs ys : List A) → filter p (xs ++ ys) ≡ filter p xs ++ filter p ys
filter-append p [] ys = refl
filter-append p (x ∷ xs) ys = elim (Bool-cases (p x)) [
  | inl fits ↦ rw fits (ap (λ l. x ∷ l) (filter-append p xs ys))
  | inr fails ↦ rw fails (filter-append p xs ys)
]

abbrev is_of : Request → Deal → Bool
is_of q d = opt_eq d.request (some q.ident) && d.ticket == q.ticket

of_lead-is_of :
    (q : Request) (o : Option Lead) (d : Deal) → is_of q d ≡ true → is_of q (of_lead o d) ≡ true
of_lead-is_of q none d h = h
of_lead-is_of q (some l) d h = h

at_company-is_of :
    (q : Request) (o : Option Company) (d : Deal)
    → is_of q d ≡ true
    → is_of q (at_company o d) ≡ true
at_company-is_of q none d h = h
at_company-is_of q (some c) d h = h

with_person-is_of :
    (base : Base) (q : Request) (o : Option Contact) (d : Deal)
    → is_of q d ≡ true
    → is_of q (with_person base q o d) ≡ true
with_person-is_of base q none d h = of_lead-is_of q q.lead d h
with_person-is_of base q (some c) d h =
    at_company-is_of q (company_of base (some c.company))
      (record d { contact = some c.ident; company = some c.company }) h

-- The deal that is made is the only one of its request afterwards.
add_deal-deals_of :
    (q q' : Request) (d : Deal) (rows : Rows)
    → deals_of q rows ≡ []
    → is_of q d ≡ true
    → deals_of q (add_deal d q' rows) ≡ d ∷ []
add_deal-deals_of q q' d rows none' h =
    filter-append (is_of q) rows.deals (d ∷ []) ∙ rw none' (rw h refl)

abbrev Only : Request → Option (Deal × Rows) → Type 0
Only q none = Unit
Only q (some (d, rows)) = deals_of q rows ≡ d ∷ []

create_deal-Only :
    (base : Base) (call : Call) (rows : Rows) (owner : Option ℕ) (q : Request)
    → deals_of q rows ≡ []
    → Only q (create_deal base call rows owner q)
create_deal-Only base call rows none q h = tt
create_deal-Only base call rows (some owner) q h =
    elim (Option-cases (currency_of call.department rows)) [
      | inl missing ↦ rw missing tt
      | inr (currency, found) ↦ rw found (
          add_deal-deals_of q q
            (with_person base q q.contact
              (record (plain_deal base call rows owner q) { currency = currency }))
            rows h
            (with_person-is_of base q q.contact
              (record (plain_deal base call rows owner q) { currency = currency })
              (plain q.ident q.ticket)))
    ]
  where
    plain : (i t : ℕ) → (opt_eq (some i) (some i) && t == t) ≡ true
    plain i t = ground (arith, ==_self i, ==_self t)

get_or_create_from-Only :
    (l : List Deal) (base : Base) (call : Call) (rows : Rows) (q : Request)
    → deals_of q rows ≡ l
    → Only q (get_or_create_from l base call rows q)
get_or_create_from-Only [] base call rows q h = create_deal-Only base call rows q.owner q h
get_or_create_from-Only (d ∷ []) base call rows q h = h
get_or_create_from-Only (d ∷ e ∷ more) base call rows q h = tt

-- Where the step for the deal of a request returns, the rows have one deal with the key and the
-- ticket of the request, the one that was returned; so each later call for the request returns that
-- deal and leaves the rows.
pub get_or_create_deal_once :
    (base base' : Base) (call call' : Call) (rows rows' : Rows) (q : Request) (d : Deal)
    → get_or_create_deal base call rows q ≡ some (d, rows')
    → (deals_of q rows' ≡ d ∷ []) × (get_or_create_deal base' call' rows' q ≡ some (d, rows'))
unfolding get_or_create_deal
get_or_create_deal_once base base' call call' rows rows' q d h =
    let only : Only q (some (d, rows')) =
      subst (Only q) h (get_or_create_from-Only (deals_of q rows) base call rows q refl) in
    (only, rw only refl)

-- What a call that makes the deal leaves: one deal of the request, linked to it and to each email of
-- its ticket.
abbrev pub IsMade : Request → Option (Request × Rows) → Type 0
IsMade q none = Unit
IsMade q (some (q', rows)) =
    (d : Deal) × (deals_of q rows ≡ d ∷ [])
    × (q'.deal ≡ some d.ident)
    × (all (λ e. not (e.ticket == q.ticket) || is_some e.deal) rows.emails ≡ true)
