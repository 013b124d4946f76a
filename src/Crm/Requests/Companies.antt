-- ===== src/Crm/Requests/Companies.antt =====
-- crm/models/request.py: the search for the company of a request.
use django_crm_marscode.Prelude.{
  ℕ, Bool, true, not, ◌&&◌, ◌||◌, none, some, List, [], ◌∷◌, map, ltb, if◌then◌else◌, opt_eq,
  is_some, length, filter, contains,
}
use django_crm_marscode.Crm.Requests.Texts.{parseweb, get_email_domain, name_words}
use django_crm_marscode.Crm.Persons.{Contact, Company}
use django_crm_marscode.Crm.Requests.{Request, Base, is_given, some_row}

-- A company is set, and the link has to be verified.
abbrev pub put_company : ℕ → Request → Request
put_company c q = record q { company = some c; verification_required = true }

abbrev pub several : {A : Type 0} → List A → Bool
several l = ltb 1 (length l)

-- `companies1` and `companies2`: the companies of the contacts with the email, and with the phone. The
-- phone is no condition where it has fewer than five digits.
abbrev pub companies1 : Base → Request → List ℕ
companies1 base q =
    if is_given q.email
    then map (λ c. c.company)
        (filter (base.of_contact.email (base.parseaddr q.email)) base.contacts)
    else []

abbrev pub phone_fits : Base → Request → Contact → Bool
phone_fits base q c =
    let digits = filter base.isdigit q.phone in
    if ltb 4 (length digits) then base.of_contact.phone digits c else true

abbrev pub companies2 : Base → Request → List ℕ → List ℕ
companies2 base q one =
    if is_given q.phone
    then map (λ c. c.company)
        (filter (λ c. phone_fits base q c && (not (several one) || contains c.company one))
          base.contacts)
    else []

-- The companies that are among the first results, if those are several.
abbrev pub narrowed : List ℕ → List ℕ → Company → Bool
narrowed one two c =
    if several one
    then contains c.ident one
    else (if several two then contains c.ident two else true)

abbrev pub companies3 : Base → Request → List ℕ → List ℕ → List Company
companies3 base q one two =
    if is_given q.company_name
    then filter (λ c. base.of_company.name (name_words base q.company_name) c && narrowed one two c)
        base.companies
    else []

abbrev pub companies4 : Base → Request → List ℕ → List ℕ → List Company → List Company
companies4 base q one two three =
    if is_given q.company_name && is_some q.country
    then (if several three
        then filter (λ c. opt_eq c.country q.country) three
        else (if several one || several two
            then filter (λ c. opt_eq c.country q.country && narrowed one two c) base.companies
            else []))
    else []

abbrev pub companies5 : Base → Request → List Company → List Company
companies5 base q four =
    if is_given q.website && several four
    then filter (base.of_company.website (parseweb q.website)) four
    else []

abbrev pub keys : List Company → List ℕ
keys = map (λ c. c.ident)

-- The only company of a result ends the search.
abbrev pub put_only : List ℕ → Request → Request → Request
put_only [] q rest = rest
put_only (c ∷ []) q rest = put_company c q
put_only (c ∷ d ∷ more) q rest = rest

abbrev pub put_first : List ℕ → Request → Request
put_first [] q = q
put_first (c ∷ more) q = put_company c q

abbrev pub put_first_or : List ℕ → Request → Request → Request
put_first_or [] q rest = rest
put_first_or (c ∷ more) q rest = put_company c q

-- The company is the first one with the domain, or none.
abbrev pub put_by_domain : List ℕ → Request → Request
put_by_domain [] q = record q { company = none }
put_by_domain (c ∷ more) q = put_company c q

abbrev pub by_domain : Base → Request → Request
by_domain base q =
    if is_given q.email
    then (let domain = get_email_domain base q.email in
        if is_given domain
        then put_by_domain (keys (filter (base.of_company.domain domain) base.companies)) q
        else q)
    else q

-- The last steps: each result that is not empty sets its first company.
abbrev pub among : Base → List ℕ → List ℕ → List ℕ → List ℕ → Request → Request
among base one two three four q =
    if some_row four || some_row three || some_row two || some_row one
    then put_first two (put_first three (put_first four q))
    else by_domain base q

-- `Request.find_company`
unfoldable pub find_company : Base → Request → Request
find_company base q =
    let one = companies1 base q in
    let two = companies2 base q one in
    let three = companies3 base q one two in
    let four = companies4 base q one two three in
    let five = companies5 base q four in
    if is_some q.company && is_some q.contact && is_some q.lead
    then q
    else put_only one q (
        put_only two q (
          put_only (keys three) q (
            put_only (keys four) q
              (put_first_or (keys five) q (among base one two (keys three) (keys four) q)))))
