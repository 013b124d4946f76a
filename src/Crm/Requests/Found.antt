-- ===== src/Crm/Requests/Found.antt =====
-- crm/models/request.py: what the person found by the search has in common with the request.
use django_crm_marscode.Prelude.{
  ◌≡◌, refl, sym, ap, ◌∙◌, inl, inr, Bool, true, false, not, ◌&&◌, ◌||◌, Option, none, some, List,
  [], ◌∷◌, arith, ltb, if◌then◌else◌, Bool-cases, length, filter, all,
}
use django_crm_marscode.Crm.Requests.{
  Asked, first, contacts1, contacts2, contacts4, only, narrowest, by_company, by_last_name, search,
  some_row,
}

-- Whether the row has the first name of the request and its email, phone or company.
abbrev pub is_akin : {A : Type 0} → Asked A → A → Bool
is_akin a x =
    a.first_name x
    && ((a.has_email && a.email x)
        || (a.has_phone && a.phone x)
        || ((a.has_last_name || a.has_company_name) && a.company x))

-- Whether the test holds of the row, if there is one.
abbrev pub holds : {A : Type 0} → (A → Bool) → Option A → Bool
holds p none = true
holds p (some x) = p x

module _ {A : Type 0} (p : A → Bool) where
  all-filter :
      (q : A → Bool) (rows : List A)
      → ((x : A) → q x ≡ true → p x ≡ true)
      → all p (filter q rows) ≡ true
  all-filter q [] h = refl
  all-filter q (x ∷ rows) h = elim (Bool-cases (q x)) [
    | inl fits ↦ rw fits (rw (h x fits) (all-filter q rows h))
    | inr fails ↦ rw fails (all-filter q rows h)
  ]

  all-narrowed : (q : A → Bool) (rows : List A) → all p rows ≡ true → all p (filter q rows) ≡ true
  all-narrowed q [] h = refl
  all-narrowed q (x ∷ rows) h = ground (arith, all-narrowed q rows)

  all_unless :
      (b : Bool) (rows : List A)
      → (b ≡ true → all p rows ≡ true)
      → all p (if b then rows else []) ≡ true
  all_unless true rows h = h refl
  all_unless false rows h = refl

  holds-if :
      (b : Bool) (o o' : Option A)
      → (b ≡ true → holds p o ≡ true)
      → holds p o' ≡ true
      → holds p (if b then o else o') ≡ true
  holds-if true o o' h h' = h refl
  holds-if false o o' h h' = h'

  holds-first : (l : List A) → all p l ≡ true → holds p (first l) ≡ true
  holds-first [] h = refl
  holds-first (x ∷ l) h = ground arith

  holds-only :
      (l : List A) (o : Option A) → all p l ≡ true → holds p o ≡ true → holds p (only l o) ≡ true
  holds-only [] o h found = found
  holds-only (x ∷ []) o h found = ground arith
  holds-only (x ∷ y ∷ l) o h found = found

  holds-narrowest :
      (three two one : List A)
      → all p three ≡ true
      → all p two ≡ true
      → all p one ≡ true
      → holds p (narrowest three two one) ≡ true
  holds-narrowest (x ∷ three) two one h3 h2 h1 = ground arith
  holds-narrowest [] (x ∷ two) one h3 h2 h1 = ground arith
  holds-narrowest [] [] one h3 h2 h1 = holds-first one h1

either_name :
    (company found last : Bool) → ((company && found) || last) ≡ true → (last || company) ≡ true
either_name company found last h = ground arith

module _ {A : Type 0} (a : Asked A) (rows : List A) where
  contacts1-is_akin : all (is_akin a) (contacts1 a rows) ≡ true
  contacts1-is_akin =
      all_unless (is_akin a) a.has_email _
        (λ given. all-filter (is_akin a) _ rows (λ x fits. ground arith))

  contacts2-is_akin : (several : Bool) → all (is_akin a) (contacts2 a several rows) ≡ true
  contacts2-is_akin true =
      all_unless (is_akin a) a.has_phone _
        (λ given. all-filter (is_akin a) _ rows (λ x fits. ground arith))
  contacts2-is_akin false =
      all_unless (is_akin a) a.has_phone _
        (λ given. all-filter (is_akin a) _ rows (λ x fits. ground arith))

  contacts4-is_akin :
      (three : List A)
      → (a.has_last_name || a.has_company_name) ≡ true
      → all (is_akin a) three ≡ true
      → all (is_akin a) (contacts4 a three rows) ≡ true
  contacts4-is_akin three named h = ground (
    arith,
    all-narrowed (is_akin a) a.company three h,
    all-filter (is_akin a)
        (λ x. a.company x && a.first_name x && (not a.has_last_name || a.last_name x)) rows
        (λ (x : A) fits. ground arith),
  )

  by_company-is_akin :
      (three two one : List A)
      → all (is_akin a) three ≡ true
      → all (is_akin a) two ≡ true
      → all (is_akin a) one ≡ true
      → holds (is_akin a) (by_company a rows three two one) ≡ true
  by_company-is_akin three two one h3 h2 h1 =
      let four = contacts4 a three rows in
      let narrow = holds-narrowest (is_akin a) three two one h3 h2 h1 in
      let found = some_row three || some_row two || some_row one in
      let rest = if some_row four then first four else narrowest three two one in
      holds-if (is_akin a) ((a.has_company_name && found) || a.has_last_name)
        (if not (some_row four) && not found then none else rest) (narrowest three two one)
        (λ (named : ((a.has_company_name && found) || a.has_last_name) ≡ true).
          holds-if (is_akin a) (not (some_row four) && not found) none rest (λ _. refl)
            (holds-if (is_akin a) (some_row four) (first four) (narrowest three two one)
              (λ _. holds-first (is_akin a) four (
                contacts4-is_akin three (either_name a.has_company_name found a.has_last_name named)
                  h3))
              narrow))
        narrow

  by_last_name-is_akin :
      (two one : List A)
      → all (is_akin a) two ≡ true
      → all (is_akin a) one ≡ true
      → holds (is_akin a) (by_last_name a rows two one) ≡ true
  by_last_name-is_akin two one h2 h1 =
      let three = filter a.last_name two in
      let h3 = all-narrowed (is_akin a) a.last_name two h2 in
      let rest = only three (by_company a rows three two one) in
      holds-if (is_akin a) (a.has_last_name && ltb 1 (length two))
        (if not (some_row three) && not (some_row two || some_row one) then none else rest)
        (by_company a rows [] two one)
        (λ _.
          holds-if (is_akin a) (not (some_row three) && not (some_row two || some_row one)) none
            rest (λ _. refl)
            (holds-only (is_akin a) three _ h3 (by_company-is_akin three two one h3 h2 h1)))
        (by_company-is_akin [] two one refl h2 h1)

-- A row that the search finds has the first name of the request, and its email, its phone or, where
-- the request has a last name or a company name, its company.
pub search-is_akin :
    {A : Type 0} (a : Asked A) (rows : List A) (x : A) → search a rows ≡ some x → is_akin a x ≡ true
unfolding search
search-is_akin a rows x h =
    let one = contacts1 a rows in
    let two = contacts2 a (ltb 1 (length one)) rows in
    let h1 = contacts1-is_akin a rows in
    let h2 = contacts2-is_akin a rows (ltb 1 (length one)) in
    ap (holds (is_akin a)) (sym h)
    ∙ holds-only (is_akin a) one _ h1
        (holds-only (is_akin a) two _ h2 (by_last_name-is_akin a rows two one h2 h1))
