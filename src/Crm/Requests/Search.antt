-- ===== src/Crm/Requests/Search.antt =====
-- crm/models/request.py: whom the search for the maker of a request finds.
use django_crm_marscode.Prelude.{
  ◌≡◌, refl, sym, ap, ◌∙◌, inl, inr, Bool, true, false, not, ◌&&◌, ◌||◌, Option, List, [], ◌∷◌,
  arith, ltb, is_some, Bool-cases, length, filter, any,
}
use django_crm_marscode.Crm.Requests.{
  Asked, some_row, first, contacts1, contacts2, contacts4, only, narrowest, by_company,
  by_last_name, search,
}

-- Whether the row fits the request: by the first name, and by the email, the phone or the last name
-- with the company.
abbrev pub candidate : {A : Type 0} → Asked A → A → Bool
candidate a x =
    a.first_name x
    && ((a.has_email && a.email x)
        || (a.has_phone && a.phone x)
        || (a.has_last_name && a.last_name x && a.company x))

some_row-filter :
    {A : Type 0} (p : A → Bool) (rows : List A) → some_row (filter p rows) ≡ any p rows
some_row-filter p [] = refl
some_row-filter p (x ∷ rows) = elim (Bool-cases (p x)) [
  | inl yes' ↦ rw yes' refl
  | inr no' ↦ rw no' (some_row-filter p rows)
]

any_alike :
    {A : Type 0} (p q : A → Bool) (rows : List A) → ((x : A) → p x ≡ q x) → any p rows ≡ any q rows
any_alike p q [] h = refl
any_alike p q (x ∷ rows) h = rw (h x) (ap (λ b. q x || b) (any_alike p q rows h))

any-or :
    {A : Type 0} (p q : A → Bool) (rows : List A)
    → any (λ x. p x || q x) rows ≡ (any p rows || any q rows)
any-or p q [] = refl
any-or p q (x ∷ rows) = rw (any-or p q rows) (ground arith)

any-and :
    {A : Type 0} (b : Bool) (p : A → Bool) (rows : List A)
    → any (λ x. b && p x) rows ≡ (b && any p rows)
any-and true p rows = refl
any-and false p [] = refl
any-and false p (x ∷ rows) = any-and false p rows

only-is_some :
    {A : Type 0} (l : List A) (o : Option A) → is_some o ≡ true → is_some (only l o) ≡ true
only-is_some [] o h = h
only-is_some (x ∷ []) o h = refl
only-is_some (x ∷ y ∷ l) o h = h

narrowest-is_some :
    {A : Type 0} (three two one : List A)
    → is_some (narrowest three two one) ≡ (some_row three || some_row two || some_row one)
narrowest-is_some [] [] [] = refl
narrowest-is_some [] [] (x ∷ one) = refl
narrowest-is_some [] (x ∷ two) one = refl
narrowest-is_some (x ∷ three) two one = refl

first-is_some : {A : Type 0} (l : List A) → is_some (first l) ≡ some_row l
first-is_some [] = refl
first-is_some (x ∷ l) = refl

by_company-is_some :
    {A : Type 0} (a : Asked A) (rows three two one : List A)
    → is_some (by_company a rows three two one) ≡ (
        some_row three
        || some_row two
        || some_row one
        || (a.has_last_name && some_row (contacts4 a three rows)))
by_company-is_some a rows three two one =
    ground (arith, narrowest-is_some three two one, first-is_some (contacts4 a three rows))

-- Whom the search by names and company finds, after the results by email and phone.
by_last_name-is_some :
    {A : Type 0} (a : Asked A) (rows two one : List A)
    → is_some (by_last_name a rows two one)
      ≡ (some_row two || some_row one || (a.has_last_name && some_row (contacts4 a [] rows)))
by_last_name-is_some a rows [] one = ground (arith, by_company-is_some a rows [] [] one)
by_last_name-is_some {A} a rows (x ∷ two) one =
    let three = filter a.last_name (x ∷ two) in
    ground (
      arith,
      by_company-is_some a rows [] (x ∷ two) one,
      only-is_some three (by_company a rows three (x ∷ two) one) (by_company_two three),
    )
  where
    by_company_two : (three : List A) → is_some (by_company a rows three (x ∷ two) one) ≡ true
    by_company_two three = by_company-is_some a rows three (x ∷ two) one ∙ ground arith

contacts1-any :
    {A : Type 0} (a : Asked A) (rows : List A)
    → some_row (contacts1 a rows) ≡ (a.has_email && any (λ x. a.email x && a.first_name x) rows)
contacts1-any a rows = ground (arith, some_row-filter (λ x. a.email x && a.first_name x) rows)

contacts2-any :
    {A : Type 0} (a : Asked A) (rows : List A)
    → some_row (contacts2 a false rows)
      ≡ (a.has_phone && any (λ x. ((a.has_email && a.email x) || a.phone x) && a.first_name x) rows)
contacts2-any a rows =
    ground (
      arith,
      some_row-filter (λ x. ((a.has_email && a.email x) || a.phone x) && a.first_name x) rows,
    )

contacts4-any :
    {A : Type 0} (a : Asked A) (rows : List A)
    → some_row (contacts4 a [] rows)
      ≡ any (λ x. a.company x && a.first_name x && (not a.has_last_name || a.last_name x)) rows
contacts4-any a rows =
    some_row-filter (λ x. a.company x && a.first_name x && (not a.has_last_name || a.last_name x))
      rows

-- The candidates by email, by phone, and by last name and company.
any-candidate :
    {A : Type 0} (a : Asked A) (rows : List A)
    → any (candidate a) rows ≡ (
        (a.has_email && any (λ x. a.email x && a.first_name x) rows)
        || (a.has_phone
            && any (λ x. ((a.has_email && a.email x) || a.phone x) && a.first_name x) rows)
        || (a.has_last_name
            && any
                (λ x. a.company x && a.first_name x && (not a.has_last_name || a.last_name x))
                rows))
any-candidate a [] = ground arith
any-candidate a (x ∷ rows) = rw (any-candidate a rows) (ground arith)

only_two :
    {A : Type 0} (one two : List A) (o : Option A) (more : Bool)
    → is_some o ≡ (some_row two || some_row one || more)
    → is_some (only one (only two o)) ≡ (some_row two || some_row one || more)
only_two [] [] o more h = h
only_two [] (x ∷ []) o more h = refl
only_two [] (x ∷ y ∷ two) o more h = h
only_two (x ∷ []) two o more h = ground arith
only_two (x ∷ y ∷ one) [] o more h = h
only_two (x ∷ y ∷ one) (z ∷ []) o more h = refl
only_two (x ∷ y ∷ one) (z ∷ v ∷ two) o more h = h

several_row : {A : Type 0} (l : List A) → ltb 1 (length l) ≡ true → some_row l ≡ true
several_row [] h = ground arith
several_row (x ∷ l) h = refl

-- The search finds a row exactly when some row of the table fits the request.
pub search-candidate :
    {A : Type 0} (a : Asked A) (rows : List A) → is_some (search a rows) ≡ any (candidate a) rows
unfolding search
search-candidate {A} a rows =
    only_two one two (by_last_name a rows two one) _ (by_last_name-is_some a rows two one) ∙ found
  where
    one : List A
    one = contacts1 a rows

    two : List A
    two = contacts2 a (ltb 1 (length one)) rows

    found :
        (some_row two || some_row one || (a.has_last_name && some_row (contacts4 a [] rows)))
        ≡ any (candidate a) rows
    found = elim (Bool-cases (ltb 1 (length one))) [
      | inl several ↦
          rw (any-candidate a rows)
            (rw (sym (contacts1-any a rows)) (rw (several_row one several) (ground arith)))
      | inr few ↦ rw few (
          rw (contacts1-any a rows) (
            rw (contacts2-any a rows)
              (rw (contacts4-any a rows) (rw (any-candidate a rows) (ground arith)))))
    ]
