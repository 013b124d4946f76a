-- ===== src/Crm/Tickets.antt =====
-- crm/utils/ticketproc.py: the ticket in the subject of an email. Texts are lists of characters.
use django_crm_marscode.Prelude.{}
use django_crm_marscode.Prelude.{}
use django_crm_marscode.Prelude.{}
use django_crm_marscode.Prelude.{
  ℕ, ◌≡◌, refl, ap, ◌∙◌, Bool, true, false, not, ◌&&◌, Option, none, some, List, [], ◌∷◌, ◌++◌,
  append_assoc, arith, ◌==◌, if◌then◌else◌, is_some,
}
use django_crm_marscode.Crm.Requests.Texts.{strip_prefix, after}

-- "[ticket:" and "  - "
abbrev pub marker : List ℕ
marker = 91 ∷ 116 ∷ 105 ∷ 99 ∷ 107 ∷ 101 ∷ 116 ∷ 58 ∷ []

abbrev pub dash : List ℕ
dash = 32 ∷ 32 ∷ 45 ∷ 32 ∷ []

-- `get_ticket_str`: "  - [ticket:...] "
unfoldable pub get_ticket_str : List ℕ → List ℕ
get_ticket_str ticket = dash ++ (marker ++ (ticket ++ (93 ∷ 32 ∷ [])))

-- The part of the pattern after its first character: the characters up to the next "]", if no line ends
-- before it.
abbrev pub up_to_bracket : List ℕ → Option (List ℕ)
up_to_bracket [] = none
up_to_bracket (c ∷ text) =
    let rest = up_to_bracket text in
    if c == 93
    then some []
    else (if c == 10 then none else elim rest [ none ↦ none | some t ↦ some (c ∷ t) ])

-- `(.+?)]`
abbrev pub group : List ℕ → Option (List ℕ)
group [] = none
group (c ∷ text) =
    if c == 10 then none else elim (up_to_bracket text) [ none ↦ none | some t ↦ some (c ∷ t) ]

abbrev pub match_here : List ℕ → Option (List ℕ)
match_here text = elim (strip_prefix marker text) [ none ↦ none | some tail ↦ group tail ]

abbrev pub or_later : Option (List ℕ) → Option (List ℕ) → Option (List ℕ)
or_later none later = later
or_later (some t) later = some t

-- `re.search`: the group at the first place where the pattern fits.
unfoldable pub search_ticket : List ℕ → Option (List ℕ)
search_ticket [] = none
search_ticket (c ∷ text) = let later = search_ticket text in or_later (match_here (c ∷ text)) later

abbrev pub concat : List (List ℕ) → List ℕ
concat [] = []
concat (t ∷ texts) = t ++ concat texts

-- `get_ticket`
unfoldable pub get_ticket : List (List ℕ) → Option (List ℕ)
get_ticket texts = search_ticket (concat texts)

-- The characters of a ticket: neither "]" nor the end of a line, and one at least.
abbrev pub is_plain : List ℕ → Bool
is_plain [] = true
is_plain (c ∷ text) = not (c == 93) && not (c == 10) && is_plain text

abbrev pub is_ticket : List ℕ → Bool
is_ticket [] = false
is_ticket (c ∷ text) = is_plain (c ∷ text)

abbrev pub has_marker : List ℕ → Bool
has_marker text = is_some (after marker text)

up_to_bracket_lem :
    (t more : List ℕ) → is_plain t ≡ true → up_to_bracket (t ++ (93 ∷ more)) ≡ some t
up_to_bracket_lem [] more h = refl
up_to_bracket_lem (c ∷ t) more h = ground (arith, up_to_bracket_lem t more)

group_lem : (t more : List ℕ) → is_ticket t ≡ true → group (t ++ (93 ∷ more)) ≡ some t
group_lem [] more h = ground arith
group_lem (c ∷ t) more h = ground (arith, up_to_bracket_lem t more)

avoids : ℕ → List ℕ → Bool
avoids c [] = true
avoids c (d ∷ text) = not (d == c) && avoids c text

-- A prefix that has no blank does not begin in the text and go on after a blank.
strip_prefix_blank :
    (p s rest : List ℕ)
    → avoids 32 p ≡ true
    → strip_prefix p s ≡ none
    → strip_prefix p (s ++ (32 ∷ rest)) ≡ none
unfolding avoids
strip_prefix_blank [] s rest h e = ground arith
strip_prefix_blank (a ∷ p) [] rest h e = ground arith
strip_prefix_blank (a ∷ p) (c ∷ s) rest h e = ground (arith, strip_prefix_blank p s rest)

search_here :
    (ticket more : List ℕ)
    → is_ticket ticket ≡ true
    → search_ticket (marker ++ (ticket ++ (93 ∷ more))) ≡ some ticket
unfolding search_ticket
search_here ticket more h = rw (group_lem ticket more h) refl

neither :
    (o rest : Option (List ℕ))
    → is_some (elim o [ none ↦ rest | some tail ↦ some tail ]) ≡ false
    → (o ≡ none) × (is_some rest ≡ false)
neither none rest h = (refl, h)
neither (some tail) rest h = ground arith

no_prefix :
    (sep : List ℕ) (c : ℕ) (text : List ℕ)
    → is_some (after sep (c ∷ text)) ≡ false
    → (strip_prefix sep (c ∷ text) ≡ none) × (is_some (after sep text) ≡ false)
no_prefix sep c text h = neither (strip_prefix sep (c ∷ text)) (after sep text) h

skip :
    (o later : Option (List ℕ))
    → o ≡ none
    → or_later (elim o [ none ↦ none | some tail ↦ group tail ]) later ≡ later
skip o later h = rw h refl

search_after :
    (subject rest : List ℕ)
    → has_marker subject ≡ false
    → search_ticket (subject ++ (32 ∷ rest)) ≡ search_ticket rest
unfolding search_ticket avoids
search_after [] rest h = refl
search_after (c ∷ subject) rest h =
    let (here, later) = no_prefix marker c subject h in
    skip (strip_prefix marker ((c ∷ subject) ++ (32 ∷ rest))) _
      (strip_prefix_blank marker (c ∷ subject) rest refl here)
    ∙ search_after subject rest later

-- A ticket that was put behind a subject is found in it, whatever the body of the email is, where the
-- subject has no mark of a ticket and the ticket is a nonempty text in one line without "]".
pub get_ticket-get_ticket_str :
    (subject ticket body : List ℕ)
    → has_marker subject ≡ false
    → is_ticket ticket ≡ true
    → get_ticket ((subject ++ get_ticket_str ticket) ∷ body ∷ []) ≡ some ticket
unfolding get_ticket get_ticket_str search_ticket
get_ticket-get_ticket_str subject ticket body h t =
    rw (append_assoc subject (get_ticket_str ticket) (body ++ [])) (
      search_after subject (32 ∷ 45 ∷ 32 ∷ (marker ++ (ticket ++ (93 ∷ 32 ∷ [])) ++ (body ++ []))) h
      ∙ ap (λ t. search_ticket (marker ++ t)) (append_assoc ticket (93 ∷ 32 ∷ []) (body ++ []))
      ∙ search_here ticket (32 ∷ (body ++ [])) t)
