-- ===== src/Crm/Requests/Texts.antt =====
-- crm/models/request.py and crm/utils/helpers.py: the domains in a website and in an email, and the
-- words of a company's name. A text is cut at a separator as Python's `split` does.
use django_crm_marscode.Crm.Requests.{Base}
use django_crm_marscode.Prelude.{
  ℕ, Bool, true, false, ◌&&◌, ◌||◌, Option, none, some, List, [], ◌∷◌, ◌==◌, if◌then◌else◌, is_some,
  filter, any,
}

-- What follows the separator, where the text begins with it.
abbrev pub strip_prefix : List ℕ → List ℕ → Option (List ℕ)
strip_prefix [] text = some text
strip_prefix (s ∷ sep) [] = none
strip_prefix (s ∷ sep) (c ∷ text) = if s == c then strip_prefix sep text else none

-- `text.split(sep)[0]`
abbrev pub before : List ℕ → List ℕ → List ℕ
before sep [] = []
before sep (c ∷ text) =
    let rest = before sep text in if is_some (strip_prefix sep (c ∷ text)) then [] else c ∷ rest

-- What follows the first separator.
abbrev pub after : List ℕ → List ℕ → Option (List ℕ)
after sep [] = none
after sep (c ∷ text) =
    let rest = after sep text in
    elim (strip_prefix sep (c ∷ text)) [ none ↦ rest | some tail ↦ some tail ]

-- `text.split(sep)[1]`, and `none` for an IndexError.
abbrev pub second_part : List ℕ → List ℕ → Option (List ℕ)
second_part sep text = elim (after sep text) [ none ↦ none | some tail ↦ some (before sep tail) ]

-- "www.", "//", "/" and "@"
abbrev pub www : List ℕ
www = 119 ∷ 119 ∷ 119 ∷ 46 ∷ []

abbrev pub slashes : List ℕ
slashes = 47 ∷ 47 ∷ []

abbrev pub slash : List ℕ
slash = 47 ∷ []

abbrev pub at_sign : List ℕ
at_sign = 64 ∷ []

abbrev pub or_else : Option (List ℕ) → List ℕ → List ℕ
or_else none text = text
or_else (some part) text = part

-- `Request.parseweb`
unfoldable pub parseweb : List ℕ → List ℕ
parseweb website =
    before slash (or_else (second_part www website) (or_else (second_part slashes website) website))

abbrev pub same_text : List ℕ → List ℕ → Bool
same_text [] [] = true
same_text [] (d ∷ e) = false
same_text (c ∷ t) [] = false
same_text (c ∷ t) (d ∷ e) = c == d && same_text t e

abbrev pub domain_unless_public : Base → Option (List ℕ) → List ℕ
domain_unless_public base none = []
domain_unless_public base (some part) =
    if any (same_text (base.lower part)) base.public_domains then [] else base.lower part

-- `get_email_domain`: an empty text where the email has no domain, or a public one.
unfoldable pub get_email_domain : Base → List ℕ → List ℕ
get_email_domain base email = domain_unless_public base (second_part at_sign (base.parseaddr email))

-- `text.split(" ")`
abbrev pub add_to_first : ℕ → List (List ℕ) → List (List ℕ)
add_to_first c [] = (c ∷ []) ∷ []
add_to_first c (word ∷ words) = (c ∷ word) ∷ words

abbrev pub split_words : List ℕ → List (List ℕ)
split_words [] = [] ∷ []
split_words (c ∷ text) =
    let rest = split_words text in if c == 32 then [] ∷ rest else add_to_first c rest

-- The words of which `_get_company_name_q_param` makes the pattern: letters and white space only.
abbrev pub name_words : Base → List ℕ → List (List ℕ)
name_words base text = split_words (filter (λ c. base.isalpha c || base.isspace c) text)
