-- ===== src/Common/Emails.antt =====
-- common/utils/email_to_participants.py: one email for each language among the recipients.
use django_crm_marscode.Prelude.{
  ℕ, zero, suc, ◌+◌, ◌≤◌, ◌≡◌, refl, ap, ◌∙◌, inl, inr, Option, none, some, List, [], ◌∷◌, ◌++◌,
  arith, ◌==◌, if◌then◌else◌, Bool-cases, length, length-append, All,
}
use mathlib.Core.List.{reverse, reverse-append}

-- A user as the function sees it: the address by its owner's key, and the profile's language.
pub record Recipient : Type 0 where
  pub ident : ℕ
  pub language : ℕ

-- An email: the language in which its body is rendered, that of its subject, and its addressees.
pub record Email : Type 0 where
  pub language : ℕ
  pub subject : ℕ
  pub to : List Recipient

-- The inner loop: who has the language of the email, and who waits in `temp_list`.
unfoldable pub split_language : ℕ → List Recipient → List Recipient × List Recipient
split_language code [] = ([], [])
split_language code (u ∷ us) =
    let (to, temp) = split_language code us in
    if u.language == code then (u ∷ to, temp) else (to, u ∷ temp)

-- `if not composed_subject`: an empty subject is composed in the language in force, and kept.
abbrev pub subject_or : Option ℕ → ℕ → ℕ
subject_or none code = code
subject_or (some l) code = l

abbrev with_email : Email → Option (List Email) → Option (List Email)
with_email e none = none
with_email e (some es) = some (e ∷ es)

-- The outer loop. The argument is the list in the order of `pop()`, the last recipient first; the
-- recipients who wait are put back in the order in which they were popped, so the next round sees
-- them reversed. `none` if the fuel runs out.
unfoldable pub email_rounds : ℕ → List Recipient → Option ℕ → Option (List Email)
unfolding split_language
email_rounds fuel [] subject = some []
email_rounds zero (u ∷ us) subject = none
email_rounds (suc fuel) (u ∷ us) subject =
    let (to, temp) = split_language u.language us in
    let s = subject_or subject u.language in
    with_email (record { language = u.language; subject = s; to = u ∷ to })
      (email_rounds fuel (reverse temp) (some s))

-- `composed_subject` is none for the empty text.
unfoldable pub email_to_participants : List Recipient → Option ℕ → Option (List Email)
unfolding email_rounds
email_to_participants recipient_list composed_subject =
    email_rounds (length recipient_list) (reverse recipient_list) composed_subject

-- How often a user stands in a list of recipients, and among the addressees of emails.
abbrev pub times : ℕ → List Recipient → ℕ
times a [] = 0
times a (u ∷ us) = (if u.ident == a then 1 else 0) + times a us

abbrev pub mailed : ℕ → List Email → ℕ
mailed a [] = 0
mailed a (e ∷ es) = times a e.to + mailed a es

times-append : (a : ℕ) (us vs : List Recipient) → times a (us ++ vs) ≡ times a us + times a vs
times-append a [] vs = omega arith
times-append a (u ∷ us) vs = omega (arith, times-append a us vs)

times-reverse : (a : ℕ) (us : List Recipient) → times a (reverse us) ≡ times a us
times-reverse a [] = refl
times-reverse a (u ∷ us) =
    ap (times a) (reverse-append (u ∷ []) us)
    ∙ omega (arith, times-append a (reverse us) (u ∷ []), times-reverse a us)

length-reverse : (us : List Recipient) → length (reverse us) ≡ length us
length-reverse [] = refl
length-reverse (u ∷ us) =
    ap length (reverse-append (u ∷ []) us)
    ∙ omega (arith, length-append (reverse us) (u ∷ []), length-reverse us)

abbrev Speaks : ℕ → Recipient → Type 0
Speaks code u = u.language ≡ code

split_language_lem :
    (code : ℕ) (us : List Recipient)
    → ((a : ℕ)
        → times a (split_language code us).0 + times a (split_language code us).1 ≡ times a us)
      × (length (split_language code us).1 ≤ length us)
      × All (Speaks code) (split_language code us).0
unfolding split_language
split_language_lem code [] = (λ a. omega arith, omega arith, tt)
split_language_lem code (u ∷ us) =
    let (counts, shorter, speak) = split_language_lem code us in
    elim (Bool-cases (u.language == code)) [
      | inl same ↦ rw same (λ a. omega (arith, counts a), omega arith, (ground arith, speak))
      | inr other ↦ rw other (λ a. omega (arith, counts a), omega arith, speak)
    ]

-- The language of the subject that the first email gets.
abbrev pub opening : Option ℕ → List Recipient → Option ℕ
opening s [] = s
opening s (u ∷ us) = some (subject_or s u.language)

opening-some : (l : ℕ) (us : List Recipient) → opening (some l) us ≡ some l
opening-some l [] = refl
opening-some l (u ∷ us) = refl

-- What the emails of a run are, from its recipients and the subject that it was given.
pub record Mailing (us : List Recipient) (s : Option ℕ) (es : List Email) : Type 0 where
  pub once : (a : ℕ) → mailed a es ≡ times a us
  pub speak : All (λ e. All (Speaks e.language) e.to) es
  pub one_subject : (l : ℕ) → opening s us ≡ some l → All (λ e. e.subject ≡ l) es

email_rounds_lem :
    (fuel : ℕ) (us : List Recipient) (s : Option ℕ)
    → length us ≤ fuel
    → (es : List Email) × (email_rounds fuel us s ≡ some es) × Mailing us s es
unfolding email_rounds
email_rounds_lem zero [] s h =
    ([], refl, record { once = λ a. refl; speak = tt; one_subject = λ l e. tt })
email_rounds_lem (suc fuel) [] s h =
    ([], refl, record { once = λ a. refl; speak = tt; one_subject = λ l e. tt })
email_rounds_lem zero (u ∷ us) s h = absurd (omega arith)
email_rounds_lem (suc fuel) (u ∷ us) s h =
    let (counts, shorter, speak) = split_language_lem u.language us in
    let (es, e, m) =
      email_rounds_lem fuel (reverse (split_language u.language us).1)
        (some (subject_or s u.language))
        (omega (arith, length-reverse (split_language u.language us).1)) in
    (
      record {
        language = u.language;
        subject = subject_or s u.language;
        to = u ∷ (split_language u.language us).0;
      }
          ∷ es,
      rw e refl,
      record {
        once = λ a.
            omega (arith, counts a, m.once a, times-reverse a (split_language u.language us).1);
        speak = ((refl, speak), m.speak);
        one_subject = λ l given.
            (ground arith, m.one_subject l (opening-some (subject_or s u.language) _ ∙ given));
      },
    )

-- Every recipient is mailed as often as it was listed, nobody else is, each email goes only to
-- users of its language, and the function returns. All emails of a call have one subject: the given
-- one, or else the one composed in the language of the last recipient listed, which the other
-- languages get too.
pub email_to_participants_lem :
    (us : List Recipient) (s : Option ℕ)
    → (es : List Email) × (email_to_participants us s ≡ some es)
      × ((a : ℕ) → mailed a es ≡ times a us)
      × All (λ e. All (λ u. u.language ≡ e.language) e.to) es
      × ((l : ℕ) → opening s (reverse us) ≡ some l → All (λ e. e.subject ≡ l) es)
unfolding email_to_participants
email_to_participants_lem us s =
    let (es, e, m) =
      email_rounds_lem (length us) (reverse us) s (omega (arith, length-reverse us)) in
    (es, e, λ a. m.once a ∙ times-reverse a us, m.speak, m.one_subject)
