-- ===== src/Crm/Rates/Officials.antt =====
-- What putting one official rate does to the table of rates, and to the payments that wait.
use django_crm_marscode.Prelude.{
  ℕ, ◌+◌, ◌≤◌, ◌<◌, ◌≡◌, refl, ap, inl, inr, true, Option, none, some, List, [], ◌∷◌, ◌++◌, map,
  arith, ltb, if◌then◌else◌, ==_self, Bool-cases, length, find, any,
}
use django_crm_marscode.Crm.Payments.{
  Payment, Rate, is_rate_of, rates_on, rates_on-any, IsFunctional, append-IsFunctional,
}
use django_crm_marscode.Crm.Rates.{
  Quote, has_official, is_due, set_official, new_official, put_official,
}

-- How many payments wait.
abbrev pub pending : ℕ → List Rate → List Payment → ℕ
pending today rates [] = 0
pending today rates (p ∷ ps) = (if is_due today rates p then 1 else 0) + pending today rates ps

pub pending-length :
    (today : ℕ) (rates : List Rate) (ps : List Payment) → pending today rates ps ≤ length ps
pending-length today rates [] = omega arith
pending-length today rates (p ∷ ps) = ground (arith, pending-length today rates ps)

-- The payments that have an official rate keep one.
abbrev pub KeepsOfficials : List Rate → List Rate → Type 0
KeepsOfficials rates rates' =
    (p : Payment) → has_official rates p ≡ true → has_official rates' p ≡ true

pending-fewer :
    (today : ℕ) (rates rates' : List Rate) (ps : List Payment)
    → KeepsOfficials rates rates'
    → pending today rates' ps ≤ pending today rates ps
pending-fewer today rates rates' [] keeps = omega arith
pending-fewer today rates rates' (p ∷ ps) keeps =
    ground (arith, keeps p, pending-fewer today rates rates' ps keeps)

abbrev payment_or : Payment → Option Payment → Payment
payment_or p none = p
payment_or p (some q) = q

pub same_payment : (q p : Payment) → some q ≡ some p → q ≡ p
same_payment q p h = ap (payment_or q) h

-- With a rate for a payment that waited, fewer wait.
pub pending-less :
    (today : ℕ) (rates rates' : List Rate) (ps : List Payment) (p : Payment)
    → KeepsOfficials rates rates'
    → find (is_due today rates) ps ≡ some p
    → has_official rates' p ≡ true
    → pending today rates' ps < pending today rates ps
pending-less today rates rates' [] p keeps h own = cc
pending-less today rates rates' (q ∷ ps) p keeps h own = elim (Bool-cases (is_due today rates q)) [
  | inl due ↦
      let same = same_payment q p (ground arith) in
      ground (arith, pending-fewer today rates rates' ps keeps, ap (has_official rates') same)
  | inr other ↦
      ground (arith, keeps q, pending-less today rates rates' ps p keeps (ground arith) own)
]

same_key :
    (k date : ℕ) (q : Quote) (r : Rate) (currency : Option ℕ) (day : ℕ)
    → is_rate_of currency day (set_official k date q r) ≡ is_rate_of currency day r
same_key k date q r currency day = ground arith

rates_on-map :
    (k date : ℕ) (q : Quote) (rs : List Rate) (k' day : ℕ)
    → rates_on k' day (map (set_official k date q) rs) ≡ rates_on k' day rs
rates_on-map k date q [] k' day = refl
rates_on-map k date q (r ∷ rs) k' day = ground (arith, rates_on-map k date q rs k' day)

has_official-map :
    (k date : ℕ) (q : Quote) (rs : List Rate) → KeepsOfficials rs (map (set_official k date q) rs)
has_official-map k date q [] p h = h
has_official-map k date q (r ∷ rs) p h = ground (arith, has_official-map k date q rs p)

has_official-append : (rs : List Rate) (r : Rate) → KeepsOfficials rs (rs ++ (r ∷ []))
has_official-append [] r p h = cc
has_official-append (s ∷ rs) r p h = ground (arith, has_official-append rs r p)

append-has_official :
    (rs : List Rate) (k date : ℕ) (q : Quote) (p : Payment)
    → p.currency ≡ some k
    → p.payment_date ≡ date
    → has_official (rs ++ (new_official k date q ∷ [])) p ≡ true
append-has_official [] k date q p c d = rw c (ground (arith, ==_self k, ==_self date))
append-has_official (r ∷ rs) k date q p c d = ground (arith, append-has_official rs k date q p)

map-has_official :
    (rs : List Rate) (k date : ℕ) (q : Quote) (p : Payment)
    → p.currency ≡ some k
    → p.payment_date ≡ date
    → any (is_rate_of (some k) date) rs ≡ true
    → has_official (map (set_official k date q) rs) p ≡ true
map-has_official [] k date q p c d h = cc
map-has_official (r ∷ rs) k date q p c d h = elim (Bool-cases (is_rate_of (some k) date r)) [
  | inl same ↦ rw c (rw same (ground arith))
  | inr other ↦ ground (arith, map-has_official rs k date q p c d)
]

-- What a call gives, for a payment.
pub record Put (rates rates' : List Rate) (p : Payment) : Type 0 where
  pub functional : IsFunctional rates'
  pub own : has_official rates' p ≡ true
  pub keeps : KeepsOfficials rates rates'

pub put_official_lem :
    (k : ℕ) (q : Quote) (rates : List Rate) (p : Payment)
    → p.currency ≡ some k
    → IsFunctional rates
    → (rates' : List Rate) × (put_official k p.payment_date q rates ≡ some rates')
      × Put rates rates' p
unfolding put_official
put_official_lem k q rates p c functional =
    elim (Bool-cases (ltb 0 (rates_on k p.payment_date rates))) [
      | inl one ↦ (
        map (set_official k p.payment_date q) rates,
        ground (arith, functional k p.payment_date),
        record {
          functional = λ k' day.
              omega (arith, functional k' day, rates_on-map k p.payment_date q rates k' day);
          own =
              map-has_official rates k p.payment_date q p c refl
                (ground (arith, rates_on-any k p.payment_date rates));
          keeps = has_official-map k p.payment_date q rates;
        },
      )
      | inr fresh ↦ (
        rates ++ (new_official k p.payment_date q ∷ []),
        ground (arith, functional k p.payment_date),
        record {
          functional =
              append-IsFunctional rates (new_official k p.payment_date q)
                (ground (arith, rates_on-any k p.payment_date rates)) functional;
          own = append-has_official rates k p.payment_date q p c refl;
          keeps = has_official-append rates (new_official k p.payment_date q);
        },
      )
    ]
