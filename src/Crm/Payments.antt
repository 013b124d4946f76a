-- ===== src/Crm/Payments.antt =====
-- crm/models/payment.py: currencies, payments and rates, and how they are saved.
use django_crm_marscode.Prelude.{◌⊎◌}
use django_crm_marscode.Prelude.{
  ℕ, ◌+◌, ◌≤◌, String, ◌≡◌, refl, sym, ap, inl, inr, Bool, true, false, not, ◌&&◌, Option, none,
  some, List, [], ◌∷◌, ◌++◌, append-nil, arith, ltb, ◌==◌, if◌then◌else◌, opt_eq, is_some, ==_self,
  Bool-cases, length, find, any,
}

-- A row of Currency; a rate is in units of 10 ^ -8, the places of its field.
pub record Currency : Type 0 where
  pub ident : ℕ
  pub name : String
  pub rate_to_state_currency : ℕ
  pub rate_to_marketing_currency : ℕ
  pub is_state_currency : Bool
  pub is_marketing_currency : Bool
  pub auto_update : Bool

abbrev pub one_rate : ℕ
one_rate = 100000000

pub data PaymentStatus : Type 0 where
  received guaranteed high_probability low_probability : PaymentStatus

abbrev pub is_received : PaymentStatus → Bool
is_received received = true
is_received _ = false

-- The key of a new row is not taken yet.
pub record Payment : Type 0 where
  pub ident : ℕ
  pub amount : ℕ
  pub currency : Option ℕ
  pub deal : ℕ
  pub payment_date : ℕ
  pub status : PaymentStatus

pub data RateType : Type 0 where
  approximate official : RateType

abbrev pub is_official : RateType → Bool
is_official approximate = false
is_official official = true

pub record Rate : Type 0 where
  pub currency : ℕ
  pub payment_date : ℕ
  pub rate_to_state_currency : ℕ
  pub rate_to_marketing_currency : ℕ
  pub rate_type : RateType

pub record Database : Type 0 where
  pub currencies : List Currency
  pub payments : List Payment
  pub rates : List Rate

-- `Currency.save`, up to the write: the value 1.0 is put into the Boolean field.
unfoldable pub save_currency : Currency → Currency
save_currency c =
    if c.is_marketing_currency then record c { rate_to_marketing_currency = one_rate } else c

-- `BasePayment.clean`: false is ValidationError.
unfoldable pub clean : Payment → Bool
clean p = is_some p.currency

-- A rate of the currency and day of a payment.
abbrev pub is_rate_of : Option ℕ → ℕ → Rate → Bool
is_rate_of currency date r = opt_eq (some r.currency) currency && r.payment_date == date

abbrev pub currency_of : Option ℕ → List Currency → Option Currency
currency_of none cs = none
currency_of (some k) cs = find (λ c. c.ident == k) cs

-- The write of the row, by its key.
abbrev pub store_payment : Payment → List Payment → List Payment
store_payment p [] = p ∷ []
store_payment p (q ∷ qs) = if q.ident == p.ident then p ∷ qs else q ∷ store_payment p qs

abbrev approximate_rate : Payment → Currency → Rate
approximate_rate p c = record {
  currency = c.ident;
  payment_date = p.payment_date;
  rate_to_state_currency = c.rate_to_state_currency;
  rate_to_marketing_currency = c.rate_to_marketing_currency;
  rate_type = approximate;
}

-- The rate of the currency as the table has it; false is the exception of a missing currency.
abbrev add_rate : Payment → Option Currency → Database → Bool × Database
add_rate p none db = (false, db)
add_rate p (some c) db = (true, record db { rates = db.rates ++ (approximate_rate p c ∷ []) })

-- `Payment.save`: whether it returns, and the tables.
unfoldable pub save_payment : Payment → Database → Bool × Database
save_payment p db =
    let db' = record db { payments = store_payment p db.payments } in
    if is_received p.status && not (any (is_rate_of p.currency p.payment_date) db.rates)
    then add_rate p (currency_of p.currency db.currencies) db'
    else (true, db')

-- How many rates a currency has for a day.
abbrev pub rates_on : ℕ → ℕ → List Rate → ℕ
rates_on k date [] = 0
rates_on k date (r ∷ rs) = (if is_rate_of (some k) date r then 1 else 0) + rates_on k date rs

-- A currency has one rate for a day at most.
abbrev pub IsFunctional : List Rate → Type 0
IsFunctional rates = (k date : ℕ) → rates_on k date rates ≤ 1

rates_on-append :
    (k date : ℕ) (rs : List Rate) (r : Rate)
    → rates_on k date (rs ++ (r ∷ []))
      ≡ rates_on k date rs + (if is_rate_of (some k) date r then 1 else 0)
rates_on-append k date [] r = omega arith
rates_on-append k date (q ∷ rs) r = omega (arith, rates_on-append k date rs r)

pub rates_on-any :
    (k date : ℕ) (rs : List Rate) → any (is_rate_of (some k) date) rs ≡ ltb 0 (rates_on k date rs)
rates_on-any k date [] = refl
rates_on-any k date (r ∷ rs) = ground (arith, rates_on-any k date rs)

-- One more rate, of a day that has none yet, leaves one rate for a day at most.
pub append-IsFunctional :
    (rs : List Rate) (r : Rate)
    → any (is_rate_of (some r.currency) r.payment_date) rs ≡ false
    → IsFunctional rs
    → IsFunctional (rs ++ (r ∷ []))
append-IsFunctional rs r fresh h k date = elim (Bool-cases (is_rate_of (some k) date r)) [
  | inl same ↦
      ground
        (arith, rates_on-append k date rs r, rates_on-any r.currency r.payment_date rs, h k date)
  | inr other ↦ ground (arith, rates_on-append k date rs r, h k date)
]

rates_on-new :
    (rs : List Rate) (r : Rate)
    → any (is_rate_of (some r.currency) r.payment_date) rs ≡ false
    → (k date : ℕ)
    → (rates_on k date (rs ++ (r ∷ [])) ≡ rates_on k date rs)
      ⊎ (rates_on k date (rs ++ (r ∷ [])) ≤ 1)
rates_on-new rs r fresh k date = elim (Bool-cases (is_rate_of (some k) date r)) [
  | inl same ↦
      inr (ground (arith, rates_on-append k date rs r, rates_on-any r.currency r.payment_date rs))
  | inr other ↦ inl (ground (arith, rates_on-append k date rs r))
]

any-append_rate :
    (currency : Option ℕ) (date : ℕ) (rs : List Rate) (r : Rate)
    → is_rate_of currency date r ≡ true
    → any (is_rate_of currency date) (rs ++ (r ∷ [])) ≡ true
any-append_rate currency date [] r h = ground arith
any-append_rate currency date (q ∷ rs) r h = ground (arith, any-append_rate currency date rs r h)

pub find-ident :
    (k : ℕ) (cs : List Currency) (c : Currency) → find (λ d. d.ident == k) cs ≡ some c → c.ident ≡ k
find-ident k [] c h = cc
find-ident k (d ∷ cs) c h = elim (Bool-cases (d.ident == k)) [
  | inl same ↦ ground arith
  | inr other ↦ find-ident k cs c (ground arith)
]

pub currency_of-some :
    (currency : Option ℕ) (cs : List Currency) (c : Currency)
    → currency_of currency cs ≡ some c
    → currency ≡ some c.ident
currency_of-some none cs c h = cc
currency_of-some (some k) cs c h = ap {B = Option ℕ} some (sym (find-ident k cs c h))

-- A payment with a currency that the table has is saved without an exception. A received one has
-- then a rate for its currency and day. No rate is changed or lost, at most one is added, and each
-- currency has for each day as many rates as before, or one at most.
pub save_payment_lem :
    (p : Payment) (db : Database) (c : Currency)
    → currency_of p.currency db.currencies ≡ some c
    → ((save_payment p db).0 ≡ true)
      × (is_received p.status ≡ (
          is_received p.status
          && any (is_rate_of p.currency p.payment_date) (save_payment p db).1.rates))
      × ((new : List Rate) × (length new ≤ 1) × ((save_payment p db).1.rates ≡ db.rates ++ new))
      × ((k date : ℕ)
          → (rates_on k date (save_payment p db).1.rates ≡ rates_on k date db.rates)
            ⊎ (rates_on k date (save_payment p db).1.rates ≤ 1))
unfolding save_payment
save_payment_lem p db c known =
    elim (Bool-cases
      (is_received p.status && not (any (is_rate_of p.currency p.payment_date) db.rates))) [
        | inl needed ↦
            let own = currency_of-some p.currency db.currencies c known in
            let fresh = ap (λ o. any (is_rate_of o p.payment_date) db.rates) (sym own) in
            let new = approximate_rate p c in
            rw needed (
              rw known (
                refl,
                ground (
                  arith,
                  any-append_rate p.currency p.payment_date db.rates new
                      (rw own (ground (arith, ==_self c.ident, ==_self p.payment_date))),
                ),
                (new ∷ [], omega arith, refl),
                λ k date. rates_on-new db.rates new (ground (arith, fresh)) k date,
              ))
        | inr idle ↦
            rw idle (refl, ground arith, ([], omega arith, rw append-nil refl), λ k date. inl refl)
      ]
