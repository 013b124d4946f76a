-- ===== src/Crm/Samples.antt =====
-- Concrete payments, and each theorem about them at one input.
use django_crm_marscode.Prelude.{
  ℕ, ◌≤◌, ◌≡◌, ◌⊎◌, refl, true, false, ◌&&◌, some, List, [], ◌∷◌, ◌++◌, arith, length, any,
}
use django_crm_marscode.Crm.Payments.{
  Currency, Payment, received, Rate, Database, IsFunctional, is_rate_of, rates_on, save_payment,
  save_payment_lem,
}
use django_crm_marscode.Crm.Rates.{Backend, Ending, get_rates}
use django_crm_marscode.Crm.Rates.Officials.{KeepsOfficials}
use django_crm_marscode.Crm.Rates.Daily.{IsRunEnd, get_rates_lem}

abbrev dollar : Currency
dollar = record {
  ident = 1;
  name = "USD";
  rate_to_state_currency = 95000000;
  rate_to_marketing_currency = 100000000;
  is_state_currency = false;
  is_marketing_currency = true;
  auto_update = true;
}

abbrev payment : Payment
payment = record {
  ident = 5;
  amount = 120000;
  currency = some 1;
  deal = 9;
  payment_date = 30;
  status = received;
}

abbrev before : Database
before = record { currencies = dollar ∷ []; payments = payment ∷ []; rates = [] }

abbrev backend : Backend
backend = λ name marketing day. some (record {
  rate_to_state_currency = 94000000;
  rate_to_marketing_currency = 100000000;
  error = false;
})

none-IsFunctional : IsFunctional []
none-IsFunctional k date = omega arith

save_payment_lem_example :
    ((save_payment payment before).0 ≡ true)
    × (true ≡ (true && any (is_rate_of (some 1) 30) (save_payment payment before).1.rates))
    × ((new : List Rate) × (length new ≤ 1) × ((save_payment payment before).1.rates ≡ [] ++ new))
    × ((k date : ℕ)
        → (rates_on k date (save_payment payment before).1.rates ≡ 0)
          ⊎ (rates_on k date (save_payment payment before).1.rates ≤ 1))
save_payment_lem_example = save_payment_lem payment before dollar refl

get_rates_lem_example :
    (e : Ending) × (db' : Database) × (get_rates backend "USD" 40 before ≡ some (e, db'))
    × (db'.payments ≡ payment ∷ [])
    × IsRunEnd backend "USD" 40 (dollar ∷ []) db'.currencies db'.payments e db'.rates
    × IsFunctional db'.rates
    × KeepsOfficials [] db'.rates
get_rates_lem_example = get_rates_lem backend "USD" 40 before ((dollar, refl), tt) none-IsFunctional
