-- ===== src/Crm/Rates.antt =====
-- crm/utils/rates_loader.py, `get_rates`: the daily run that loads the rates of the currencies, and
-- the official rates of the payments received.
pub mod Officials
pub mod Loading
pub mod Daily
use django_crm_marscode.Prelude.{}
use django_crm_marscode.Prelude.Exec.{
  Exec, then_do, ◌>>=◌, ◌>>◌, pure, raise, gets, modify, lift, catch_do, try_except, for_each, exec,
  Keeps, Keeps-pure, Keeps-raise, Keeps-gets, Keeps-if, Keeps-try_except, Keeps-modify, Keeps-bind,
  Keeps-gets_bind, Keeps-seq, Keeps-for_each, keeps_rules, Returns,
}
use django_crm_marscode.Prelude.{
  ℕ, zero, suc, ◌+◌, ◌-◌, ◌*◌, ◌/◌, ◌%◌, ◌≤◌, ◌<◌, String, ◌≡◌, refl, sym, ap, ◌∙◌, ◌≢◌, ◌↔◌, ◌⊎◌,
  inl, inr, Bool, true, false, not, ◌&&◌, ◌||◌, Option, none, some, List, [], ◌∷◌, ◌++◌, map,
  append_assoc, append-nil, arith, ltb, leb, ◌==◌, if◌then◌else◌, opt_eq, is_some, ltb→lt, lt→ltb,
  leb→le, ==_iff, ==_self, Bool-cases, Option-cases, length, length-append, All, filter, find, any,
  all, contains, remove_first, count, count-append, contains-append, remove_first-contains,
  remove_first_missing, count-remove_first,
}
use django_crm_marscode.Crm.Payments.{
  Currency, save_currency, Payment, is_received, Rate, RateType, approximate, official, is_official,
  is_rate_of, Database, rates_on, currency_of,
}

-- The answer of the backend's `get_rates`.
pub record Quote : Type 0 where
  pub rate_to_state_currency : ℕ
  pub rate_to_marketing_currency : ℕ
  pub error : Bool

-- The backend: for the names of the currency and of the marketing currency, and a day; `none` is an
-- exception, of the request to the bank or of the mail to the administrators.
abbrev pub Backend : Type 0
Backend = String → String → ℕ → Option Quote

abbrev quoted : Quote → Currency → Currency
quoted q c =
    if q.error
    then c
    else save_currency (record c {
      rate_to_state_currency = q.rate_to_state_currency;
      rate_to_marketing_currency = q.rate_to_marketing_currency;
    })

-- One currency with the answer about it, and the other ones: an exception ends the loop, and those
-- that are saved stay saved.
abbrev pub after_currency :
    Bool → Option Quote → Currency → List Currency → Bool × List Currency → Bool × List Currency
after_currency false answer c cs (ok, cs') = (ok, c ∷ cs')
after_currency true none c cs rest = (false, c ∷ cs)
after_currency true (some q) c cs (ok, cs') = (ok, quoted q c ∷ cs')

-- The first loop: whether it ends without an exception, and the currencies; `yesterday` is the day
-- before the run.
unfoldable pub update_currencies : Backend → String → ℕ → List Currency → Bool × List Currency
update_currencies backend marketing yesterday [] = (true, [])
update_currencies backend marketing yesterday (c ∷ cs) =
    after_currency c.auto_update (backend c.name marketing yesterday) c cs
      (update_currencies backend marketing yesterday cs)

-- `Exists(rates)` of the payment
abbrev pub has_official : List Rate → Payment → Bool
has_official rates p =
    any (λ r. is_rate_of p.currency p.payment_date r && is_official r.rate_type) rates

-- A received payment of an earlier day that waits for its official rate.
abbrev pub is_due : ℕ → List Rate → Payment → Bool
is_due today rates p =
    ltb p.payment_date today && is_received p.status && not (has_official rates p)

abbrev pub set_official : ℕ → ℕ → Quote → Rate → Rate
set_official k date q r =
    if is_rate_of (some k) date r
    then record r {
      rate_to_state_currency = q.rate_to_state_currency;
      rate_to_marketing_currency = q.rate_to_marketing_currency;
      rate_type = official;
    }
    else r

abbrev pub new_official : ℕ → ℕ → Quote → Rate
new_official k date q = record {
  currency = k;
  payment_date = date;
  rate_to_state_currency = q.rate_to_state_currency;
  rate_to_marketing_currency = q.rate_to_marketing_currency;
  rate_type = official;
}

-- `Rate.objects.get(...)`, or a new rate, and its save: `none` is MultipleObjectsReturned.
unfoldable pub put_official : ℕ → ℕ → Quote → List Rate → Option (List Rate)
put_official k date q rates = elim (rates_on k date rates) [
  | zero ↦ some (rates ++ (new_official k date q ∷ []))
  | suc n ↦ if n == 0 then some (map (set_official k date q) rates) else none
]

-- How a run ends: no payment is left, the backend has reported an error, or an exception.
pub data Ending : Type 0 where
  finished backend_error raised : Ending

-- What one round of the second loop does: it ends the run, or leaves new rates.
pub data Round : Type 0 where
  ends : Ending → Round
  goes : List Rate → Round

abbrev pub saved : Option (List Rate) → Round
saved none = ends raised
saved (some rates) = goes rates

abbrev pub with_answer : Option Quote → Currency → Payment → List Rate → Round
with_answer none c p rates = ends raised
with_answer (some q) c p rates =
    if q.error then ends backend_error else saved (put_official c.ident p.payment_date q rates)

abbrev pub ask_backend : Backend → String → Payment → List Rate → Option Currency → Round
ask_backend backend marketing p rates none = ends raised
ask_backend backend marketing p rates (some c) =
    with_answer (backend c.name marketing p.payment_date) c p rates

abbrev pub serve_payment : Backend → String → List Currency → List Rate → Option Payment → Round
serve_payment backend marketing cs rates none = ends finished
serve_payment backend marketing cs rates (some p) =
    ask_backend backend marketing p rates (currency_of p.currency cs)

unfoldable pub load_round : Backend → String → ℕ → List Currency → List Payment → List Rate → Round
unfolding put_official
load_round backend marketing today cs ps rates =
    serve_payment backend marketing cs rates (find (is_due today rates) ps)

-- The second loop; `none` if the fuel runs out. A payment with no currency, or with one that the
-- table does not have, raises an exception.
unfoldable pub load_rates :
    ℕ
    → Backend
    → String
    → ℕ
    → List Currency
    → List Payment
    → List Rate
    → Option (Ending × List Rate)
unfolding load_round
load_rates zero backend marketing today cs ps rates = none
load_rates (suc fuel) backend marketing today cs ps rates =
    elim (load_round backend marketing today cs ps rates) [
      | ends e ↦ some (e, rates)
      | goes rates' ↦ load_rates fuel backend marketing today cs ps rates'
    ]

abbrev with_rates :
    Database → List Currency → Option (Ending × List Rate) → Option (Ending × Database)
with_rates db cs none = none
with_rates db cs (some (e, rates)) = some (e, record db { currencies = cs; rates = rates })

-- The whole run: a round for each payment, and one that finds none, are enough.
unfoldable pub get_rates : Backend → String → ℕ → Database → Option (Ending × Database)
unfolding update_currencies load_rates
get_rates backend marketing today db =
    let (ok, cs) = update_currencies backend marketing (today - 1) db.currencies in
    let loaded =
      load_rates (suc (length db.payments)) backend marketing today cs db.payments db.rates in
    with_rates db cs (if ok then loaded else some (raised, db.rates))
