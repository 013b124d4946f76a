-- ===== src/Crm/Rates/Daily.antt =====
-- The whole daily run: the currencies, then the payments.
use django_crm_marscode.Prelude.{}
use django_crm_marscode.Prelude.Exec.{}
use django_crm_marscode.Prelude.{◌⊎◌, Bool, true, false, not, ◌&&◌, is_some, Option-cases}
use django_crm_marscode.Prelude.{
  ℕ, suc, ◌-◌, String, ◌≡◌, refl, inl, inr, Option, none, some, List, [], ◌∷◌, arith, ◌==◌,
  Bool-cases, length, find,
}
use django_crm_marscode.Crm.Payments.{
  Currency, Payment, Database, IsFunctional, currency_of, save_currency, Rate,
}
use django_crm_marscode.Crm.Rates.{
  Quote, Backend, quoted, after_currency, update_currencies, Ending, raised, get_rates,
}
use django_crm_marscode.Crm.Rates.Officials.{pending-length, KeepsOfficials}
use django_crm_marscode.Crm.Rates.Loading.{AllKnown, IsEnd, load_rates_lem}

quoted-ident : (q : Quote) (c : Currency) → (quoted q c).ident ≡ c.ident
unfolding save_currency
quoted-ident q c = ground arith

after_currency-ident :
    (b : Bool) (answer : Option Quote) (c : Currency) (cs : List Currency)
    (rest : Bool × List Currency)
    → (c' : Currency) × (cs' : List Currency) × ((after_currency b answer c cs rest).1 ≡ c' ∷ cs')
      × (c'.ident ≡ c.ident)
      × ((cs' ≡ cs) ⊎ (cs' ≡ rest.1))
after_currency-ident false answer c cs (ok, cs') = (c, cs', refl, refl, inr refl)
after_currency-ident true none c cs rest = (c, cs, refl, refl, inl refl)
after_currency-ident true (some q) c cs (ok, cs') =
    (quoted q c, cs', refl, quoted-ident q c, inr refl)

-- The currency with the key is found in the table as long as it was.
abbrev Found : ℕ → List Currency → Type 0
Found k cs = (c : Currency) × (find (λ d. d.ident == k) cs ≡ some c)

find-update_currencies :
    (backend : Backend) (marketing : String) (yesterday k : ℕ) (cs : List Currency)
    → Found k cs
    → Found k (update_currencies backend marketing yesterday cs).1
unfolding update_currencies
find-update_currencies backend marketing yesterday k [] (c, h) = absurd (cc)
find-update_currencies backend marketing yesterday k (d ∷ cs) (c, h) =
    let rest = update_currencies backend marketing yesterday cs in
    let (d', cs', is, same, tail) =
      after_currency-ident d.auto_update (backend d.name marketing yesterday) d cs rest in
    elim (Bool-cases (d.ident == k)) [
      | inl here ↦ (d', rw is (ground (arith, same)))
      | inr there ↦
          let further : Found k cs = (c, ground arith) in
          let (c', e) : Found k cs' = elim tail [
            | inl old ↦ rw old further
            | inr new ↦ rw new (find-update_currencies backend marketing yesterday k cs further)
          ] in
          (c', rw is (ground (arith, same, e)))
    ]

updated-AllKnown :
    (backend : Backend) (marketing : String) (yesterday : ℕ) (cs : List Currency)
    (ps : List Payment)
    → AllKnown cs ps
    → AllKnown (update_currencies backend marketing yesterday cs).1 ps
updated-AllKnown backend marketing yesterday cs [] known = tt
updated-AllKnown backend marketing yesterday cs (p ∷ ps) ((c, known), rest) =
    (go p.currency known, updated-AllKnown backend marketing yesterday cs ps rest)
  where
    go :
        (currency : Option ℕ)
        → currency_of currency cs ≡ some c
        → (c' : Currency) × (currency_of currency
              (update_currencies backend marketing yesterday cs).1
            ≡ some c')
    go none h = absurd (cc)
    go (some k) h = find-update_currencies backend marketing yesterday k cs (c, h)

-- How the whole run may end: the first loop was left by an exception, for a currency that is updated,
-- or the second one ends.
abbrev pub IsRunEnd :
    Backend
    → String
    → ℕ
    → List Currency
    → List Currency
    → List Payment
    → Ending
    → List Rate
    → Type 0
IsRunEnd backend marketing today old cs ps e rates =
    (((c : Currency) × (c.auto_update ≡ true)
        × (backend c.name marketing (today - 1) ≡ none)
        × (find (λ d. d.auto_update && not (is_some (backend d.name marketing (today - 1)))) old
            ≡ some c))
      × (e ≡ raised))
    ⊎ IsEnd backend marketing today cs ps e rates

update_currencies-raised :
    (backend : Backend) (marketing : String) (yesterday : ℕ) (cs : List Currency)
    → (update_currencies backend marketing yesterday cs).0 ≡ false
    → (c : Currency) × (c.auto_update ≡ true)
      × (backend c.name marketing yesterday ≡ none)
      × (find (λ d. d.auto_update && not (is_some (backend d.name marketing yesterday))) cs
          ≡ some c)
unfolding update_currencies
update_currencies-raised backend marketing yesterday [] h = ground arith
update_currencies-raised backend marketing yesterday (c ∷ cs) h = elim (Bool-cases c.auto_update) [
  | inl updated ↦ elim (Option-cases (backend c.name marketing yesterday)) [
    | inl silent ↦ (c, updated, silent, rw updated (rw silent refl))
    | inr (q, answer) ↦
        let (d, own, none', first) =
          update_currencies-raised backend marketing yesterday cs (rw (updated, answer) at h) in
        (d, own, none', rw updated (rw answer first))
  ]
  | inr fixed ↦
      let (d, own, none', first) =
        update_currencies-raised backend marketing yesterday cs (rw fixed at h) in
      (d, own, none', rw fixed first)
]

-- Where every payment has a currency that the table has, and each currency one rate for a day at
-- most, the daily run ends: when no received payment of an earlier day is without an official rate,
-- when the backend reports an error or raises an exception for the next such payment, or when it
-- raises one for a currency that is to be updated. The payments stay, each currency has still one
-- rate for a day at most, and no payment loses its official rate.
pub get_rates_lem :
    (backend : Backend) (marketing : String) (today : ℕ) (db : Database)
    → AllKnown db.currencies db.payments
    → IsFunctional db.rates
    → (e : Ending) × (db' : Database) × (get_rates backend marketing today db ≡ some (e, db'))
      × (db'.payments ≡ db.payments)
      × IsRunEnd backend marketing today db.currencies db'.currencies db'.payments e db'.rates
      × IsFunctional db'.rates
      × KeepsOfficials db.rates db'.rates
unfolding get_rates
get_rates_lem backend marketing today db known functional =
    let updated = update_currencies backend marketing (today - 1) db.currencies in
    let cs = updated.1 in
    elim (Bool-cases updated.0) [
      | inl ok ↦
          let (e, rates', run, end, functional', keeps) =
            load_rates_lem (suc (length db.payments)) backend marketing today cs db.payments
              db.rates
              (updated-AllKnown backend marketing (today - 1) db.currencies db.payments known)
              functional (omega (arith, pending-length today db.rates db.payments)) in
          (
            e,
            record db { currencies = cs; rates = rates' },
            rw ok (rw run refl),
            refl,
            inr end,
            functional',
            keeps,
          )
      | inr broken ↦
          let facts = update_currencies-raised backend marketing (today - 1) db.currencies broken in
          (
            raised,
            record db { currencies = cs },
            rw broken refl,
            refl,
            inl (facts, refl),
            functional,
            λ p h. h,
          )
    ]
