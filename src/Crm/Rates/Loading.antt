-- ===== src/Crm/Rates/Loading.antt =====
-- The run that loads rates ends, and what it leaves.
use mathlib.Core.Path.{subst}
use django_crm_marscode.Prelude.{
  ℕ, zero, suc, ◌<◌, String, ◌≡◌, refl, inl, inr, Bool, true, Option, none, some, List, [], ◌∷◌,
  arith, Bool-cases, Option-cases, All, find,
}
use django_crm_marscode.Crm.Payments.{
  Currency, Payment, Rate, IsFunctional, currency_of, currency_of-some,
}
use django_crm_marscode.Crm.Rates.{
  Quote, Backend, is_due, Ending, finished, backend_error, raised, Round, ends, goes, load_round,
  load_rates,
}
use django_crm_marscode.Crm.Rates.Officials.{
  pending, KeepsOfficials, pending-less, put_official_lem, same_payment,
}

-- Every payment has a currency that the table has.
abbrev pub AllKnown : List Currency → List Payment → Type 0
AllKnown cs ps = All (λ p. (c : Currency) × (currency_of p.currency cs ≡ some c)) ps

-- How the loop may end: no payment waits, or the backend reports an error or raises an exception for the
-- next one that waits.
abbrev pub IsEnd : Backend → String → ℕ → List Currency → List Payment → Ending → List Rate → Type 0
IsEnd backend marketing today cs ps finished rates = find (is_due today rates) ps ≡ none
IsEnd backend marketing today cs ps backend_error rates =
    (p : Payment) × (c : Currency) × (find (is_due today rates) ps ≡ some p)
    × (currency_of p.currency cs ≡ some c)
    × ((q : Quote) × (backend c.name marketing p.payment_date ≡ some q) × (q.error ≡ true))
IsEnd backend marketing today cs ps raised rates =
    (p : Payment) × (c : Currency) × (find (is_due today rates) ps ≡ some p)
    × (currency_of p.currency cs ≡ some c)
    × (backend c.name marketing p.payment_date ≡ none)

found_known :
    (cs : List Currency) (test : Payment → Bool) (ps : List Payment) (p : Payment)
    → AllKnown cs ps
    → find test ps ≡ some p
    → (c : Currency) × (currency_of p.currency cs ≡ some c)
found_known cs test [] p known h = absurd (cc)
found_known cs test (q ∷ ps) p known h = elim (Bool-cases (test q)) [
  | inl here ↦
      subst (λ r. (c : Currency) × (currency_of r.currency cs ≡ some c))
        (same_payment q p (ground arith)) known.0
  | inr there ↦ found_known cs test ps p known.1 (ground arith)
]

-- What a round of the loop does, where the rates are functional and the currencies known.
abbrev IsRound : Backend → String → ℕ → List Currency → List Payment → List Rate → Round → Type 0
IsRound backend marketing today cs ps rates (ends e) = IsEnd backend marketing today cs ps e rates
IsRound backend marketing today cs ps rates (goes rates') =
    IsFunctional rates'
    × KeepsOfficials rates rates'
    × (pending today rates' ps < pending today rates ps)

load_round_lem :
    (backend : Backend) (marketing : String) (today : ℕ) (cs : List Currency) (ps : List Payment)
    (rates : List Rate)
    → AllKnown cs ps
    → IsFunctional rates
    → IsRound backend marketing today cs ps rates (load_round backend marketing today cs ps rates)
unfolding load_round
load_round_lem backend marketing today cs ps rates known functional =
    elim (Option-cases (find (is_due today rates) ps)) [
      | inl nobody ↦ rw nobody nobody
      | inr (p, next) ↦
          let (c, has) = found_known cs (is_due today rates) ps p known next in
          elim (Option-cases (backend c.name marketing p.payment_date)) [
            | inl silent ↦ rw next (rw has (rw silent (p, c, next, has, silent)))
            | inr (q, answer) ↦ elim (Bool-cases q.error) [
              | inl error ↦
                  rw next (rw has (rw answer (rw error (p, c, next, has, (q, answer, error)))))
              | inr good ↦
                  let (rates', put, facts) =
                    put_official_lem c.ident q rates p (currency_of-some p.currency cs c has)
                      functional in
                  rw next (
                    rw has (
                      rw answer (
                        rw good (
                          rw put (
                            facts.functional,
                            facts.keeps,
                            pending-less today rates rates' ps p facts.keeps next facts.own,
                          )))))
            ]
          ]
    ]

-- Where every payment has a currency and each currency one rate for a day at most, a run with more
-- rounds than payments that wait ends: when no payment waits, or when the backend reports an error or
-- raises an exception for the next one that waits. Each currency has still one rate for a day
-- at most, and no payment loses its official rate.
pub load_rates_lem :
    (fuel : ℕ) (backend : Backend) (marketing : String) (today : ℕ) (cs : List Currency)
    (ps : List Payment) (rates : List Rate)
    → AllKnown cs ps
    → IsFunctional rates
    → pending today rates ps < fuel
    → (e : Ending) × (rates' : List Rate) × (load_rates fuel backend marketing today cs ps rates
        ≡ some (e, rates'))
      × IsEnd backend marketing today cs ps e rates'
      × IsFunctional rates'
      × KeepsOfficials rates rates'
unfolding load_rates
load_rates_lem zero backend marketing today cs ps rates known functional enough =
    absurd (omega arith)
load_rates_lem (suc fuel) backend marketing today cs ps rates known functional enough =
    go (load_round backend marketing today cs ps rates) refl
      (load_round_lem backend marketing today cs ps rates known functional)
      (λ rates'. load_rates_lem fuel backend marketing today cs ps rates' known)
  where
    Ends : List Rate → Option (Ending × List Rate) → Type 0
    Ends rates o =
        (e : Ending) × (rates' : List Rate) × (o ≡ some (e, rates'))
        × IsEnd backend marketing today cs ps e rates'
        × IsFunctional rates'
        × KeepsOfficials rates rates'

    go :
        (r : Round)
        → load_round backend marketing today cs ps rates ≡ r
        → IsRound backend marketing today cs ps rates r
        → ((rates' : List Rate)
            → IsFunctional rates'
            → pending today rates' ps < fuel
            → Ends rates' (load_rates fuel backend marketing today cs ps rates'))
        → Ends rates (load_rates (suc fuel) backend marketing today cs ps rates)
    go (ends e) eq facts rest = (e, rates, rw (eq, load_rates) refl, facts, functional, λ p h. h)
    go (goes rates') eq facts rest =
        let (e, rates'', run, end, functional', keeps) =
          rest rates' facts.0 (omega (arith, facts.2)) in
        (e, rates'', rw (eq, load_rates) run, end, functional', λ p h. keeps p (facts.1 p h))
