-- ===== src/Massmail/OwnerChange/Turns.antt =====
-- crm/utils/change_massconts.py: who has which account after the call, and how often the queue was turned.
use django_crm_marscode.Prelude.{
  ℕ, zero, suc, ◌≡◌, refl, sym, ◌∙◌, ap, Bool, true, false, ◌||◌, Option, none, some, List, [], ◌∷◌,
  ◌++◌, if◌then◌else◌, opt_eq, Bool-cases, inl, inr, filter, find, length, All, arith,
}
use django_crm_marscode.Massmail.Queue.{EmlAccountsQueue, get_next}
use django_crm_marscode.Massmail.Queue.Rotation.{holding, get_next_times}
use django_crm_marscode.Massmail.Accounts.{Queues, save_queue}
use django_crm_marscode.Massmail.Sending.Tables.{MassContact}
use django_crm_marscode.Massmail.OwnerChange.{
  Firm, of_company, of_people, is_touched, has_account, with_mail_account, serve_people,
  serve_company, drop_contacts, hand_over, with_first, change_massconts,
}

-- A chosen row has now an account for which `P` holds and is else as it was, another is as it was.
abbrev pub Handed : Bool → (ℕ → Type 0) → MassContact → MassContact → Type 0
Handed true P x y = (a : ℕ) × P a × (y ≡ with_mail_account x a)
Handed false P x y = y ≡ x

-- The same of the rows of two tables, in their order.
abbrev pub HandedOver :
    (MassContact → Bool) → (ℕ → Type 0) → List MassContact → List MassContact → Type 0
HandedOver chosen P [] [] = Unit {0}
HandedOver chosen P [] (y ∷ ys) = false ≡ true
HandedOver chosen P (x ∷ xs) [] = false ≡ true
HandedOver chosen P (x ∷ xs) (y ∷ ys) = Handed (chosen x) P x y × HandedOver chosen P xs ys

All-snoc : (P : ℕ → Type 0) (a : ℕ) (ids : List ℕ) → P a → All P ids → All P (ids ++ (a ∷ []))
All-snoc P a [] p all = (p, tt)
All-snoc P a (x ∷ ids) p all = (all.0, All-snoc P a ids p all.1)

-- The calls of `get_next` for the chosen rows.
abbrev pub turns : (MassContact → Bool) → List MassContact → ℕ
turns chosen mcs = length (filter chosen mcs)

get_next-next :
    (P : ℕ → Type 0) (q : EmlAccountsQueue) (a : ℕ) (ids : List ℕ)
    → All P (a ∷ ids)
    → (b : ℕ) × (rest : List ℕ) × (get_next (holding q (a ∷ ids))
        ≡ (some (some a), holding q (b ∷ rest)))
      × All P (b ∷ rest)
unfolding get_next
get_next-next P q a [] all = (a, [], refl, all)
get_next-next P q a (x ∷ ids) all = (x, ids ++ (a ∷ []), refl, All-snoc P a (x ∷ ids) all.0 all.1)

serve_people-chosen :
    (is_account : ℕ → Bool) (chosen : MassContact → Bool) (mc : MassContact)
    (mcs ys : List MassContact) (q q' q'' : EmlAccountsQueue) (a : ℕ)
    → chosen mc ≡ true
    → get_next q ≡ (some (some a), q')
    → has_account is_account a ≡ true
    → serve_people is_account chosen mcs q' ≡ some (ys, q'')
    → serve_people is_account chosen (mc ∷ mcs) q ≡ some (with_mail_account mc a ∷ ys, q'')
unfolding serve_people
serve_people-chosen is_account chosen mc mcs ys q q' q'' a is next known rest =
    rw (is, next, known, rest) refl

serve_people-other :
    (is_account : ℕ → Bool) (chosen : MassContact → Bool) (mc : MassContact)
    (mcs ys : List MassContact) (q q' : EmlAccountsQueue)
    → chosen mc ≡ false
    → serve_people is_account chosen mcs q ≡ some (ys, q')
    → serve_people is_account chosen (mc ∷ mcs) q ≡ some (mc ∷ ys, q')
unfolding serve_people
serve_people-other is_account chosen mc mcs ys q q' other rest = rw (other, rest) refl

turns-chosen :
    (chosen : MassContact → Bool) (mc : MassContact) (mcs : List MassContact)
    (q q' : EmlAccountsQueue) (r : Option (Option ℕ))
    → chosen mc ≡ true
    → get_next q ≡ (r, q')
    → (get_next_times (turns chosen mcs) q').1 ≡ (get_next_times (turns chosen (mc ∷ mcs)) q).1
turns-chosen chosen mc mcs q q' r is next =
    rw is (ap (λ z. (get_next_times (turns chosen mcs) z.1).1) (sym next))

turns-other :
    (chosen : MassContact → Bool) (mc : MassContact) (mcs : List MassContact) (q : EmlAccountsQueue)
    → chosen mc ≡ false
    → (get_next_times (turns chosen mcs) q).1 ≡ (get_next_times (turns chosen (mc ∷ mcs)) q).1
turns-other chosen mc mcs q other = rw other refl

module _ (is_account : ℕ → Bool) (P : ℕ → Type 0)
    (known : (a : ℕ) → P a → has_account is_account a ≡ true) where
  -- The loop gives each person's contact an account of the queue, which is turned once for each.
  serve_people_lem :
      (chosen : MassContact → Bool) (mcs : List MassContact) (q : EmlAccountsQueue) (a : ℕ)
      (ids : List ℕ)
      → All P (a ∷ ids)
      → (ys : List MassContact) × (serve_people is_account chosen mcs (holding q (a ∷ ids))
          ≡ some (ys, (get_next_times (turns chosen mcs) (holding q (a ∷ ids))).1))
        × HandedOver chosen P mcs ys
  unfolding serve_people
  serve_people_lem chosen [] q a ids all = ([], refl, tt)
  serve_people_lem chosen (mc ∷ mcs) q a ids all = elim (Bool-cases (chosen mc)) [
    | inl is ↦
        let (b, rest, next, all') = get_next-next P q a ids all in
        let (ys, served, handed) = serve_people_lem chosen mcs q b rest all' in
        (
          with_mail_account mc a ∷ ys,
          serve_people-chosen is_account chosen mc mcs ys _ _ _ a is next (known a all.0) served
              ∙ ap (λ z. some (with_mail_account mc a ∷ ys, z))
                  (turns-chosen chosen mc mcs _ _ _ is next),
          (rw is (a, all.0, refl), handed),
        )
    | inr other ↦
        let (ys, served, handed) = serve_people_lem chosen mcs q a ids all in
        (
          mc ∷ ys,
          serve_people-other is_account chosen mc mcs ys _ _ other served
              ∙ ap (λ z. some (mc ∷ ys, z)) (turns-other chosen mc mcs _ other),
          (rw other refl, handed),
        )
  ]

  module _ (firm : Firm) where
    still-Handed :
        (d : Bool) (a : ℕ) (x y : MassContact)
        → P a
        → Handed d P (with_mail_account x a) y
        → Handed true P x y
    still-Handed true a x y p h = h
    still-Handed false a x y p h = (a, p, h)

    row-Handed :
        (c : Bool) (a : ℕ) (x y : MassContact)
        → P a
        → Handed
            (of_people firm (if c then with_mail_account x a else x))
            P
            (if c then with_mail_account x a else x)
            y
        → Handed (c || of_people firm x) P x y
    row-Handed true a x y p h = still-Handed (of_people firm x) a x y p h
    row-Handed false a x y p h = h

    HandedOver-serve_company :
        (a : ℕ) (mcs ys : List MassContact)
        → P a
        → HandedOver (of_people firm) P (serve_company firm a mcs) ys
        → HandedOver (is_touched firm) P mcs ys
    HandedOver-serve_company a [] [] p h = tt
    HandedOver-serve_company a [] (y ∷ ys) p h = h
    HandedOver-serve_company a (x ∷ mcs) [] p h = h
    HandedOver-serve_company a (x ∷ mcs) (y ∷ ys) p h =
        let (row, rest) = h in
        (row-Handed (of_company firm x) a x y p row, HandedOver-serve_company a mcs ys p rest)

    people_same :
        (c : Bool) (a : ℕ) (x : MassContact)
        → of_people firm (if c then with_mail_account x a else x) ≡ of_people firm x
    people_same true a x = refl
    people_same false a x = refl

    turns-serve_company :
        (a : ℕ) (mcs : List MassContact)
        → turns (of_people firm) (serve_company firm a mcs) ≡ turns (of_people firm) mcs
    turns-serve_company a [] = refl
    turns-serve_company a (x ∷ mcs) =
        let same = people_same (of_company firm x) a x in
        let ih = turns-serve_company a mcs in
        elim (Bool-cases (of_people firm x)) [
          | inl is ↦ rw is (rw (same ∙ is) (ap suc ih))
          | inr other ↦ rw other (rw (same ∙ other) ih)
        ]

    hand_over-served :
        (queues : Queues) (mcs ys : List MassContact) (q q' : EmlAccountsQueue) (a : ℕ)
        → has_account is_account a ≡ true
        → serve_people is_account (of_people firm) (serve_company firm a mcs) q ≡ some (ys, q')
        → hand_over is_account firm queues mcs (some (some a)) q ≡ some (save_queue q' queues, ys)
    hand_over-served queues mcs ys q q' zero good served = ground (arith, good)
    hand_over-served queues mcs ys q q' (suc a) good served = rw (good, served) refl

    with_first-handed :
        (queues : Queues) (mcs : List MassContact) (q : EmlAccountsQueue) (a : ℕ) (ids : List ℕ)
        → All P (a ∷ ids)
        → (ys : List MassContact) × (with_first is_account firm queues mcs
              (some (holding q (a ∷ ids)))
            ≡ some (
              save_queue
                  (get_next_times (suc (turns (of_people firm) mcs)) (holding q (a ∷ ids))).1
                  queues,
              ys,
            ))
          × HandedOver (is_touched firm) P mcs ys
    with_first-handed queues mcs q a ids all =
        let (b, rest, next, all') = get_next-next P q a ids all in
        let (ys, served, handed) =
          serve_people_lem (of_people firm) (serve_company firm a mcs) q b rest all' in
        (
          ys,
          ap (λ z. hand_over is_account firm queues mcs z.0 z.1) next
              ∙ hand_over-served queues mcs ys _ _ a (known a all.0) served
              ∙ ap (λ n. some (save_queue (get_next_times n (holding q (b ∷ rest))).1 queues, ys))
                  (turns-serve_company a mcs)
              ∙ ap
                  (λ z.
                    some
                      (save_queue (get_next_times (turns (of_people firm) mcs) z.1).1 queues, ys))
                  (sym next),
          HandedOver-serve_company a mcs ys all.0 handed,
        )

-- Where each number for which `P` holds is the key of an account, and `P` holds of all ids of the
-- owner's first queue, one at least, the call returns. The queue is then turned once, and once more for
-- each row of a person; each row of the company and of its people has an account for which `P` holds,
-- and is else as it was; the other rows are as they were, and the order is kept.
pub change_massconts_lem :
    (is_account : ℕ → Bool) (P : ℕ → Type 0) (firm : Firm) (queues : Queues)
    (mcs : List MassContact) (q : EmlAccountsQueue) (a : ℕ) (ids : List ℕ)
    → ((b : ℕ) → P b → has_account is_account b ≡ true)
    → find (λ r. opt_eq r.owner firm.owner) queues ≡ some (holding q (a ∷ ids))
    → All P (a ∷ ids)
    → (ys : List MassContact) × (change_massconts is_account firm queues mcs
        ≡ some (
          save_queue
              (get_next_times (suc (turns (of_people firm) mcs)) (holding q (a ∷ ids))).1
              queues,
          ys,
        ))
      × HandedOver (is_touched firm) P mcs ys
unfolding change_massconts
change_massconts_lem is_account P firm queues mcs q a ids known first all =
    rw first (with_first-handed is_account P known firm queues mcs q a ids all)

-- Without a queue of the owner, the rows of the company and of its people go, and the queues stay.
change_massconts-no_queue :
    (is_account : ℕ → Bool) (firm : Firm) (queues : Queues) (mcs : List MassContact)
    → find (λ r. opt_eq r.owner firm.owner) queues ≡ none
    → change_massconts is_account firm queues mcs ≡ some (queues, drop_contacts firm mcs)
unfolding change_massconts
change_massconts-no_queue is_account firm queues mcs first = rw first refl
