-- ===== src/Massmail/Queue/Rotation.antt =====
-- What a client of the queue relies on: every account is served once in a turn, and an account
-- stands in the queue at most once.
use django_crm_marscode.Prelude.{
  zero, suc, ◌+◌, ◌≤◌, ◌≡◌, refl, ◌≢◌, inl, inr, true, false, append_assoc, append-nil, arith, ltb,
  ◌==◌, if◌then◌else◌, Bool-cases, contains, count, count-append, contains-append,
  remove_first-contains, count-remove_first,
}
use django_crm_marscode.Massmail.Queue.{
  EmlAccountsQueue, dumped, get_next, add_id, remove_id, List, ℕ, length, Option, ◌∷◌, ◌++◌, some,
  [], without,
}

-- The ids of several calls of `get_next` in turn, and the queue after them.
abbrev pub get_next_times : ℕ → EmlAccountsQueue → List (Option (Option ℕ)) × EmlAccountsQueue
get_next_times zero q = ([], q)
get_next_times (suc n) q =
    let (served, q') = get_next_times n (get_next q).1 in ((get_next q).0 ∷ served, q')

abbrev pub holding : EmlAccountsQueue → List ℕ → EmlAccountsQueue
holding q ids = record q { queue = dumped ids }

abbrev pub served_all : List ℕ → List (Option (Option ℕ))
served_all [] = []
served_all (a ∷ ids) = some (some a) ∷ served_all ids

get_next-cons :
    (q : EmlAccountsQueue) (a : ℕ) (rest : List ℕ)
    → get_next (holding q (a ∷ rest)) ≡ (some (some a), holding q (rest ++ (a ∷ [])))
unfolding get_next
get_next-cons q a rest = refl

get_next_times-append :
    (q : EmlAccountsQueue) (xs ys : List ℕ)
    → get_next_times (length xs) (holding q (xs ++ ys)) ≡ (served_all xs, holding q (ys ++ xs))
get_next_times-append q [] ys = rw append-nil
get_next_times-append q (x ∷ xs) ys =
    rw (get_next-cons q x (xs ++ ys), append_assoc xs ys (x ∷ []))
      (rw (get_next_times-append q xs (ys ++ (x ∷ [])), append_assoc ys (x ∷ []) xs))

-- A turn of as many calls of `get_next` as the queue has accounts returns each account once, in the
-- order of the queue, and leaves the queue as it was.
pub get_next-turn :
    (q : EmlAccountsQueue) (ids : List ℕ)
    → get_next_times (length ids) (holding q ids) ≡ (served_all ids, holding q ids)
get_next-turn q ids = rw (append-nil ids) at (get_next_times-append q ids [])

-- `a` stands in the queue at most once.
abbrev pub NoRepeats : List ℕ → Type 0
NoRepeats ids = (a : ℕ) → count a ids ≤ 1

contains-eq-count : (a : ℕ) (ids : List ℕ) → contains a ids ≡ ltb 0 (count a ids)
contains-eq-count a [] = refl
contains-eq-count a (x ∷ ids) = ground (arith, contains-eq-count a ids)

count-without :
    (b a : ℕ) (ids : List ℕ)
    → contains a ids ≡ true
    → count b ids ≡ (if b == a then 1 else 0) + count b (without a ids)
count-without b a ids h =
    let (rest, e) = remove_first-contains a ids h in
    ground (arith, e, count-remove_first b a ids rest e)

-- `add_id` on a queue of distinct accounts leaves it so, with the account in it and the other
-- accounts as often as before.
pub add_id_lem :
    (q : EmlAccountsQueue) (ids : List ℕ) (a : ℕ)
    → NoRepeats ids
    → (ids' : List ℕ) × (add_id a (holding q ids) ≡ (some tt, holding q ids'))
      × NoRepeats ids'
      × (contains a ids' ≡ true)
      × ((b : ℕ) → b ≢ a → count b ids' ≡ count b ids)
unfolding add_id
add_id_lem q ids a h = elim (Bool-cases (contains a ids)) [
  | inl old ↦ (ids, rw old, h, old, λ b _. refl)
  | inr new ↦ (
    ids ++ (a ∷ []),
    rw new,
    λ b. ground (arith, h b, count-append b ids (a ∷ []), contains-eq-count a ids),
    ground (arith, contains-append a ids (a ∷ [])),
    λ b other. ground (arith, count-append b ids (a ∷ [])),
  )
]

-- `remove_id` on a queue of distinct accounts takes the account out, wherever it stands, leaves the
-- others as often as before, and does nothing to a queue without the account.
pub remove_id_lem :
    (q : EmlAccountsQueue) (ids : List ℕ) (a : ℕ)
    → NoRepeats ids
    → (ids' : List ℕ) × (remove_id a (holding q ids) ≡ (some tt, holding q ids'))
      × NoRepeats ids'
      × (contains a ids' ≡ false)
      × ((b : ℕ) → b ≢ a → count b ids' ≡ count b ids)
unfolding remove_id
remove_id_lem q ids a h = elim (Bool-cases (contains a ids)) [
  | inl old ↦ (
    without a ids,
    rw old,
    λ b. ground (arith, h b, count-without b a ids old),
    ground (arith, h a, count-without a a ids old, contains-eq-count a (without a ids)),
    λ b other. ground (arith, count-without b a ids old),
  )
  | inr new ↦ (ids, rw new, h, new, λ b _. refl)
]
