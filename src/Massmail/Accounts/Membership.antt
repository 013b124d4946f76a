-- ===== src/Massmail/Accounts/Membership.antt =====
-- In which queues an account stands after the operations of the account.
use django_crm_marscode.Prelude.{
  ℕ, ◌≡◌, refl, ◌≢◌, inl, inr, Bool, true, false, not, ◌&&◌, Option, some, List, [], ◌∷◌, ◌++◌,
  arith, ◌==◌, Bool-cases, All, filter, all, contains,
}
use django_crm_marscode.Prelude.Exec.{exec, ◌>>◌, Exec, Returns, >>=-returns, then_do-returns}
use mathlib.Core.Path.{subst}
use django_crm_marscode.Massmail.Queue.{EmlAccountsQueue, QueueText, dumped, add_id, remove_id}
use django_crm_marscode.Massmail.Queue.Rotation.{NoRepeats, holding, add_id_lem, remove_id_lem}
use django_crm_marscode.Massmail.Accounts.{
  EmailAccount, Queues, Got, got, with_queue, created, when, after_add, missing, several, found,
  get_queue_of, save_queue, on_queue, remove_everywhere, Form, save_model, place,
}

-- The field holds a list of distinct accounts.
abbrev pub IsSound : EmlAccountsQueue → Type 0
IsSound q = (ids : List ℕ) × (q.queue ≡ dumped ids) × NoRepeats ids

abbrev ids_of : QueueText → List ℕ
ids_of QueueText.empty_text = []
ids_of (dumped ids) = ids

-- The account stands in the queue.
abbrev pub holds : ℕ → EmlAccountsQueue → Bool
holds a q = contains a (ids_of q.queue)

abbrev Cleared : ℕ → EmlAccountsQueue → Type 0
Cleared a q = IsSound q × (holds a q ≡ false)

remove_id_sound :
    (a : ℕ) (q : EmlAccountsQueue)
    → IsSound q
    → ((remove_id a q).0 ≡ some tt) × Cleared a (remove_id a q).1
remove_id_sound a q (ids, e, d) =
    let (ids', r, d', gone, _) = remove_id_lem q ids a d in
    let same : q ≡ holding q ids =
      (λ i. record { ident = q.ident; owner = q.owner; queue = e i }) in
    rw same (rw r (refl, ((ids', refl, d'), gone)))

add_id-IsSound :
    (a : ℕ) (q : EmlAccountsQueue)
    → IsSound q
    → ((add_id a q).0 ≡ some tt) × IsSound (add_id a q).1 × (holds a (add_id a q).1 ≡ true)
add_id-IsSound a q (ids, e, d) =
    let (ids', r, d', there, _) = add_id_lem q ids a d in
    let same : q ≡ holding q ids =
      (λ i. record { ident = q.ident; owner = q.owner; queue = e i }) in
    rw same (rw r (refl, (ids', refl, d'), there))

-- The loop over all queues returns, and takes the account out of each.
remove_everywhere-clears :
    (pk : ℕ) (table : Queues)
    → All IsSound table
    → ((remove_everywhere pk table).0 ≡ some tt) × All (Cleared pk) (remove_everywhere pk table).1
unfolding remove_everywhere
remove_everywhere-clears pk [] h = (refl, tt)
remove_everywhere-clears pk (q ∷ table) h =
    let (r, c) = remove_id_sound pk q h.0 in
    let (rs, cs) = remove_everywhere-clears pk table h.1 in rw r (rs, (c, cs))

save_queue-IsSound :
    (q : EmlAccountsQueue) (table : Queues)
    → IsSound q
    → All IsSound table
    → All IsSound (save_queue q table)
save_queue-IsSound q [] s h = tt
save_queue-IsSound q (r ∷ table) s h = elim (Bool-cases (r.ident == q.ident)) [
  | inl same ↦ rw same (s, save_queue-IsSound q table s h.1)
  | inr other ↦ rw other (h.0, save_queue-IsSound q table s h.1)
]

filter-All :
    (p : EmlAccountsQueue → Bool) (table : Queues)
    → All IsSound table
    → All IsSound (filter p table)
filter-All p [] h = tt
filter-All p (q ∷ table) h = elim (Bool-cases (p q)) [
  | inl kept ↦ rw kept (h.0, filter-All p table h.1)
  | inr dropped ↦ rw dropped (filter-All p table h.1)
]

append-All : (xs ys : Queues) → All IsSound xs → All IsSound ys → All IsSound (xs ++ ys)
append-All [] ys hx hy = hy
append-All (x ∷ xs) ys hx hy = (hx.0, append-All xs ys hx.1 hy)

got-IsSound :
    (table : Queues) (q : EmlAccountsQueue) → All IsSound table → got table ≡ found q → IsSound q
got-IsSound [] q h e = cc
got-IsSound (r ∷ []) q h e = subst IsSound (found-injective e) h.0
  where
    found-injective : found r ≡ found q → r ≡ q
    found-injective e = cc
got-IsSound (r ∷ s ∷ table) q h e = cc

with_queue-returns :
    (g : Got) (fresh : ℕ) (owner : Option ℕ) (table : Queues)
    → All IsSound table
    → g ≢ several
    → ((q : EmlAccountsQueue) → g ≡ found q → IsSound q)
    → (q : EmlAccountsQueue) × ((with_queue g fresh owner table).0 ≡ some q)
      × (IsSound q × All IsSound (with_queue g fresh owner table).1)
with_queue-returns missing fresh owner table h single sound =
    let new : IsSound (created fresh owner) = ([], refl, λ a. omega arith) in
    (created fresh owner, refl, (new, append-All table _ h (new, tt)))
with_queue-returns several fresh owner table h single sound = absurd (single refl)
with_queue-returns (found q) fresh owner table h single sound = (q, refl, (sound q refl, h))

-- Adding or removing an id in one queue keeps every queue of the table sound, and returns.
add_id-returns :
    (a : ℕ) (q : EmlAccountsQueue)
    → IsSound q
    → Returns (All IsSound) (on_queue q (add_id a)) (λ _. All IsSound)
add_id-returns a q s =
    λ table h. let (r, s', _) = add_id-IsSound a q s in (tt, r, save_queue-IsSound _ table s' h)

remove_id-returns :
    (a : ℕ) (q : EmlAccountsQueue)
    → IsSound q
    → Returns (All IsSound) (on_queue q (remove_id a)) (λ _. All IsSound)
remove_id-returns a q s =
    λ table h. let (r, c) = remove_id_sound a q s in (tt, r, save_queue-IsSound _ table c.0 h)

when-returns :
    (b : Bool) (m : Exec Queues (Unit {0}))
    → Returns (All IsSound) m (λ _. All IsSound)
    → Returns (All IsSound) (when b m) (λ _. All IsSound)
unfolding exec
when-returns true m r = r
when-returns false m r = λ table h. (tt, refl, h)

after_add-IsSound :
    (q : EmlAccountsQueue) (pk : ℕ) (b : Bool) → IsSound q → IsSound (after_add q pk b)
after_add-IsSound q pk true s = (add_id-IsSound pk q s).1
after_add-IsSound q pk false s = s

All-Cleared : (a : ℕ) (table : Queues) → All (Cleared a) table → All (λ q. holds a q ≡ false) table
All-Cleared a [] h = tt
All-Cleared a (q ∷ table) h = (h.0.1, All-Cleared a table h.1)

place-clears :
    (obj : EmailAccount) (form : Form) (q : EmlAccountsQueue)
    → IsSound q
    → form.change ≡ true
    → form.owner_changed ≡ true
    → Returns (All IsSound) (place obj form q) (λ _. All (λ q. holds obj.ident q ≡ false))
unfolding place exec
place-clears obj form q s changed moved =
    >>=-returns (All IsSound) (λ _. All IsSound) gone first (λ _. second >> third)
      (when-returns add _ (add_id-returns obj.ident q s))
      λ _.
        >>=-returns (All IsSound) (λ _. All IsSound) gone second (λ _. third)
          (when-returns drop _
            (remove_id-returns obj.ident _ (after_add-IsSound q obj.ident add s)))
          λ _ table h.
            let (r, c) = remove_everywhere-clears obj.ident table h in
            rw (changed, moved) (tt, r, All-Cleared obj.ident _ c)
  where
    gone : Unit {0} → Queues → Type 0
    gone _ = All (λ q. holds obj.ident q ≡ false)

    add : Bool
    add = obj.massmail && not obj.main

    drop : Bool
    drop = form.change && form.main_changed && obj.main

    first : Exec Queues (Unit {0})
    first = when add (on_queue q (add_id obj.ident))

    second : Exec Queues (Unit {0})
    second = when drop (on_queue (after_add q obj.ident add) (remove_id obj.ident))

    third : Exec Queues (Unit {0})
    third = when (form.change && form.owner_changed) (remove_everywhere obj.ident)

-- Where every queue holds distinct accounts and the account's owner has at most one queue, the
-- account form that changes the owner is saved without an exception, and afterwards the account
-- stands in no queue at all, that of its new owner included.
pub save_model-owner_changed :
    (fresh : ℕ) (obj : EmailAccount) (form : Form) (table : Queues)
    → All IsSound table
    → get_queue_of obj.owner table ≢ several
    → form.change ≡ true
    → form.owner_changed ≡ true
    → ((save_model fresh obj form table).0 ≡ some tt)
      × All (λ q. holds obj.ident q ≡ false) (save_model fresh obj form table).1
unfolding save_model get_queue_of exec
save_model-owner_changed fresh obj form table h single changed moved =
    let (q, e, (s, h')) =
      with_queue-returns (get_queue_of obj.owner table) fresh obj.owner table h single
        (λ q. got-IsSound _ q (filter-All _ table h)) in
    let (_, r, all) =
      then_do-returns (All IsSound) (λ q t. IsSound q × All IsSound t)
        (λ _. All (λ q. holds obj.ident q ≡ false)) _ _ (place obj form) q e (s, h')
        (λ q t (s, h). place-clears obj form q s changed moved t h) in
    (r, all)
