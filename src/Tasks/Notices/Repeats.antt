-- ===== src/Tasks/Notices/Repeats.antt =====
-- tasks/site/tasksbasemodeladmin.py, `notify_participants`: whom a call tells, and what a second
-- call does.
use django_crm_marscode.Prelude.{
  ℕ, ◌+◌, ◌≡◌, refl, ap, inl, inr, Bool, true, false, not, ◌&&◌, ◌||◌, some, List, [], ◌∷◌, ◌++◌,
  append-nil, arith, ltb, ◌==◌, if◌then◌else◌, opt_eq, ==_iff, Bool-cases, filter, all, contains,
  count, contains-append, contains-filter, contains_none, filter_all,
}
use django_crm_marscode.Tasks.Objects.{Task}
use django_crm_marscode.Tasks.Notices.{
  Field, responsible, subscribers, Notice, message, email, no_email, is_hidden, exclude_some_users,
  users_of, notified_of, set_notified, exclude_owner, notify_responsible, notify_subscribers,
  email_all, notices_for, reached, to_notify, notify_participants,
}

-- How many messages a user gets.
abbrev pub messages : ℕ → List Notice → ℕ
messages a [] = 0
messages a (message u ∷ ns) = (if a == u then 1 else 0) + messages a ns
messages a (email us ∷ ns) = messages a ns
messages a (no_email u ∷ ns) = messages a ns

-- Whom the field leaves out, and whom the notice of the field reaches.
abbrev pub left_out : Field → Task → ℕ → Bool
left_out responsible obj u = opt_eq (some u) obj.owner
left_out subscribers obj u = false

abbrev pub reaches : (ℕ → Bool) → Field → ℕ → Bool
reaches has_email responsible u = true
reaches has_email subscribers u = has_email u

pub messages-append :
    (a : ℕ) (ns ms : List Notice) → messages a (ns ++ ms) ≡ messages a ns + messages a ms
messages-append a [] ms = omega arith
messages-append a (message u ∷ ns) ms = omega (arith, messages-append a ns ms)
messages-append a (email us ∷ ns) ms = messages-append a ns ms
messages-append a (no_email u ∷ ns) ms = messages-append a ns ms

pub messages-email_all : (a : ℕ) (us : List ℕ) → messages a (email_all us) ≡ 0
messages-email_all a [] = refl
messages-email_all a (u ∷ us) = refl

pub messages-notify_subscribers :
    (e : ℕ → Bool) (a : ℕ) (us : List ℕ) → messages a (notify_subscribers e us) ≡ count a us
messages-notify_subscribers e a [] = refl
messages-notify_subscribers e a (u ∷ us) = ground (arith, messages-notify_subscribers e a us)

messages-notify_responsible :
    (a : ℕ) (us : List ℕ) → messages a (notify_responsible us) ≡ count a us
messages-notify_responsible a [] = refl
messages-notify_responsible a (u ∷ us) = ground (arith, messages-notify_responsible a us)

messages-notices_for :
    (e : ℕ → Bool) (field : Field) (a : ℕ) (us : List ℕ)
    → messages a (notices_for e field us) ≡ count a us
messages-notices_for e responsible a us = messages-notify_responsible a us
messages-notices_for e subscribers a us = omega (
  arith,
  messages-append a (notify_subscribers e us) (email_all (filter e us)),
  messages-email_all a (filter e us),
  messages-notify_subscribers e a us,
)

contains-to_notify :
    (rows : List Task) (field : Field) (obj : Task) (notified : List ℕ) (a : ℕ)
    → contains a (to_notify rows field obj notified) ≡ (
        not (is_hidden rows obj.parent a)
        && (not (left_out field obj a)
            && (not (contains a notified) && contains a (users_of field obj))))
unfolding exclude_some_users
contains-to_notify rows responsible obj notified a = ground (
  arith,
  contains-filter a (λ u. not (is_hidden rows obj.parent u))
      (exclude_owner responsible obj (filter (λ u. not (contains u notified)) obj.responsible)),
  contains-filter a (λ u. not (opt_eq (some u) obj.owner))
      (filter (λ u. not (contains u notified)) obj.responsible),
  contains-filter a (λ u. not (contains u notified)) obj.responsible,
)
contains-to_notify rows subscribers obj notified a = ground (
  arith,
  contains-filter a (λ u. not (is_hidden rows obj.parent u))
      (filter (λ u. not (contains u notified)) obj.subscribers),
  contains-filter a (λ u. not (contains u notified)) obj.subscribers,
)

contains-reached :
    (e : ℕ → Bool) (field : Field) (a : ℕ) (us : List ℕ)
    → contains a (reached e field us) ≡ (reaches e field a && contains a us)
contains-reached e responsible a us = ground arith
contains-reached e subscribers a us = contains-filter a e us

notified-set :
    (field : Field) (us : List ℕ) (obj : Task) → notified_of field (set_notified field us obj) ≡ us
notified-set responsible us obj = refl
notified-set subscribers us obj = refl

count-contains : (a : ℕ) (xs : List ℕ) → contains a xs ≡ ltb 0 (count a xs)
count-contains a [] = refl
count-contains a (x ∷ xs) = ground (arith, count-contains a xs)

pub notify_participants_lem :
    (has_email : ℕ → Bool) (rows : List Task) (field : Field) (obj : Task) (a : ℕ)
    → (contains a (notified_of field (notify_participants has_email rows field obj).obj) ≡ (
        contains a (users_of field obj)
        && (contains a (notified_of field obj)
            || (reaches has_email field a
                && (not (is_hidden rows obj.parent a) && not (left_out field obj a))))))
      × (ltb 0 (messages a (notify_participants has_email rows field obj).notices) ≡ (
          contains a (users_of field obj)
          && (not (contains a (notified_of field obj))
              && (not (is_hidden rows obj.parent a) && not (left_out field obj a)))))
unfolding notify_participants
notify_participants_lem has_email rows field obj a =
    let kept = filter (λ u. contains u (users_of field obj)) (notified_of field obj) in
    let difference = to_notify rows field obj kept in
    let in_kept =
      contains-filter a (λ u. contains u (users_of field obj)) (notified_of field obj) in
    let in_difference = contains-to_notify rows field obj kept a in
    (
      ground (
        arith,
        ap (contains a) (notified-set field (kept ++ reached has_email field difference) obj),
        contains-append a kept (reached has_email field difference),
        contains-reached has_email field a difference,
        in_kept,
        in_difference,
      ),
      ground (
        arith,
        messages-notices_for has_email field a difference,
        count-contains a difference,
        in_kept,
        in_difference,
      ),
    )

set-notified : (field : Field) (obj : Task) → set_notified field (notified_of field obj) obj ≡ obj
set-notified responsible obj = refl
set-notified subscribers obj = refl

-- What a call leaves as it was.
same_users :
    (e : ℕ → Bool) (rows : List Task) (field : Field) (obj : Task)
    → users_of field (notify_participants e rows field obj).obj ≡ users_of field obj
unfolding notify_participants
same_users e rows responsible obj = refl
same_users e rows subscribers obj = refl

same_tests :
    (e : ℕ → Bool) (rows : List Task) (field : Field) (obj : Task) (a : ℕ)
    → (is_hidden rows (notify_participants e rows field obj).obj.parent a
        ≡ is_hidden rows obj.parent a)
      × (left_out field (notify_participants e rows field obj).obj a ≡ left_out field obj a)
unfolding notify_participants
same_tests e rows responsible obj a = (refl, refl)
same_tests e rows subscribers obj a = (refl, refl)

notices_for-none :
    (e : ℕ → Bool) (field : Field) → (notices_for e field [] ≡ []) × (reached e field [] ≡ [])
notices_for-none e responsible = (refl, refl)
notices_for-none e subscribers = (refl, refl)

pub all-contains :
    (p : ℕ → Bool) (a : ℕ) (xs : List ℕ) → all p xs ≡ true → (contains a xs && not (p a)) ≡ false
all-contains p a [] h = refl
all-contains p a (x ∷ xs) h = elim (Bool-cases (a == x)) [
  | inl same ↦ ground (arith, ap p ((==_iff a x).0 same))
  | inr other ↦ ground (arith, all-contains p a xs)
]

settled :
    (e : ℕ → Bool) (rows : List Task) (field : Field) (obj : Task)
    → ((a : ℕ)
        → (contains a (notified_of field obj) && not (contains a (users_of field obj))) ≡ false)
    → ((a : ℕ) → contains a (to_notify rows field obj (notified_of field obj)) ≡ false)
    → notify_participants e rows field obj ≡ record { modified = false; obj = obj; notices = [] }
unfolding notify_participants
settled e rows field obj stays nobody =
    let none_removed =
      contains_none (filter (λ u. not (contains u (users_of field obj))) (notified_of field obj))
        (λ a. ground (
          arith,
          stays a,
          contains-filter a (λ u. not (contains u (users_of field obj))) (notified_of field obj),
        )) in
    let all_kept =
      filter_all (λ u. contains u (users_of field obj)) (notified_of field obj) stays in
    let nobody_left = contains_none (to_notify rows field obj (notified_of field obj)) nobody in
    rw none_removed (
      rw all_kept (
        rw nobody_left (
          rw (notices_for-none e field).0
            (rw (notices_for-none e field).1 (rw append-nil (rw (set-notified field obj) refl))))))

-- A second call right after the first changes nothing, reports no change and tells nobody; for the
-- call about the subscribers, where all of them have an address.
pub notify_participants-again :
    (has_email : ℕ → Bool) (rows : List Task) (field : Field) (obj : Task)
    → all (reaches has_email field) (users_of field obj) ≡ true
    → notify_participants has_email rows field (notify_participants has_email rows field obj).obj
      ≡ record {
        modified = false;
        obj = (notify_participants has_email rows field obj).obj;
        notices = [];
      }
notify_participants-again has_email rows field obj reachable =
    let obj' = (notify_participants has_email rows field obj).obj in
    settled has_email rows field obj'
      (λ a. ground (
        arith,
        (notify_participants_lem has_email rows field obj a).0,
        ap (contains a) (same_users has_email rows field obj),
      ))
      (λ a. ground (
        arith,
        contains-to_notify rows field obj' (notified_of field obj') a,
        (notify_participants_lem has_email rows field obj a).0,
        ap (contains a) (same_users has_email rows field obj),
        (same_tests has_email rows field obj a).0,
        (same_tests has_email rows field obj a).1,
        all-contains (reaches has_email field) a (users_of field obj) reachable,
      ))
