-- ===== src/Tasks/MemoNotices.antt =====
-- tasks/site/memoadmin.py, `save_related`, and `send_review_notification` of tasks/models/memo.py:
-- who is told of a memo and of its review. The entry in the workflow of the memo's deal is left
-- out.
use django_crm_marscode.Prelude.{
  ℕ, ◌+◌, ◌≡◌, refl, ap, Bool, true, false, not, ◌&&◌, ◌||◌, Option, none, some, List, [], ◌∷◌,
  ◌++◌, append-nil, arith, ◌==◌, if◌then◌else◌, opt_eq, filter, all, contains, count,
  contains-append, contains_none, contains-filter,
}
use django_crm_marscode.Tasks.Memos.{Memo, is_reviewed}
use django_crm_marscode.Tasks.Notices.{Notice, message, email, notify_subscribers, email_all}
use django_crm_marscode.Tasks.Notices.Repeats.{
  messages, messages-append, messages-email_all, messages-notify_subscribers, all-contains,
}

-- Which fields stand in `form.changed_data`.
pub record Changed : Type 0 where
  pub stage : Bool
  pub subscribers : Bool
  pub draft : Bool

-- `send_review_notification`: a memo with no owner has None among the participants, and the call
-- raises an exception.
unfoldable pub send_review_notification : Memo → Option (List Notice)
send_review_notification memo = elim memo.owner [
  | none ↦ none
  | some owner ↦ some (email (owner ∷ memo.subscribers) ∷ [])
]

abbrev pub review_notices : Changed → Memo → Option (List Notice)
review_notices form memo =
    if form.stage && is_reviewed memo.stage then send_review_notification memo else some []

-- The message to the addressee, once, when the owner saves a memo that is no draft.
abbrev pub tells_addressee : ℕ → Memo → Bool
tells_addressee user memo = not memo.draft && (not memo.notified && opt_eq (some user) memo.owner)

abbrev pub addressee_notices : ℕ → Memo → List Notice
addressee_notices user memo =
    if tells_addressee user memo then message memo.to ∷ email (memo.to ∷ []) ∷ [] else []

abbrev pub waiting : Memo → List ℕ
waiting memo = filter (λ u. not (contains u memo.notified_subscribers)) memo.subscribers

-- The subscribers whom the save tells.
abbrev pub told_subscribers : Changed → Memo → List ℕ
told_subscribers form memo =
    if not memo.draft && (form.subscribers || form.draft) then waiting memo else []

abbrev saved : (ℕ → Bool) → ℕ → Changed → Memo → List Notice → Memo × List Notice
saved has_email user form memo review =
    let told = told_subscribers form memo in
    (
      record memo {
        notified = memo.notified || tells_addressee user memo;
        notified_subscribers = memo.notified_subscribers ++ filter has_email told;
      },
      review
          ++ (addressee_notices user memo
              ++ (notify_subscribers has_email told ++ email_all (filter has_email told))),
    )

-- The memo and the notices; `none` is an exception.
unfoldable pub save_related : (ℕ → Bool) → ℕ → Changed → Memo → Option (Memo × List Notice)
unfolding send_review_notification
save_related has_email user form memo = elim (review_notices form memo) [
  | none ↦ none
  | some review ↦ some (saved has_email user form memo review)
]

messages-addressee :
    (a user : ℕ) (memo : Memo)
    → messages a (addressee_notices user memo)
      ≡ (if tells_addressee user memo && a == memo.to then 1 else 0)
messages-addressee a user memo = ground arith

nobody_waits :
    (has_email : ℕ → Bool) (form : Changed) (memo : Memo)
    → all has_email memo.subscribers ≡ true
    → filter
        (λ u. not (contains u (memo.notified_subscribers ++ filter has_email (waiting memo))))
        memo.subscribers
      ≡ []
nobody_waits has_email form memo h = contains_none _ (λ a. ground (
  arith,
  contains-filter a
      (λ u. not (contains u (memo.notified_subscribers ++ filter has_email (waiting memo))))
      memo.subscribers,
  contains-append a memo.notified_subscribers (filter has_email (waiting memo)),
  contains-filter a has_email (waiting memo),
  contains-filter a (λ u. not (contains u memo.notified_subscribers)) memo.subscribers,
  all-contains has_email a memo.subscribers h,
))

quiet_save :
    (has_email : ℕ → Bool) (user : ℕ) (form : Changed) (memo : Memo)
    → form.stage ≡ false
    → tells_addressee user memo ≡ false
    → told_subscribers form memo ≡ []
    → save_related has_email user form memo ≡ some (memo, [])
unfolding save_related
quiet_save has_email user form memo same quiet nobody = rw same (
    rw quiet (
      rw nobody (
        rw append-nil
          (ap (λ n. some (record memo { notified = n }, [])) (or_false memo.notified)))))
  where
    or_false : (b : Bool) → (b || false) ≡ b
    or_false b = ground arith

pub save_related_lem :
    (has_email : ℕ → Bool) (user : ℕ) (form : Changed) (memo : Memo)
    → memo.draft ≡ false
    → opt_eq (some user) memo.owner ≡ true
    → form.stage ≡ false
    → form.subscribers ≡ true
    → all has_email memo.subscribers ≡ true
    → (memo' : Memo) × (notices : List Notice) × (save_related has_email user form memo
        ≡ some (memo', notices))
      × ((a : ℕ)
          → messages a notices
            ≡ (if not memo.notified && a == memo.to then 1 else 0) + count a (waiting memo))
      × (save_related has_email user form memo' ≡ some (memo', []))
unfolding save_related
save_related_lem has_email user form memo sent own same_stage new_subscribers reachable =
    let result = saved has_email user form memo [] in
    let told : told_subscribers form memo ≡ waiting memo = ground arith in
    (
      result.0,
      result.1,
      rw same_stage refl,
      λ a. rw told (
          ground (
            arith,
            messages-append a (addressee_notices user memo) (
                notify_subscribers has_email (waiting memo)
                ++ email_all (filter has_email (waiting memo))),
            messages-append a (notify_subscribers has_email (waiting memo))
                (email_all (filter has_email (waiting memo))),
            messages-notify_subscribers has_email a (waiting memo),
            messages-email_all a (filter has_email (waiting memo)),
            messages-addressee a user memo,
          )),
      quiet_save has_email user form result.0 same_stage (ground arith)
          (rw told (rw sent (rw new_subscribers (nobody_waits has_email form memo reachable)))),
    )
