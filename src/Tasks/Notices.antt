-- ===== src/Tasks/Notices.antt =====
-- tasks/site/tasksbasemodeladmin.py: who is told of a new task or project, and of its closing.
pub mod Repeats
use django_crm_marscode.Prelude.{
  ℕ, zero, suc, ◌+◌, ◌-◌, ◌*◌, ◌/◌, ◌%◌, ◌≤◌, ◌<◌, String, ◌≡◌, refl, sym, ap, ◌∙◌, ◌≢◌, ◌↔◌, ◌⊎◌,
  inl, inr, Bool, true, false, not, ◌&&◌, ◌||◌, Option, none, some, List, [], ◌∷◌, ◌++◌, map,
  append_assoc, append-nil, arith, ltb, leb, ◌==◌, if◌then◌else◌, opt_eq, is_some, ltb→lt, lt→ltb,
  leb→le, ==_iff, ==_self, Bool-cases, Option-cases, length, length-append, All, filter, find, any,
  all, contains, remove_first, count, count-append, contains-append, remove_first-contains,
  remove_first_missing, count-remove_first,
}
use django_crm_marscode.Tasks.Objects.{Kind, task, project, Task}

-- The fields of participants that `notify_participants` is called for.
pub data Field : Type 0 where
  responsible subscribers : Field

-- A message in the profile of a user (`save_message`), a call of `email_to_participants`, and the
-- call of `notify_admins_no_email`.
pub data Notice : Type 0 where
  message : ℕ → Notice
  email : List ℕ → Notice
  no_email : ℕ → Notice

-- A subtask of the same main task for which the user is responsible, with its box "Hide main task".
abbrev pub hides_main_task : List Task → ℕ → ℕ → Bool
hides_main_task rows main u =
    any (λ t. opt_eq t.parent (some main) && (t.hide_main_task && contains u t.responsible)) rows

abbrev pub is_hidden : List Task → Option ℕ → ℕ → Bool
is_hidden rows none u = false
is_hidden rows (some main) u = hides_main_task rows main u

unfoldable pub exclude_some_users : List Task → Task → List ℕ → List ℕ
exclude_some_users rows obj qs = filter (λ u. not (is_hidden rows obj.parent u)) qs

abbrev pub users_of : Field → Task → List ℕ
users_of responsible obj = obj.responsible
users_of subscribers obj = obj.subscribers

abbrev pub notified_of : Field → Task → List ℕ
notified_of responsible obj = obj.notified_responsible
notified_of subscribers obj = obj.notified_subscribers

abbrev pub set_notified : Field → List ℕ → Task → Task
set_notified responsible us obj = record obj { notified_responsible = us }
set_notified subscribers us obj = record obj { notified_subscribers = us }

-- `if field == "responsible": difference.exclude(id=obj.owner_id)`
abbrev pub exclude_owner : Field → Task → List ℕ → List ℕ
exclude_owner responsible obj us = filter (λ u. not (opt_eq (some u) obj.owner)) us
exclude_owner subscribers obj us = us

-- The loop over the users, with the notices, and with who is notified; `has_email` is whether the
-- user has an address.
abbrev pub notify_responsible : List ℕ → List Notice
notify_responsible [] = []
notify_responsible (u ∷ us) = message u ∷ email (u ∷ []) ∷ notify_responsible us

abbrev pub notify_subscribers : (ℕ → Bool) → List ℕ → List Notice
notify_subscribers has_email [] = []
notify_subscribers has_email (u ∷ us) =
    message u
    ∷ (if has_email u
        then notify_subscribers has_email us
        else no_email u ∷ notify_subscribers has_email us)

-- `if recipient_list: email_to_participants(...)`
abbrev pub email_all : List ℕ → List Notice
email_all [] = []
email_all (u ∷ us) = email (u ∷ us) ∷ []

abbrev pub notices_for : (ℕ → Bool) → Field → List ℕ → List Notice
notices_for has_email responsible us = notify_responsible us
notices_for has_email subscribers us =
    notify_subscribers has_email us ++ email_all (filter has_email us)

abbrev pub reached : (ℕ → Bool) → Field → List ℕ → List ℕ
reached has_email responsible us = us
reached has_email subscribers us = filter has_email us

abbrev pub is_empty : List ℕ → Bool
is_empty [] = true
is_empty (x ∷ xs) = false

-- The users whom the loop runs over, where `notified` is the set after the removal.
abbrev pub to_notify : List Task → Field → Task → List ℕ → List ℕ
to_notify rows field obj notified =
    exclude_some_users rows obj
      (exclude_owner field obj (filter (λ u. not (contains u notified)) (users_of field obj)))

-- The result: `obj_modified`, the object with its changed set, and the notices.
pub record Outcome : Type 0 where
  pub modified : Bool
  pub obj : Task
  pub notices : List Notice

unfoldable pub notify_participants : (ℕ → Bool) → List Task → Field → Task → Outcome
unfolding exclude_some_users
notify_participants has_email rows field obj =
    let removed = filter (λ u. not (contains u (users_of field obj))) (notified_of field obj) in
    let kept = filter (λ u. contains u (users_of field obj)) (notified_of field obj) in
    let difference = to_notify rows field obj kept in
    let notified = reached has_email field difference in
    record {
      modified = not (is_empty removed) || not (is_empty notified);
      obj = set_notified field (kept ++ notified) obj;
      notices = notices_for has_email field difference;
    }

-- `if obj.owner and obj.owner != request.user: users.append(obj.owner)`
abbrev pub other_than : ℕ → Option ℕ → List ℕ
other_than user none = []
other_than user (some o) = if o == user then [] else o ∷ []

unfoldable pub notify_task_or_project_closed : (ℕ → Bool) → List Task → ℕ → Task → List Notice
unfolding exclude_some_users
notify_task_or_project_closed has_email rows user obj =
    let users =
      exclude_some_users rows obj obj.subscribers
      ++ (other_than user obj.owner ++ other_than user obj.co_owner) in
    notify_subscribers has_email users ++ email_all (filter has_email users)
