-- ===== src/Tasks/Permissions.antt =====
-- tasks/site/tasksbasemodeladmin.py: who may see, change and delete a task or a project.
use django_crm_marscode.Prelude.{
  ℕ, ◌≡◌, ◌⊎◌, inl, inr, Bool, true, false, ◌&&◌, ◌||◌, Option, none, some, List, [], ◌∷◌, arith,
  ◌==◌, opt_eq, Bool-cases, any, contains,
}
use django_crm_marscode.Common.Users.{User}
use django_crm_marscode.Tasks.Objects.{Kind, task, project, Task}

-- `request.user in (obj.owner, obj.co_owner)`
abbrev pub is_owner : User → Task → Bool
is_owner user obj = opt_eq (some user.ident) obj.owner || opt_eq (some user.ident) obj.co_owner

abbrev pub is_leader : User → Bool
is_leader user = user.is_chief || (user.is_task_operator || user.is_superuser)

-- `obj.responsible.count() == 1 and request.user == obj.responsible.first()`
abbrev pub only_responsible : ℕ → List ℕ → Bool
only_responsible u (r ∷ []) = u == r
only_responsible u _ = false

-- `base` is the answer of `super()`, which comes from the user's permissions on the model.
unfoldable pub has_change_permission : Bool → User → Option Task → Bool
has_change_permission base user none = base
has_change_permission base user (some obj) =
    base && (is_owner user obj || is_leader user || only_responsible user.ident obj.responsible)

unfoldable pub has_delete_permission : Bool → User → Option Task → Bool
has_delete_permission base user none = base
has_delete_permission base user (some obj) = base && (is_owner user obj || is_leader user)

-- `Q(responsible=request.user) | Q(subscribers=request.user)`
abbrev pub takes_part : User → Task → Bool
takes_part user t = contains user.ident t.responsible || contains user.ident t.subscribers

-- The rows of the first filter: the object, its subtasks, and its main task.
abbrev pub is_related : Task → Task → Bool
is_related obj r =
    r.ident == obj.ident || (opt_eq r.parent (some obj.ident) || opt_eq (some r.ident) obj.parent)

abbrev visible_rows : User → Task → List Task → Kind → Bool
visible_rows user obj rows task = any (λ r. is_related obj r && takes_part user r) rows
visible_rows user obj rows project = any (λ r. r.ident == obj.ident && takes_part user r) rows

-- `rows` is the table of the object's model.
unfoldable pub has_view_permission : Bool → List Task → User → Option Task → Bool
has_view_permission base rows user none = base
has_view_permission base rows user (some obj) =
    base && (is_owner user obj || is_leader user || visible_rows user obj rows obj.kind)

delete-change :
    (base : Bool) (user : User) (obj : Task)
    → has_delete_permission base user (some obj) ≡ true
    → has_change_permission base user (some obj) ≡ true
unfolding has_delete_permission has_change_permission
delete-change base user obj h = ground arith

only_responsible-contains :
    (u : ℕ) (rs : List ℕ) → only_responsible u rs ≡ true → contains u rs ≡ true
only_responsible-contains u [] h = cc
only_responsible-contains u (r ∷ []) h = ground arith
only_responsible-contains u (r ∷ s ∷ rs) h = cc

-- The table holds a row of the object's key with the same participants.
abbrev pub IsStored : Task → List Task → Type 0
IsStored obj [] = ⊥
IsStored obj (r ∷ rows) =
    ((r.ident ≡ obj.ident) × (r.responsible ≡ obj.responsible) × (r.subscribers ≡ obj.subscribers))
    ⊎ IsStored obj rows

visible_rows-participant :
    (user : User) (obj : Task) (rows : List Task) (k : Kind)
    → IsStored obj rows
    → takes_part user obj ≡ true
    → visible_rows user obj rows k ≡ true
visible_rows-participant user obj [] k s h = absurd s
visible_rows-participant user obj (r ∷ rows) task (inl s) h = ground (arith, s.0, s.1, s.2)
visible_rows-participant user obj (r ∷ rows) task (inr s) h =
    ground (arith, visible_rows-participant user obj rows task s h)
visible_rows-participant user obj (r ∷ rows) project (inl s) h = ground (arith, s.0, s.1, s.2)
visible_rows-participant user obj (r ∷ rows) project (inr s) h =
    ground (arith, visible_rows-participant user obj rows project s h)

change-view :
    (base : Bool) (rows : List Task) (user : User) (obj : Task)
    → IsStored obj rows
    → has_change_permission base user (some obj) ≡ true
    → has_view_permission base rows user (some obj) ≡ true
unfolding has_change_permission has_view_permission
change-view base rows user obj stored h =
    elim (Bool-cases (only_responsible user.ident obj.responsible)) [
      | inl only ↦ ground (
        arith,
        only_responsible-contains user.ident obj.responsible only,
        visible_rows-participant user obj rows obj.kind stored,
      )
      | inr other ↦ ground arith
    ]

-- With the same permissions on the model: whoever may delete a stored task or project may also
-- change it, and whoever may change it may also view it.
pub permissions_nested :
    (base : Bool) (rows : List Task) (user : User) (obj : Task)
    → IsStored obj rows
    → (has_delete_permission base user (some obj) ≡ (
        has_delete_permission base user (some obj) && has_change_permission base user (some obj)))
      × (has_change_permission base user (some obj) ≡ (
          has_change_permission base user (some obj)
          && has_view_permission base rows user (some obj)))
permissions_nested base rows user obj stored = (
  ground (arith, delete-change base user obj),
  ground (arith, change-view base rows user obj stored),
)
