-- ===== src/Tasks/Memos.antt =====
-- tasks/models/memo.py and tasks/site/memoadmin.py: office memos, who may list, view and change
-- them, and their review.
use django_crm_marscode.Prelude.{
  ℕ, ◌+◌, String, ◌≡◌, refl, Bool, true, false, not, ◌&&◌, ◌||◌, Option, none, some, List, [], ◌∷◌,
  arith, ◌==◌, if◌then◌else◌, opt_eq, is_some, contains,
}
use django_crm_marscode.Common.Users.{User}
use django_crm_marscode.Tasks.Objects.{Kind, task, project, Task}

pub data MemoStage : Type 0 where
  pending postponed reviewed : MemoStage

abbrev pub is_reviewed : MemoStage → Bool
is_reviewed reviewed = true
is_reviewed _ = false

pub record Memo : Type 0 where
  pub ident : ℕ
  pub owner : Option ℕ
  pub to : ℕ
  pub draft : Bool
  pub notified : Bool
  pub stage : MemoStage
  pub review_date : Option ℕ
  pub task : Option ℕ
  pub project : Option ℕ
  pub note : List String
  pub subscribers : List ℕ
  pub notified_subscribers : List ℕ

abbrev is_leader : User → Bool
is_leader user = user.is_superuser || (user.is_chief || user.is_task_operator)

abbrev owns : User → Memo → Bool
owns user memo = opt_eq (some user.ident) memo.owner

-- Whether the rows of `get_queryset` hold the memo.
unfoldable pub in_queryset : User → Memo → Bool
in_queryset user memo =
    user.is_superuser
    || (if user.is_chief || user.is_task_operator
        then not (memo.draft && not (owns user memo))
        else memo.to == user.ident && not memo.draft
          || (owns user memo || contains user.ident memo.subscribers))

unfoldable pub has_change_permission : Bool → User → Option Memo → Bool
has_change_permission base user none = base
has_change_permission base user (some memo) =
    base
    && (if is_leader user
        then true
        else if owns user memo
        then not (is_reviewed memo.stage)
        else true)

unfoldable pub has_delete_permission : Bool → User → Option Memo → Bool
unfolding has_change_permission
has_delete_permission base user none = base
has_delete_permission base user (some memo) = base && has_change_permission base user (some memo)

-- `request.user in (obj.owner, obj.to, obj.subscribers.all())`: the third item of the tuple is a
-- set of users, which equals no user.
abbrev among : User → Memo → Bool
among user memo = owns user memo || user.ident == memo.to

unfoldable pub has_view_permission : Bool → User → Option Memo → Bool
has_view_permission base user none = base
has_view_permission base user (some memo) =
    base
    && (if memo.draft
        then owns user memo
        else among user memo || (user.is_chief || (user.is_task_operator || user.is_superuser)))

-- What the form of a memo reports.
pub record MemoForm : Type 0 where
  pub stage_changed : Bool
  pub creates_task : Bool

-- `MemoAdmin.save_model`, up to the write; `today` is the day of the list's last query.
unfoldable pub save_model : ℕ → MemoForm → Memo → Memo
save_model today form memo =
    if form.stage_changed && is_reviewed memo.stage
    then (if form.creates_task
        then record memo { stage = postponed }
        else if is_some memo.review_date
        then memo
        else record memo { review_date = some today })
    else memo

abbrev made_str : Kind → String
made_str task = "The task was created"
made_str project = "The Project was created"

abbrev linked : Task → Memo → Memo
linked obj memo = elim obj.kind [
  | task ↦ record memo { task = some obj.ident }
  | project ↦ record memo { project = some obj.ident }
]

-- tasks/site/tasksbasemodeladmin.py, the end of `save_model`: a task or project made from a memo
-- has the memo reviewed. The second part is whether `send_review_notification` is called. `note` is
-- the note of the new object.
unfoldable pub review_parent_memo : ℕ → Task → List String → Memo → Memo × Bool
review_parent_memo today obj note memo = if is_reviewed memo.stage then (memo, false) else (
  record (linked obj memo) {
    stage = reviewed;
    note = made_str obj.kind ∷ note;
    review_date = some today;
  },
  true,
)

-- A subscriber, who is neither the memo's owner, its addressee nor a leader, has a sent memo in the
-- list of memos and may not view it.
pub subscriber_may_not_view :
    (base : Bool) (user : User) (memo : Memo)
    → is_leader user ≡ false
    → owns user memo ≡ false
    → (memo.to == user.ident) ≡ false
    → contains user.ident memo.subscribers ≡ true
    → (in_queryset user memo ≡ true) × (has_view_permission base user (some memo) ≡ false)
unfolding in_queryset has_view_permission
subscriber_may_not_view base user memo leader owner addressee subscribed =
    (ground arith, ground arith)

-- The draft of another user's memo stands in the list of a superuser, and of a subscriber who is no
-- chief and no task operator, and of nobody else; and nobody but its owner may view a draft.
pub drafts_hidden :
    (base : Bool) (user : User) (memo : Memo)
    → memo.draft ≡ true
    → owns user memo ≡ false
    → (in_queryset user memo ≡ (
        user.is_superuser
        || (not (user.is_chief || user.is_task_operator) && contains user.ident memo.subscribers)))
      × (has_view_permission base user (some memo) ≡ false)
unfolding in_queryset has_view_permission
drafts_hidden base user memo draft owner = (ground arith, ground arith)

-- After its review a memo is changed and deleted by leaders and by users other than its owner,
-- where the model's permission is given, and not by its owner.
pub reviewed_frozen :
    (base : Bool) (user : User) (memo : Memo)
    → memo.stage ≡ reviewed
    → (has_change_permission base user (some memo)
        ≡ (base && (is_leader user || not (owns user memo))))
      × (has_delete_permission base user (some memo)
          ≡ (base && (is_leader user || not (owns user memo))))
unfolding has_change_permission has_delete_permission
reviewed_frozen base user memo h = (ground arith, ground arith)

-- The objects made one after the other from one memo.
abbrev pub review_all : ℕ → List Task → Memo → Memo × ℕ
review_all today [] memo = (memo, 0)
review_all today (obj ∷ objs) memo =
    let (memo', sent) = review_parent_memo today obj [] memo in
    let (memo'', more) = review_all today objs memo' in (memo'', (if sent then 1 else 0) + more)

reviewed_once :
    (today : ℕ) (objs : List Task) (memo : Memo)
    → memo.stage ≡ reviewed
    → review_all today objs memo ≡ (memo, 0)
unfolding review_parent_memo
reviewed_once today [] memo h = refl
reviewed_once today (obj ∷ objs) memo h = ground (arith, reviewed_once today objs memo h)

-- However many tasks and projects are made from an unreviewed memo, the first of them reviews it,
-- and one notification of the review is sent: the memo stays as the first one left it.
pub review_all_lem :
    (today : ℕ) (obj : Task) (objs : List Task) (memo : Memo)
    → is_reviewed memo.stage ≡ false
    → review_all today (obj ∷ objs) memo ≡ ((review_parent_memo today obj [] memo).0, 1)
unfolding review_parent_memo
review_all_lem today obj objs memo h = rw h (
    rw
      (reviewed_once today objs
        (record (linked obj memo) {
          stage = reviewed;
          note = made_str obj.kind ∷ [];
          review_date = some today;
        })
        refl)
      refl)
