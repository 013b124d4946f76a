-- ===== src/Tasks/Objects.antt =====
-- tasks/models: tasks, projects and their stages.
use django_crm_marscode.Prelude.{◌%◌, ◌≤◌, ◌<◌, arith}
use django_crm_marscode.Prelude.{
  ℕ, ◌+◌, ◌-◌, String, Bool, true, not, ◌&&◌, ◌||◌, Option, none, some, List, [], ◌∷◌, ◌==◌,
  if◌then◌else◌, opt_eq, is_some, any,
}

-- A row of TaskStage or ProjectStage.
pub record Stage : Type 0 where
  pub ident : ℕ
  pub default : Bool
  pub done : Bool
  pub in_progress : Bool
  pub active : Bool

pub data Kind : Type 0 where
  task project : Kind

-- A task or a project; `parent` is the foreign key `task` of a subtask, and none for a project.
pub record Task : Type 0 where
  pub ident : ℕ
  pub kind : Kind
  pub parent : Option ℕ
  pub stage : Stage
  pub hide_main_task : Bool
  pub owner : Option ℕ
  pub co_owner : Option ℕ
  pub responsible : List ℕ
  pub notified_responsible : List ℕ
  pub subscribers : List ℕ
  pub notified_subscribers : List ℕ
  pub next_step : String
  pub next_step_date : Option ℕ
  pub due_date : Option ℕ
  pub closing_date : Option ℕ
  pub workflow : List String
  pub active : Bool
  pub remind_me : Bool
  pub files : List ℕ
  pub lead_time : Option ℕ

-- `Base.add_to_workflow`, the date of the entry left out
unfoldable pub add_to_workflow : String → Task → Task
add_to_workflow msg t = record t { workflow = msg ∷ t.workflow }

abbrev lead_or : Option ℕ → ℕ
lead_or none = 0
lead_or (some minutes) = minutes

-- `Task.save` and `TaskBase.save`, up to the write: the task is active as its stage is, and has a
-- lead time and a date for its next step; `delta` is `get_delta_date(1)`.
unfoldable pub save : ℕ → Task → Task
save delta t =
    let t' = record t { active = t.stage.active; lead_time = some (lead_or t.lead_time) } in
    if is_some t.next_step_date then t' else record t' { next_step_date = some delta }

-- The write of the row.
abbrev pub store : Task → List Task → List Task
store t [] = []
store t (r ∷ rows) = (if r.ident == t.ident then t else r) ∷ store t rows

-- `Task.clean`: a main task with an active subtask is not closed; false is ValidationError. The new
-- task, which has no key yet, is `none`.
unfoldable pub clean : Option ℕ → Task → List Task → Bool
clean none t rows = true
clean (some self_id) t rows =
    is_some t.parent
    || (t.stage.active || not (any (λ r. opt_eq r.parent (some self_id) && r.stage.active) rows))

-- common/utils/helpers.py, `get_delta_date`; `weekday` is that of `today`.
unfoldable pub get_delta_date : ℕ → ℕ → ℕ → ℕ
get_delta_date today weekday delta =
    if weekday == 4 || weekday == 5 then today + (delta + 6 - weekday) else today + delta

-- The date that a task gets for its next step is a later day and never a Saturday or Sunday (days 5
-- and 6 of the week).
pub get_delta_date_lem :
    (today weekday : ℕ)
    → weekday < 7
    → (today < get_delta_date today weekday 1)
      × ((weekday + (get_delta_date today weekday 1 - today)) % 7 ≤ 4)
unfolding get_delta_date
get_delta_date_lem today weekday h = (ground arith, ground arith)
