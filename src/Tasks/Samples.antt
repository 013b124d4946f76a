-- ===== src/Tasks/Samples.antt =====
-- Concrete tasks and memos, and each theorem about them at one input.
use django_crm_marscode.Prelude.{}
use django_crm_marscode.Prelude.Exec.{}
use django_crm_marscode.Prelude.{◌⊎◌}
use django_crm_marscode.Prelude.{ℕ, ◌≡◌, refl, Bool, true, false, Option, none, some, List, [], ◌∷◌}
use django_crm_marscode.Common.Users.{User}
use django_crm_marscode.Tasks.Objects.{Stage, task, Task, store, clean}
use django_crm_marscode.Tasks.Memos.{Memo, MemoStage}
use django_crm_marscode.Tasks.Reopening.{Form, save_main_task, save_main_task_lem}
use django_crm_marscode.Tasks.MemoNotices.{Changed}
use django_crm_marscode.Tasks.Closing.{
  Due, closed, check_and_deacte_main_task, check_and_deacte_main_task_lem, closed-clean, IsSynced,
}
use django_crm_marscode.Tasks.Notices.{responsible, subscribers, notify_participants}
use django_crm_marscode.Tasks.Notices.Repeats.{notify_participants-again}

abbrev user_of : ℕ → User
user_of n = record {
  ident = n;
  is_superuser = false;
  is_superoperator = false;
  is_operator = false;
  is_chief = false;
  is_manager = true;
  is_accountant = false;
  is_task_operator = false;
  is_department_head = false;
  department_id = some 7;
}

abbrev in_progress_stage : Stage
in_progress_stage = record {
  ident = 2;
  default = false;
  done = false;
  in_progress = true;
  active = true;
}

abbrev done_stage : Stage
done_stage = record { ident = 3; default = false; done = true; in_progress = false; active = false }

abbrev task_of : ℕ → Option ℕ → Stage → List ℕ → Task
task_of n parent stage users = record {
  ident = n;
  kind = task;
  parent = parent;
  stage = stage;
  hide_main_task = false;
  owner = some 1;
  co_owner = none;
  responsible = users;
  notified_responsible = [];
  subscribers = 3 ∷ [];
  notified_subscribers = [];
  next_step = "Acquainted with the task";
  next_step_date = none;
  due_date = none;
  closing_date = none;
  workflow = [];
  active = stage.active;
  remind_me = false;
  files = [];
  lead_time = none;
}

-- A main task for two users, who have closed their subtasks.
abbrev main_task : Task
main_task = task_of 10 none in_progress_stage (4 ∷ 5 ∷ [])

abbrev rows : List Task
rows =
    main_task
    ∷ task_of 11 (some 10) done_stage (4 ∷ [])
    ∷ task_of 12 (some 10) done_stage (5 ∷ [])
    ∷ []

check_and_deacte_main_task_lem_example :
    (rows' : List Task) × (check_and_deacte_main_task 100 101 (done_stage ∷ []) main_task rows
      ≡ some rows')
    × ((Due main_task rows
          × (rows' ≡ store (closed 100 101 done_stage main_task) rows)
          × ((closed 100 101 done_stage main_task).ident ≡ 10)
          × ((closed 100 101 done_stage main_task).stage ≡ done_stage)
          × ((closed 100 101 done_stage main_task).closing_date ≡ some 100))
        ⊎ (¬ Due main_task rows × (rows' ≡ rows)))
    × IsSynced rows'
check_and_deacte_main_task_lem_example =
    check_and_deacte_main_task_lem 100 101 (done_stage ∷ []) done_stage main_task rows refl
      (refl, (refl, (refl, tt)))

closed-clean_example :
    clean
      (some 10)
      (closed 100 101 done_stage main_task)
      (store (closed 100 101 done_stage main_task) rows)
    ≡ true
closed-clean_example =
    closed-clean 100 101 done_stage main_task rows (refl, (refl, (refl, tt))) refl refl

notify_participants-again_example :
    notify_participants
      (λ u. true)
      rows
      subscribers
      (notify_participants (λ u. true) rows subscribers main_task).obj
    ≡ record {
      modified = false;
      obj = (notify_participants (λ u. true) rows subscribers main_task).obj;
      notices = [];
    }
notify_participants-again_example =
    notify_participants-again (λ u. true) rows subscribers main_task refl

abbrev memo_of : Bool → MemoStage → Memo
memo_of draft stage = record {
  ident = 20;
  owner = some 1;
  to = 2;
  draft = draft;
  notified = false;
  stage = stage;
  review_date = none;
  task = none;
  project = none;
  note = [];
  subscribers = 3 ∷ [];
  notified_subscribers = [];
}

-- A closed main task, and an active subtask of it.
abbrev closed_main : Task
closed_main = task_of 10 none done_stage (4 ∷ [])

abbrev subtask : Task
subtask = task_of 11 (some 10) in_progress_stage (4 ∷ [])

abbrev unchanged_form : Form
unchanged_form = record {
  change = true;
  stage_changed = false;
  next_step_changed = false;
  completed = false;
}

save_main_task_lem_example :
    (main row' : Task) × (save_main_task 101
        (in_progress_stage ∷ [])
        unchanged_form
        false
        ""
        ""
        subtask
        closed_main
      ≡ some (main, row'))
    × (row'.stage ≡ in_progress_stage)
    × (row'.active ≡ false)
    × (main.active ≡ true)
save_main_task_lem_example =
    save_main_task_lem 101 (in_progress_stage ∷ []) unchanged_form false "" "" subtask closed_main
      in_progress_stage refl

abbrev new_subscriber : Changed
new_subscriber = record { stage = false; subscribers = true; draft = false }
