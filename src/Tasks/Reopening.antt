-- ===== src/Tasks/Reopening.antt =====
-- tasks/site/taskadmin.py, `save_related`: what saving a subtask writes into the row of its main
-- task.
use django_crm_marscode.Prelude.{◌∙◌}
use django_crm_marscode.Prelude.{
  ℕ, String, ◌≡◌, refl, ap, inl, inr, Bool, true, false, not, ◌&&◌, ◌||◌, Option, none, some, List,
  arith, if◌then◌else◌, Bool-cases, find,
}
use django_crm_marscode.Tasks.Objects.{Stage, Task, add_to_workflow, save}
use django_crm_marscode.Tasks.Closing.{save-active, save-stage}

-- What the form reports: whether the subtask existed, the changed fields, and the button
-- "Completed".
pub record Form : Type 0 where
  pub change : Bool
  pub stage_changed : Bool
  pub next_step_changed : Bool
  pub completed : Bool

-- A subtask in progress starts its main task, and an active one reopens it.
abbrev pub is_moved : Task → Task → Bool
is_moved obj main =
    main.stage.default && obj.stage.in_progress || (not main.stage.active && obj.stage.active)

-- The main task as the object that the code holds, and the fields that it will write.
pub record Update : Type 0 where
  pub main : Task
  pub workflow : Bool
  pub stage : Bool

abbrev log_created : Form → String → Update → Update
log_created form created u =
    if form.change then u else record u { main = add_to_workflow created u.main; workflow = true }

abbrev move_to : Option Stage → Update → Option Update
move_to none u = none
move_to (some stage) u = some (record u { main = record (u.main) { stage = stage }; stage = true })

-- `TaskStage.objects.filter(in_progress=True).first().id`: AttributeError without such a stage.
abbrev move_main : List Stage → Task → Update → Option Update
move_main stages obj u =
    if is_moved obj u.main then move_to (find (λ s. s.in_progress) stages) u else some u

-- `acquainted` is whether the next step of the subtask is the first one.
abbrev log_stage : Form → Bool → String → Update → Update
log_stage form acquainted entry u =
    if (form.completed || form.stage_changed) && (not form.next_step_changed || acquainted)
    then record u { main = add_to_workflow entry u.main; workflow = true }
    else u

-- `main_task.save(update_fields=...)`: the object's `save` computes all of its fields, and the row
-- gets those that are listed.
abbrev write : ℕ → Update → Task → Task × Task
write delta u row = (
  save delta u.main,
  record row {
    workflow = if u.workflow then (save delta u.main).workflow else row.workflow;
    stage = if u.stage then (save delta u.main).stage else row.stage;
  },
)

abbrev finish : ℕ → Form → Bool → String → Task → Option Update → Option (Task × Task)
finish delta form acquainted entry row none = none
finish delta form acquainted entry row (some u) =
    some (write delta (log_stage form acquainted entry u) row)

-- The object and the row afterwards. `created` and `entry` are the texts for the workflow, and
-- `row` is what the object was loaded from. With no field listed, the object is computed all the same.
unfoldable pub save_main_task :
    ℕ → List Stage → Form → Bool → String → String → Task → Task → Option (Task × Task)
unfolding add_to_workflow save
save_main_task delta stages form acquainted created entry obj row =
    finish delta form acquainted entry row (
      move_main stages obj
        (log_created form created (record { main = row; workflow = false; stage = false })))

log_stage_lem :
    (form : Form) (acquainted : Bool) (entry : String) (u : Update)
    → ((log_stage form acquainted entry u).stage ≡ u.stage)
      × ((log_stage form acquainted entry u).main.stage ≡ u.main.stage)
unfolding add_to_workflow
log_stage_lem form acquainted entry u = (ground arith, ground arith)

log_created_lem :
    (form : Form) (created : String) (row : Task)
    → ((log_created form created
          (record { main = row; workflow = false; stage = false })).main.stage
        ≡ row.stage)
      × ((log_created form created (record { main = row; workflow = false; stage = false })).stage
          ≡ false)
unfolding add_to_workflow
log_created_lem form created row = (ground arith, ground arith)

finish_lem :
    (delta : ℕ) (form : Form) (acquainted : Bool) (entry : String) (row : Task) (u : Update)
    → (main row' : Task) × (finish delta form acquainted entry row (some u) ≡ some (main, row'))
      × (row'.stage ≡ (if u.stage then u.main.stage else row.stage))
      × (row'.active ≡ row.active)
      × (main.active ≡ u.main.stage.active)
finish_lem delta form acquainted entry row u =
    let v = log_stage form acquainted entry u in
    let (flag, same) = log_stage_lem form acquainted entry u in
    (
      (write delta v row).0,
      (write delta v row).1,
      refl,
      ground (arith, flag, same, save-stage delta v.main),
      refl,
      ground (arith, ap (λ s. s.active) same, save-active delta v.main),
    )

-- Where there is a stage in progress, the call returns. The row of the main task then has the first
-- such stage if the subtask moves the main task, and its own stage if not. The row's mark "active"
-- stays what it was in both cases, also where the stage is now an active one. The object that the
-- code holds has the mark of its stage, also where no field is written.
pub save_main_task_lem :
    (delta : ℕ) (stages : List Stage) (form : Form) (acquainted : Bool) (created entry : String)
    (obj row : Task) (stage : Stage)
    → find (λ s. s.in_progress) stages ≡ some stage
    → (main row' : Task) × (save_main_task delta stages form acquainted created entry obj row
        ≡ some (main, row'))
      × (row'.stage ≡ (if is_moved obj row then stage else row.stage))
      × (row'.active ≡ row.active)
      × (main.active ≡ (if is_moved obj row then stage.active else row.stage.active))
unfolding save_main_task
save_main_task_lem delta stages form acquainted created entry obj row stage first =
    let u = log_created form created (record { main = row; workflow = false; stage = false }) in
    let (own, unmoved) = log_created_lem form created row in
    elim (Bool-cases (is_moved obj row)) [
      | inl moves ↦
          let v = record u { main = record (u.main) { stage = stage }; stage = true } in
          let (main, row', run, at_stage, mark, object) =
            finish_lem delta form acquainted entry row v in
          let steps : move_main stages obj u ≡ some v = rw own (rw moves (rw first refl)) in
          (main, row', rw steps run, rw moves at_stage, mark, rw moves object)
      | inr stays ↦
          let (main, row', run, at_stage, mark, object) =
            finish_lem delta form acquainted entry row u in
          let steps : move_main stages obj u ≡ some u = rw own (rw stays refl) in
          (
            main,
            row',
            rw steps run,
            rw stays (ground (arith, at_stage, unmoved)),
            mark,
            rw stays (object ∙ ap (λ s. s.active) own),
          )
    ]
