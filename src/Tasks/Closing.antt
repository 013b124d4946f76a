-- ===== src/Tasks/Closing.antt =====
-- tasks/models/task.py: a main task is closed when all who are responsible for it have closed their
-- subtasks.
use django_crm_marscode.Prelude.{◌⊎◌, ==_iff, ==_self, contains-append}
use django_crm_marscode.Prelude.{
  ℕ, String, ◌≡◌, refl, sym, ap, ◌∙◌, inl, inr, Bool, true, false, not, ◌&&◌, ◌||◌, Option, none,
  some, List, [], ◌∷◌, ◌++◌, arith, ◌==◌, if◌then◌else◌, opt_eq, Bool-cases, All, filter, find, any,
  all, contains,
}
use django_crm_marscode.Tasks.Objects.{Stage, Task, add_to_workflow, save, store, clean}

abbrev by_ident : ℕ → List Task → Option Task
by_ident k = find (λ t. t.ident == k)

-- `Task.objects.filter(task=main_task)`
abbrev pub subtasks_of : Task → List Task → List Task
subtasks_of main = filter (λ t. opt_eq t.parent (some main.ident))

-- The users who are responsible for a done and closed subtask.
abbrev pub done_responsible : List Task → List ℕ
done_responsible [] = []
done_responsible (t ∷ ts) =
    if t.stage.done && not t.active
    then t.responsible ++ done_responsible ts
    else done_responsible ts

-- `set(a) == set(b)`
abbrev pub same_set : List ℕ → List ℕ → Bool
same_set xs ys = all (λ a. contains a ys) xs && all (λ a. contains a xs) ys

abbrev pub closing_msg : String
closing_msg = "The main task is closed automatically."

abbrev pub done_str : String
done_str = "Done"

abbrev pub is_due : Task → List Task → Bool
is_due main rows =
    (main.stage.default || main.stage.in_progress)
    && (not (any (λ t. t.active) (subtasks_of main rows))
        && same_set main.responsible (done_responsible (subtasks_of main rows)))

-- The main task before it is saved.
abbrev pub finished : ℕ → Stage → Task → Task
finished today stage main = record (add_to_workflow closing_msg (record main { stage = stage })) {
  next_step = done_str;
  next_step_date = some today;
  closing_date = some today;
}

-- `delta` is the date that `save` puts where there is none.
abbrev pub closed : ℕ → ℕ → Stage → Task → Task
closed today delta stage main = save delta (finished today stage main)

-- `main_task.stage.__class__.objects.filter(done=True).first()`; without such a stage the
-- assignment of None to the foreign key makes the write fail, which is `none` here.
abbrev close_main : ℕ → ℕ → Option Stage → Task → List Task → Option (List Task)
close_main today delta none main rows = none
close_main today delta (some stage) main rows = some (store (closed today delta stage main) rows)

-- `self.check_and_deacte_main_task()` of a subtask whose main task is `main`; the new table.
unfoldable pub check_and_deacte_main_task :
    ℕ → ℕ → List Stage → Task → List Task → Option (List Task)
unfolding save add_to_workflow
check_and_deacte_main_task today delta stages main rows =
    if is_due main rows
    then close_main today delta (find (λ s. s.done) stages) main rows
    else some rows

-- `copy_files_to_maintask`: the subtask's files that the main task does not have.
abbrev new_files : List ℕ → List ℕ → List ℕ
new_files main_files [] = []
new_files main_files (f ∷ fs) =
    if contains f main_files then new_files main_files fs else f ∷ new_files main_files fs

unfoldable pub copy_files_to_maintask : Task → Task → Task
copy_files_to_maintask subtask main = record main {
  files = main.files ++ new_files main.files subtask.files;
}

-- Every row is active as its stage is: what `save` establishes.
abbrev pub IsSynced : List Task → Type 0
IsSynced rows = All (λ t. t.active ≡ t.stage.active) rows

store-IsSynced :
    (t : Task) (rows : List Task)
    → t.active ≡ t.stage.active
    → IsSynced rows
    → IsSynced (store t rows)
store-IsSynced t [] e h = tt
store-IsSynced t (r ∷ rows) e h = elim (Bool-cases (r.ident == t.ident)) [
  | inl same ↦ rw same (e, store-IsSynced t rows e h.1)
  | inr other ↦ rw other (h.0, store-IsSynced t rows e h.1)
]

no_active_stage :
    (main : Task) (rows : List Task)
    → IsSynced rows
    → any (λ t. t.active) (subtasks_of main rows) ≡ false
    → any (λ r. opt_eq r.parent (some main.ident) && r.stage.active) rows ≡ false
no_active_stage main [] s h = refl
no_active_stage main (r ∷ rows) s h = ground (arith, s.0, no_active_stage main rows s.1)

any-store :
    (k : ℕ) (t : Task) (rows : List Task)
    → opt_eq t.parent (some k) ≡ false
    → any (λ r. opt_eq r.parent (some k) && r.stage.active) rows ≡ false
    → any (λ r. opt_eq r.parent (some k) && r.stage.active) (store t rows) ≡ false
any-store k t [] e h = refl
any-store k t (r ∷ rows) e h = ground (arith, any-store k t rows e)

pub save-active : (delta : ℕ) (t : Task) → (save delta t).active ≡ t.stage.active
unfolding save
save-active delta t = ground arith

pub save-stage : (delta : ℕ) (t : Task) → (save delta t).stage ≡ t.stage
unfolding save
save-stage delta t = ground arith

save-parent : (delta : ℕ) (t : Task) → (save delta t).parent ≡ t.parent
unfolding save
save-parent delta t = ground arith

save-closing_date : (delta : ℕ) (t : Task) → (save delta t).closing_date ≡ t.closing_date
unfolding save
save-closing_date delta t = ground arith

save-ident : (delta : ℕ) (t : Task) → (save delta t).ident ≡ t.ident
unfolding save
save-ident delta t = ground arith

-- The main task is open, none of its subtasks is active, and the users who are responsible for it are
-- exactly those who are for its done and closed subtasks.
pub record Due (main : Task) (rows : List Task) : Type 0 where
  pub is_open : (main.stage.default || main.stage.in_progress) ≡ true
  pub quiet : any (λ t. opt_eq t.parent (some main.ident) && t.active) rows ≡ false
  pub same :
      (a : ℕ)
      → contains a main.responsible
        ≡ any
            (λ t.
              opt_eq t.parent (some main.ident)
              && (t.stage.done && not t.active && contains a t.responsible))
            rows

contains-done_responsible :
    (a : ℕ) (main : Task) (rows : List Task)
    → contains a (done_responsible (subtasks_of main rows))
      ≡ any
          (λ t.
            opt_eq t.parent (some main.ident)
            && (t.stage.done && not t.active && contains a t.responsible))
          rows
contains-done_responsible a main [] = refl
contains-done_responsible a main (t ∷ rows) = ground (
  arith,
  contains-done_responsible a main rows,
  contains-append a t.responsible (done_responsible (subtasks_of main rows)),
)

any-subtasks_of :
    (main : Task) (rows : List Task)
    → any (λ t. t.active) (subtasks_of main rows)
      ≡ any (λ t. opt_eq t.parent (some main.ident) && t.active) rows
any-subtasks_of main [] = refl
any-subtasks_of main (t ∷ rows) = ground (arith, any-subtasks_of main rows)

all_contained :
    (a : ℕ) (xs ys : List ℕ)
    → all (λ x. contains x ys) xs ≡ true
    → contains a xs ≡ true
    → contains a ys ≡ true
all_contained a [] ys h e = ground arith
all_contained a (x ∷ xs) ys h e = elim (Bool-cases (a == x)) [
  | inl here ↦ ap (λ z. contains z ys) ((==_iff a x).0 here) ∙ ground arith
  | inr there ↦ all_contained a xs ys (ground arith) (ground arith)
]

all_contained-intro :
    (xs ys : List ℕ)
    → ((a : ℕ) → contains a xs ≡ true → contains a ys ≡ true)
    → all (λ x. contains x ys) xs ≡ true
all_contained-intro [] ys h = refl
all_contained-intro (x ∷ xs) ys h =
    let head : contains x ys ≡ true = h x (ground (arith, ==_self x)) in
    let tail = all_contained-intro xs ys (λ a e. h a (ground (arith, e))) in
    ground (arith, head, tail)

same_set-contains : (xs ys : List ℕ) (a : ℕ) → same_set xs ys ≡ true → contains a xs ≡ contains a ys
same_set-contains xs ys a h =
    let there = all_contained a xs ys (ground arith) in
    let back = all_contained a ys xs (ground arith) in ground (arith, there, back)

same_set-intro :
    (xs ys : List ℕ) → ((a : ℕ) → contains a xs ≡ contains a ys) → same_set xs ys ≡ true
same_set-intro xs ys h =
    let there = all_contained-intro xs ys (λ a e. sym (h a) ∙ e) in
    let back = all_contained-intro ys xs (λ a e. h a ∙ e) in ground (arith, there, back)

is_due-Due : (main : Task) (rows : List Task) → is_due main rows ≡ true → Due main rows
is_due-Due main rows h = record {
  is_open = ground arith;
  quiet = sym (any-subtasks_of main rows) ∙ ground arith;
  same = λ a.
      same_set-contains main.responsible (done_responsible (subtasks_of main rows)) a (ground arith)
      ∙ contains-done_responsible a main rows;
}

Due-is_due : (main : Task) (rows : List Task) → Due main rows → is_due main rows ≡ true
Due-is_due main rows d =
    let set =
      same_set-intro main.responsible (done_responsible (subtasks_of main rows))
        (λ a. d.same a ∙ sym (contains-done_responsible a main rows)) in
    ground (arith, d.is_open, d.quiet, any-subtasks_of main rows, set)

-- Where the table of stages has a done stage, and every row of tasks is active as its stage is, the
-- call returns. A main task that is at its default stage or in progress, has no active subtask, and
-- whose responsible users are exactly those of its done and closed subtasks, is saved at the first
-- done stage, with the day as its closing date, and every other row stays; for another main task the
-- table stays as it is. In both cases every row is still active as its stage is.
pub check_and_deacte_main_task_lem :
    (today delta : ℕ) (stages : List Stage) (stage : Stage) (main : Task) (rows : List Task)
    → find (λ s. s.done) stages ≡ some stage
    → IsSynced rows
    → (rows' : List Task) × (check_and_deacte_main_task today delta stages main rows ≡ some rows')
      × ((Due main rows
            × (rows' ≡ store (closed today delta stage main) rows)
            × ((closed today delta stage main).ident ≡ main.ident)
            × ((closed today delta stage main).stage ≡ stage)
            × ((closed today delta stage main).closing_date ≡ some today))
          ⊎ (¬ Due main rows × (rows' ≡ rows)))
      × IsSynced rows'
unfolding check_and_deacte_main_task add_to_workflow
check_and_deacte_main_task_lem today delta stages stage main rows first synced =
    elim (Bool-cases (is_due main rows)) [
      | inl due ↦ (
        store (closed today delta stage main) rows,
        rw due (rw first refl),
        inl (
          is_due-Due main rows due,
          refl,
          save-ident delta (finished today stage main),
          save-stage delta (finished today stage main),
          save-closing_date delta (finished today stage main),
        ),
        store-IsSynced (closed today delta stage main) rows
            (save-active delta (finished today stage main)
              ∙ ap (λ s. s.active) (sym (save-stage delta (finished today stage main))))
            synced,
      )
      | inr idle ↦
          (rows, rw idle refl, inr ((λ d. ground (arith, Due-is_due main rows d)), refl), synced)
    ]

-- An automatic closing never makes what a user may not do by hand: where rows are active as their
-- stages are, and the main task is not its own main task, `clean` accepts the main task as the
-- closing saves it, against the table after the closing.
pub closed-clean :
    (today delta : ℕ) (stage : Stage) (main : Task) (rows : List Task)
    → IsSynced rows
    → opt_eq main.parent (some main.ident) ≡ false
    → is_due main rows ≡ true
    → clean
        (some main.ident)
        (closed today delta stage main)
        (store (closed today delta stage main) rows)
      ≡ true
unfolding clean add_to_workflow
closed-clean today delta stage main rows synced other due =
    let quiet = no_active_stage main rows synced (ground arith) in
    let orphan = save-parent delta (finished today stage main) in
    ground
      (arith, any-store main.ident (closed today delta stage main) rows (rw orphan other) quiet)
