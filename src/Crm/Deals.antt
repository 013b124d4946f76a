-- ===== src/Crm/Deals.antt =====
-- crm/models/deal.py and crm/site/dealadmin.py: a deal and what its form saves. `none` is an
-- exception, which `objects.get` raises unless one row fits.
pub mod Steps
pub mod Closing
use django_crm_marscode.Prelude.{
  ℕ, zero, suc, ◌+◌, ◌-◌, ◌*◌, ◌/◌, ◌%◌, ◌≤◌, ◌<◌, String, ◌≡◌, refl, sym, ap, ◌∙◌, ◌≢◌, ◌↔◌, ◌⊎◌,
  inl, inr, Bool, true, false, not, ◌&&◌, ◌||◌, Option, none, some, List, [], ◌∷◌, ◌++◌, map,
  append_assoc, append-nil, arith, ltb, leb, ◌==◌, if◌then◌else◌, opt_eq, is_some, ltb→lt, lt→ltb,
  leb→le, ==_iff, ==_self, Bool-cases, Option-cases, length, length-append, All, filter, find, any,
  all, contains, remove_first, count, count-append, contains-append, remove_first-contains,
  remove_first_missing, count-remove_first,
}
use django_crm_marscode.Crm.Persons.{Lead}
use django_crm_marscode.Prelude.Options.{◌>>=◌}
use django_crm_marscode.Crm.Payments.{Payment, is_received}

-- A row of crm's Stage.
pub record DealStage : Type 0 where
  pub ident : ℕ
  pub department : Option ℕ
  pub default : Bool
  pub second_default : Bool
  pub success_stage : Bool
  pub conditional_success_stage : Bool

pub record ClosingReason : Type 0 where
  pub ident : ℕ
  pub department : Option ℕ
  pub success_reason : Bool

-- `stages_dates` is the list of its lines, the latest last; `workflow` has the latest first.
pub record Deal : Type 0 where
  pub ident : ℕ
  pub request : Option ℕ
  pub ticket : ℕ
  pub contact : Option ℕ
  pub company : Option ℕ
  pub country : Option ℕ
  pub city : Option ℕ
  pub currency : Option ℕ
  pub co_owner : Option ℕ
  pub owner : Option ℕ
  pub department : Option ℕ
  pub modified_by : Option ℕ
  pub next_step : List ℕ
  pub workflow : List (List ℕ)
  pub stage : Option DealStage
  pub stages_dates : List (ℕ × Option ℕ)
  pub closing_reason : Option ClosingReason
  pub closing_date : Option ℕ
  pub win_closing_date : Option ℕ
  pub lead : Option Lead
  pub relevant : Bool
  pub active : Bool
  pub is_new : Bool

-- The fields in `form.changed_data`.
pub record Changed : Type 0 where
  pub next_step : Bool
  pub closing_reason : Bool
  pub stage : Bool
  pub active : Bool
  pub relevant : Bool
  pub owner : Bool

-- What a save reads besides the deal. `signature` is " (username)"; `truncatechars` is the template
-- filter of that name, and `department_of` is `get_department_id`.
pub record SaveContext : Type 0 where
  pub user : ℕ
  pub signature : List ℕ
  pub today : ℕ
  pub now : ℕ
  pub stages : List DealStage
  pub closing_reasons : List ClosingReason
  pub department_of : ℕ → Option ℕ
  pub truncatechars : List ℕ → ℕ → List ℕ

-- `objects.get(...)` on the rows that fit: DoesNotExist, the row, or MultipleObjectsReturned.
abbrev pub get_one : {A : Type 0} → List A → Option A
get_one [] = none
get_one (x ∷ []) = some x
get_one (x ∷ y ∷ rest) = none

abbrev pub stages_where : (DealStage → Bool) → Option ℕ → SaveContext → List DealStage
stages_where test department r = filter (λ s. test s && opt_eq s.department department) r.stages

abbrev pub get_default : Option ℕ → SaveContext → Option DealStage
get_default department r = get_one (stages_where (λ s. s.default) department r)

abbrev pub get_success_stage : Option ℕ → SaveContext → Option DealStage
get_success_stage department r = get_one (stages_where (λ s. s.success_stage) department r)

abbrev pub get_success_reason : Option ℕ → SaveContext → Option ClosingReason
get_success_reason department r =
    get_one (filter (λ c. c.success_reason && opt_eq c.department department) r.closing_reasons)

abbrev pub stage_key : Option DealStage → Option ℕ
stage_key none = none
stage_key (some s) = some s.ident

-- `Deal.change_stage_data`
unfoldable pub change_stage_data : ℕ → Deal → Deal
change_stage_data date d = record d {
  stages_dates = d.stages_dates ++ ((date, stage_key d.stage) ∷ []);
}

abbrev pub fill_with : Option DealStage → Option DealStage → Deal → Option Deal
fill_with (some s) first d = some d
fill_with none none d = none
fill_with none (some first) d = some (record d { stage = some first })

abbrev pub fill_stage : SaveContext → Deal → Option Deal
fill_stage r d = fill_with d.stage (get_default d.department r) d

-- The next step with the signature of a user who is not the owner, within 250 characters.
abbrev pub signed : SaveContext → List ℕ → List ℕ
signed r text =
    let excess = length (text ++ r.signature) - 250 in
    (if ltb 0 excess then r.truncatechars text (length text - excess) else text) ++ r.signature

abbrev pub log_next_step : SaveContext → Changed → Deal → Deal
log_next_step r changed d =
    if changed.next_step
    then (let text = (if opt_eq (some r.user) d.owner then d.next_step else signed r d.next_step) in
        record d { next_step = text; workflow = text ∷ d.workflow })
    else d

abbrev pub win : SaveContext → DealStage → Deal → Deal
win r s d = record (change_stage_data r.today (record d { stage = some s })) {
  win_closing_date = some r.now;
}

-- The deal that was closed by a reason, where `best` is the department's success reason.
abbrev pub close_with :
    SaveContext → ClosingReason → Option ClosingReason → Option DealStage → Deal → Option Deal
close_with r reason none success d = none
close_with r reason (some best) none d = if reason.ident == best.ident then none else some d
close_with r reason (some best) (some s) d =
    if reason.ident == best.ident then some (win r s d) else some d

abbrev pub reopened : Deal → Deal
reopened d = record d { active = true; closing_date = none }

abbrev pub put_reason : SaveContext → Option ClosingReason → Deal → Option Deal
put_reason r none d = some (reopened d)
put_reason r (some reason) d =
    close_with r reason (get_success_reason d.department r) (get_success_stage d.department r)
      (record d { active = false; closing_date = some r.today })

abbrev pub set_closing_reason : SaveContext → Changed → Deal → Option Deal
set_closing_reason r changed d =
    if changed.closing_reason then put_reason r d.closing_reason d else some d

-- `obj.stage in success_stages`
abbrev pub is_success : SaveContext → Deal → Bool
is_success r d = elim d.stage [
  | none ↦ false
  | some s ↦
      any (λ t. t.ident == s.ident)
        (stages_where (λ t. t.success_stage || t.conditional_success_stage) d.department r)
]

abbrev pub log_stage : SaveContext → Changed → Deal → Deal
log_stage r changed d =
    if changed.stage
    then (if is_success r d
        then record (change_stage_data r.today d) { win_closing_date = some r.now }
        else change_stage_data r.today d)
    else d

abbrev pub set_active : SaveContext → Changed → Deal → Deal
set_active r changed d =
    if changed.active
    then (if d.active
        then record d { relevant = true }
        else record d { closing_date = some r.today })
    else d

abbrev pub set_relevant : SaveContext → Changed → Deal → Deal
set_relevant r changed d =
    if changed.relevant && not d.relevant
    then record d { active = false; closing_date = some r.today }
    else d

abbrev pub owned_by : Option ℕ → Option Lead → Option Lead
owned_by owner none = none
owned_by owner (some l) = some (record l { owner = owner })

-- The lead is saved with the owner of the deal.
abbrev pub pass_owner : Changed → Deal → Deal
pass_owner changed d = if changed.owner then record d { lead = owned_by d.owner d.lead } else d

abbrev pub first_second_default : Option ℕ → SaveContext → Option DealStage
first_second_default department r =
    find (λ s. s.second_default && opt_eq s.department department) r.stages

abbrev pub next_stage : Option DealStage → Deal → Deal
next_stage none d = d
next_stage (some second) d = record d { stage = some second }

abbrev pub leave_stage : SaveContext → Option DealStage → Option DealStage → Deal → Option Deal
leave_stage r none first d = some d
leave_stage r (some s) none d = none
leave_stage r (some s) (some first) d =
    if s.ident == first.ident
    then some (next_stage (first_second_default d.department r) d)
    else some d

-- A deal that is saved again leaves the default stage.
abbrev pub leave_default : SaveContext → Bool → Deal → Option Deal
leave_default r change d =
    if change then leave_stage r d.stage (get_default d.department r) d else some d

abbrev pub see_new : SaveContext → Deal → Deal
see_new r d = if d.is_new && opt_eq d.owner (some r.user) then record d { is_new = false } else d

abbrev pub owner_or : Option ℕ → ℕ → ℕ
owner_or none user = user
owner_or (some o) user = o

-- `BaseModelAdmin.set_owner`, for a user who is logged in.
unfoldable pub set_owner : SaveContext → Deal → Deal
set_owner r d =
    let owner = owner_or d.owner r.user in
    let d' = record d { modified_by = some r.user; owner = some owner } in
    if is_some d.department then d' else record d' { department = r.department_of owner }

-- `DealAdmin.save_model`, up to the write.
unfoldable pub save_model : SaveContext → Changed → Bool → Deal → Option Deal
unfolding change_stage_data set_owner
save_model r changed change d = do
  d ← fill_stage r d
  d ← set_closing_reason r changed (log_next_step r changed d)
  d ←
      leave_default r change
        (pass_owner changed (set_relevant r changed (set_active r changed (log_stage r changed d))))
  some (set_owner r (set_owner r (see_new r d)))

-- The payments after `DealAdmin.save_related`: those not received go with an unsuccessful deal.
abbrev pub unreceived : Deal → Payment → Bool
unreceived d p = p.deal == d.ident && not (is_received p.status)

unfoldable pub save_related : Changed → Deal → List Payment → Option (List Payment)
save_related changed d payments =
    if changed.closing_reason && not d.active
    then elim d.closing_reason [
      | none ↦ none
      | some reason ↦
          some (
            if reason.success_reason then payments else filter (λ p. not (unreceived d p)) payments)
    ]
    else some payments
