-- ===== src/Crm/Deals/Steps.antt =====
-- crm/site/dealadmin.py: what each step of saving a deal leaves of its closing.
use django_crm_marscode.Prelude.{
  ℕ, ◌≡◌, refl, inl, inr, Bool, true, false, not, ◌&&◌, ◌||◌, Option, none, some, arith, ◌==◌,
  if◌then◌else◌, is_some, Bool-cases,
}
use django_crm_marscode.Crm.Deals.{
  DealStage, ClosingReason, Deal, Changed, SaveContext, get_default, get_success_stage,
  get_success_reason, change_stage_data, fill_with, fill_stage, log_next_step, win, close_with,
  put_reason, log_stage, set_active, set_relevant, pass_owner, first_second_default, next_stage,
  leave_stage, leave_default, see_new, set_owner,
}

-- The department has one default stage, one success stage and one success reason.
pub record InOrder (r : SaveContext) (department : Option ℕ) : Type 0 where
  pub first : DealStage
  pub success : DealStage
  pub best : ClosingReason
  pub is_first : get_default department r ≡ some first
  pub is_success : get_success_stage department r ≡ some success
  pub is_best : get_success_reason department r ≡ some best

-- The fields that tell of the closing are the same.
pub record Alike (d d' : Deal) : Type 0 where
  pub ident : d'.ident ≡ d.ident
  pub active : d'.active ≡ d.active
  pub closing_date : d'.closing_date ≡ d.closing_date
  pub department : d'.department ≡ d.department
  pub closing_reason : d'.closing_reason ≡ d.closing_reason
  pub relevant : d'.relevant ≡ d.relevant

pub alike : (d : Deal) → Alike d d
alike d = record {
  ident = refl;
  active = refl;
  closing_date = refl;
  department = refl;
  closing_reason = refl;
  relevant = refl;
}

pub fill_with_lem :
    (o : Option DealStage) (first : DealStage) (d : Deal)
    → (d' : Deal) × (fill_with o (some first) d ≡ some d') × Alike d d'
fill_with_lem none first d = (
  record d { stage = some first },
  refl,
  record {
    ident = refl;
    active = refl;
    closing_date = refl;
    department = refl;
    closing_reason = refl;
    relevant = refl;
  },
)
fill_with_lem (some s) first d = (d, refl, alike d)

pub fill_stage_lem :
    (r : SaveContext) (d : Deal)
    → InOrder r d.department
    → (d' : Deal) × (fill_stage r d ≡ some d') × Alike d d'
fill_stage_lem r d h = rw h.is_first (fill_with_lem d.stage h.first d)

pub log_next_step-Alike :
    (r : SaveContext) (changed : Changed) (d : Deal) → Alike d (log_next_step r changed d)
log_next_step-Alike r changed d = elim (Bool-cases changed.next_step) [
  | inl given ↦ rw given (record {
    ident = refl;
    active = refl;
    closing_date = refl;
    department = refl;
    closing_reason = refl;
    relevant = refl;
  })
  | inr same ↦ rw same (alike d)
]

-- What the step for the closing reason makes of activity and closing date.
pub record Closed (today : ℕ) (o : Option ClosingReason) (d d' : Deal) : Type 0 where
  pub ident : d'.ident ≡ d.ident
  pub active : d'.active ≡ not (is_some o)
  pub closing_date : d'.closing_date ≡ (if is_some o then some today else none)
  pub department : d'.department ≡ d.department
  pub closing_reason : d'.closing_reason ≡ d.closing_reason
  pub relevant : d'.relevant ≡ d.relevant

pub close_with_lem :
    (r : SaveContext) (reason best : ClosingReason) (success : DealStage) (d : Deal)
    → (d' : Deal) × (close_with r reason (some best) (some success) d ≡ some d') × Alike d d'
unfolding change_stage_data
close_with_lem r reason best success d = elim (Bool-cases (reason.ident == best.ident)) [
  | inl won ↦ (
    win r success d,
    rw won refl,
    record {
      ident = refl;
      active = refl;
      closing_date = refl;
      department = refl;
      closing_reason = refl;
      relevant = refl;
    },
  )
  | inr lost ↦ (d, rw lost refl, alike d)
]

pub put_reason_lem :
    (r : SaveContext) (o : Option ClosingReason) (d : Deal)
    → InOrder r d.department
    → (d' : Deal) × (put_reason r o d ≡ some d') × Closed r.today o d d'
put_reason_lem r none d h = (
  record d { active = true; closing_date = none },
  refl,
  record {
    ident = refl;
    active = refl;
    closing_date = refl;
    department = refl;
    closing_reason = refl;
    relevant = refl;
  },
)
put_reason_lem r (some reason) d h =
    let (d', run, same) =
      close_with_lem r reason h.best h.success
        (record d { active = false; closing_date = some r.today }) in
    (
      d',
      rw h.is_best (rw h.is_success run),
      record {
        ident = same.ident;
        active = same.active;
        closing_date = same.closing_date;
        department = same.department;
        closing_reason = same.closing_reason;
        relevant = same.relevant;
      },
    )

pub leave_stage_lem :
    (r : SaveContext) (o : Option DealStage) (first : DealStage) (d : Deal)
    → (d' : Deal) × (leave_stage r o (some first) d ≡ some d') × Alike d d'
leave_stage_lem r none first d = (d, refl, alike d)
leave_stage_lem r (some s) first d = elim (Bool-cases (s.ident == first.ident)) [
  | inl default ↦ rw default (
    next_stage (first_second_default d.department r) d,
    refl,
    next_stage-Alike (first_second_default d.department r),
  )
  | inr later ↦ rw later (d, refl, alike d)
]
  where
    next_stage-Alike : (t : Option DealStage) → Alike d (next_stage t d)
    next_stage-Alike none = alike d
    next_stage-Alike (some t) = record {
      ident = refl;
      active = refl;
      closing_date = refl;
      department = refl;
      closing_reason = refl;
      relevant = refl;
    }

pub log_stage-Alike :
    (r : SaveContext) (changed : Changed) (d : Deal) → Alike d (log_stage r changed d)
unfolding change_stage_data
log_stage-Alike r changed d = record {
  ident = ground arith;
  active = ground arith;
  closing_date = ground arith;
  department = ground arith;
  closing_reason = ground arith;
  relevant = ground arith;
}

pub pass_owner-Alike : (changed : Changed) (d : Deal) → Alike d (pass_owner changed d)
pass_owner-Alike changed d = record {
  ident = ground arith;
  active = ground arith;
  closing_date = ground arith;
  department = ground arith;
  closing_reason = ground arith;
  relevant = ground arith;
}

-- Whether the deal is marked as no longer relevant, where the box "Active" makes it relevant again.
abbrev pub is_dropped : Changed → Deal → Bool
is_dropped changed d = changed.relevant && not (d.relevant || (changed.active && d.active))

-- The fields after the boxes "Active" and "Relevant" have been read.
pub set_boxes_lem :
    (r : SaveContext) (changed : Changed) (d : Deal)
    → ((set_relevant r changed (set_active r changed d)).active
        ≡ (d.active && not (is_dropped changed d)))
      × ((set_relevant r changed (set_active r changed d)).closing_date ≡ (
          if is_dropped changed d || (changed.active && not d.active)
          then some r.today
          else d.closing_date))
      × ((set_relevant r changed (set_active r changed d)).department ≡ d.department)
      × ((set_relevant r changed (set_active r changed d)).closing_reason ≡ d.closing_reason)
      × ((set_relevant r changed (set_active r changed d)).ident ≡ d.ident)
set_boxes_lem r changed d = (ground arith, ground arith, ground arith, ground arith, ground arith)

pub final_fields :
    (r : SaveContext) (d : Deal)
    → ((set_owner r (set_owner r (see_new r d))).active ≡ d.active)
      × ((set_owner r (set_owner r (see_new r d))).closing_date ≡ d.closing_date)
      × ((set_owner r (set_owner r (see_new r d))).closing_reason ≡ d.closing_reason)
      × ((set_owner r (set_owner r (see_new r d))).ident ≡ d.ident)
unfolding set_owner
final_fields r d = (ground arith, ground arith, ground arith, ground arith)

pub leave_default_lem :
    (r : SaveContext) (change : Bool) (d : Deal)
    → InOrder r d.department
    → (d' : Deal) × (leave_default r change d ≡ some d') × Alike d d'
leave_default_lem r true d h = rw h.is_first (leave_stage_lem r d.stage h.first d)
leave_default_lem r false d h = (d, refl, alike d)
