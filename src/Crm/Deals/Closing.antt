-- ===== src/Crm/Deals/Closing.antt =====
-- crm/site/dealadmin.py: what a save makes of a deal's closing, and of its payments.
use django_crm_marscode.Crm.Deals.Steps.{
  InOrder, fill_stage_lem, log_next_step-Alike, put_reason_lem, log_stage-Alike, pass_owner-Alike,
  is_dropped, set_boxes_lem, final_fields, leave_default_lem,
}
use mathlib.Core.Path.{subst}
use django_crm_marscode.Prelude.{
  ℕ, ◌≡◌, refl, sym, ap, ◌∙◌, Bool, true, false, not, ◌&&◌, ◌||◌, Option, none, some, List, arith,
  ◌==◌, if◌then◌else◌, is_some, filter,
}
use django_crm_marscode.Prelude.Options.{◌>>=◌}
use django_crm_marscode.Crm.Payments.{Payment, is_received}
use django_crm_marscode.Crm.Deals.{
  ClosingReason, Deal, Changed, SaveContext, fill_stage, log_next_step, set_closing_reason,
  log_stage, set_active, set_relevant, pass_owner, leave_default, see_new, set_owner, save_model,
  unreceived, save_related,
}

-- The steps of a save, one after the other.
run_steps :
    (o : Option Deal) (f g : Deal → Option Deal) (last : Deal → Deal) (d1 d3 d7 : Deal)
    → o ≡ some d1
    → f d1 ≡ some d3
    → g d3 ≡ some d7
    → (o >>= (λ d. f d >>= (λ d'. g d' >>= (λ d''. some (last d''))))) ≡ some (last d7)
run_steps o f g last d1 d3 d7 first second third = rw first (rw second (rw third refl))

-- The closing after the boxes have been read, from what the closing reason left.
boxes_closing :
    (changed : Changed) (d d' : Deal) (o : Option ClosingReason) (relevant : Bool) (today : ℕ)
    → d.active ≡ not (is_some o)
    → d.closing_date ≡ (if is_some o then some today else none)
    → d.relevant ≡ relevant
    → d'.active ≡ (d.active && not (is_dropped changed d))
    → d'.closing_date ≡ (
        if is_dropped changed d || (changed.active && not d.active)
        then some today
        else d.closing_date)
    → (d'.active ≡ (not (is_some o) && not (changed.relevant && not (relevant || changed.active))))
      × (d'.closing_date ≡ (if d'.active then none else some today))
boxes_closing changed d d' none relevant today a c p a' c' = (ground arith, ground arith)
boxes_closing changed d d' (some reason) relevant today a c p a' c' = (ground arith, ground arith)

-- Where the department has one default stage, one success stage and one success reason, a save with a
-- changed closing reason returns. The deal is then active if the reason was taken away and the deal
-- is not dropped by the box "Relevant" (which the box "Active" overrules), and inactive otherwise; it
-- has the day as its closing date if it is inactive, and none if it is active.
pub save_model_closing :
    (r : SaveContext) (changed : Changed) (change : Bool) (d : Deal)
    → InOrder r d.department
    → changed.closing_reason ≡ true
    → (d' : Deal) × (save_model r changed change d ≡ some d')
      × (d'.active ≡ (
          not (is_some d.closing_reason)
          && not (changed.relevant && not (d.relevant || changed.active))))
      × (d'.closing_date ≡ (if d'.active then none else some r.today))
      × (d'.closing_reason ≡ d.closing_reason)
      × (d'.ident ≡ d.ident)
unfolding save_model
save_model_closing r changed change d h given =
    let (d1, run1, a1) = fill_stage_lem r d h in
    let d2 = log_next_step r changed d1 in
    let a2 = log_next_step-Alike r changed d1 in
    let h2 = subst (InOrder r) (sym (a2.department ∙ a1.department)) h in
    let (d3, run3, c3) = put_reason_lem r d2.closing_reason d2 h2 in
    let d4 = log_stage r changed d3 in
    let a4 = log_stage-Alike r changed d3 in
    let d5 = set_relevant r changed (set_active r changed d4) in
    let (active5, date5, department5, reason5, ident5) = set_boxes_lem r changed d4 in
    let d6 = pass_owner changed d5 in
    let a6 = pass_owner-Alike changed d5 in
    let h6 =
      subst (InOrder r) (sym (a6.department ∙ department5 ∙ a4.department ∙ c3.department)) h2 in
    let (d7, run7, a7) = leave_default_lem r change d6 h6 in
    let (active8, date8, reason8, ident8) = final_fields r d7 in
    let closing = a2.closing_reason ∙ a1.closing_reason in
    let (active, date) =
      boxes_closing changed d4 (set_owner r (set_owner r (see_new r d7))) d.closing_reason
        d.relevant r.today (a4.active ∙ c3.active ∙ ap (λ o. not (is_some o)) closing)
        (a4.closing_date
          ∙ c3.closing_date
          ∙ ap (λ o. if is_some o then some r.today else none) closing)
        (a4.relevant ∙ c3.relevant ∙ a2.relevant ∙ a1.relevant)
        (active8 ∙ a7.active ∙ a6.active ∙ active5)
        (date8 ∙ a7.closing_date ∙ a6.closing_date ∙ date5) in
    (
      set_owner r (set_owner r (see_new r d7)),
      run_steps (fill_stage r d) (λ d'. set_closing_reason r changed (log_next_step r changed d'))
          (λ d'. leave_default r change (
            pass_owner changed
              (set_relevant r changed (set_active r changed (log_stage r changed d')))))
          (λ d'. set_owner r (set_owner r (see_new r d'))) d1 d3 d7 run1 (rw given run3) run7,
      active,
      date,
      reason8 ∙ a7.closing_reason ∙ a6.closing_reason ∙ reason5 ∙ a4.closing_reason
          ∙ c3.closing_reason ∙ closing,
      ident8 ∙ a7.ident ∙ a6.ident ∙ ident5 ∙ a4.ident ∙ c3.ident ∙ a2.ident ∙ a1.ident,
    )

-- The payments left by a save with a changed closing reason, and `none` where it raises an exception.
abbrev pub payments_by : Deal → Option ClosingReason → Bool → List Payment → Option (List Payment)
payments_by d none dropped payments = if dropped then none else some payments
payments_by d (some reason) dropped payments =
    some (if reason.success_reason then payments else filter (λ p. not (unreceived d p)) payments)

abbrev pub payments_after : Changed → Deal → List Payment → Option (List Payment)
payments_after changed d payments =
    payments_by d d.closing_reason (changed.relevant && not (d.relevant || changed.active)) payments

payments_by-ident :
    (d d' : Deal) (o : Option ClosingReason) (dropped : Bool) (payments : List Payment)
    → d'.ident ≡ d.ident
    → payments_by d' o dropped payments ≡ payments_by d o dropped payments
payments_by-ident d d' none dropped payments same = refl
payments_by-ident d d' (some reason) dropped payments same =
    ap
      (λ i. some (
        if reason.success_reason
        then payments
        else filter (λ p. not (p.deal == i && not (is_received p.status))) payments))
      same

save_related_lem :
    (changed : Changed) (d' : Deal) (o : Option ClosingReason) (dropped : Bool)
    (payments : List Payment)
    → changed.closing_reason ≡ true
    → d'.active ≡ (not (is_some o) && not dropped)
    → d'.closing_reason ≡ o
    → save_related changed d' payments ≡ payments_by d' o dropped payments
unfolding save_related
save_related_lem changed d' none true payments given active reason =
    rw given (rw active (rw reason refl))
save_related_lem changed d' none false payments given active reason = rw given (rw active refl)
save_related_lem changed d' (some c) dropped payments given active reason =
    rw given (rw active (rw reason refl))

-- The two steps of saving a deal with a changed closing reason, in a department with one default
-- stage, one success stage and one success reason. The payments of other deals, the received ones
-- and those of a deal that is closed as successful stay; the others go if the deal is closed by
-- another reason. Where the reason is taken away and the deal is dropped as not relevant, the second
-- step raises an exception.
pub save_model-save_related :
    (r : SaveContext) (changed : Changed) (change : Bool) (d : Deal) (payments : List Payment)
    → InOrder r d.department
    → changed.closing_reason ≡ true
    → (save_model r changed change d >>= (λ d'. save_related changed d' payments))
      ≡ payments_after changed d payments
save_model-save_related r changed change d payments h given =
    let (d', run, active, date, reason, same) = save_model_closing r changed change d h given in
    let dropped = changed.relevant && not (d.relevant || changed.active) in
    rw run (
      save_related_lem changed d' d.closing_reason dropped payments given active reason
      ∙ payments_by-ident d d' d.closing_reason dropped payments same)
