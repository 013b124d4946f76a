-- ===== src/Massmail/Sending/Attempt.antt =====
-- massmail/utils/sendmassmail.py: one message, and what follows from its outcome.
use django_crm_marscode.Prelude.{ℕ, zero, suc, ◌+◌, Bool, true, false, not, some, ◌∷◌, ◌==◌, filter}
use django_crm_marscode.Prelude.Exec.{Exec, ◌>>=◌, ◌>>◌, pure, raise, gets, try_except}
use django_crm_marscode.Massmail.Accounts.{EmailAccount}
use django_crm_marscode.Massmail.MailingOut.{
  MailingOut, active_but_error, Line, failure, remove_recipient_ids, move_to_successful_ids,
  move_to_failed_ids,
}
use django_crm_marscode.Massmail.Sending.Tables.{
  MassContact, Delivery, delivered, account_refused, broken, World, Sent, Database,
}
use django_crm_marscode.Massmail.Sending.Objects.{set_mo, State, Step, save_mo, save_ea, on_mo}

-- `mc.delete()`
abbrev pub delete_contact : MassContact → Step
delete_contact mc s = (
  some tt,
  record s {
    db = record (s.db) { contacts = filter (λ r. not (r.ident == mc.ident)) s.db.contacts };
  },
)

-- `mailing_out.recipients_number -= 1` and the save: the column holds no negative number.
abbrev pub one_recipient_less : ℕ → Step
one_recipient_less zero = raise
one_recipient_less (suc n) = set_mo (λ mo. record mo { recipients_number = n }) >> save_mo

-- `get_recipient(mailing_out, mc)` for a recipient that is gone.
unfoldable pub drop_recipient : MassContact → Step
drop_recipient mc = do
  on_mo (remove_recipient_ids mc.object_id)
  s ← gets (λ s. s)
  one_recipient_less s.mo.recipients_number
  delete_contact mc

abbrev pub put_line : Line → MailingOut → MailingOut
put_line line mo = record mo { report = line ∷ mo.report; status = active_but_error }

abbrev pub mail_to_admins : Step
mail_to_admins s = (some tt, record s { db = record (s.db) { admin_mails = s.db.admin_mails + 1 } })

-- `report(email_account, mailing_out, mc, now, error, off)`
unfoldable pub report_off : EmailAccount → MassContact → Step
report_off ea mc = do
  save_ea (record ea { massmail = false })
  set_mo (put_line (failure ea.ident mc.object_id true))
  save_mo
  mail_to_admins

unfoldable pub report_failure : EmailAccount → MassContact → Step
report_failure ea mc = do
  set_mo (put_line (failure ea.ident mc.object_id false))
  on_mo (move_to_failed_ids mc.object_id)
  save_mo

unfoldable pub counter_increment : World → EmailAccount → Step
counter_increment w ea = do
  save_ea (record ea { today_count = ea.today_count + 1; today_date = some w.today })
  set_mo (λ mo. record mo { today_count = mo.today_count + 1; sending_date = some w.today })
  save_mo

abbrev pub posted : Bool → Sent → Database → Database
posted true m db = db
posted false m db = record db { outbox = m ∷ db.outbox }

-- `msg.send()`, which the debug setting skips.
abbrev pub post : World → EmailAccount → MassContact → Step
post w ea mc s = (
  some tt,
  record s {
    db =
        posted w.debug
          (record { account = ea.ident; mailing = s.mo.ident; object_id = mc.object_id }) s.db;
  },
)

-- The `try` block and its handlers; `true` if the counters are to be incremented.
unfoldable pub attempt : World → EmailAccount → MassContact → Delivery → Exec State Bool
attempt w ea mc delivered =
    try_except (do post w ea mc; on_mo (move_to_successful_ids mc.object_id); save_mo; pure true)
      (report_failure ea mc >>= λ _. pure false)
attempt w ea mc account_refused = report_off ea mc >>= λ _. pure false
attempt w ea mc broken = report_failure ea mc >>= λ _. pure false
