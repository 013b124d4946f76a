-- ===== src/Massmail/Sending/Refused.antt =====
-- One account of a mailing in a pass, where the message cannot be sent.
use django_crm_marscode.Prelude.{
  ℕ, ◌+◌, ◌≡◌, refl, ◌∙◌, true, false, some, List, [], ◌∷◌, ◌++◌, contains,
}
use django_crm_marscode.Prelude.Exec.{◌>>=◌, exec}
use django_crm_marscode.Massmail.Accounts.{EmailAccount}
use django_crm_marscode.Massmail.MailingOut.{
  MailingOut, active_but_error, Line, failure, move_to_failed_ids,
}
use django_crm_marscode.Massmail.MailingOut.Transfer.{
  Recipients, Holds, tally, move_to_failed_ids_lem,
}
use django_crm_marscode.Massmail.Sending.Tables.{
  MassContact, Database, account_refused, broken, World,
}
use django_crm_marscode.Massmail.Sending.Objects.{set_mo, save_mailing, save_account, State}
use django_crm_marscode.Massmail.Sending.Attempt.{attempt, report_off, report_failure}
use django_crm_marscode.Massmail.Sending.Pass.{count_when, serve_account}
use django_crm_marscode.Massmail.Sending.Delivered.{Ready, serve_account-ready}

reported : Line → MailingOut → MailingOut
reported line mo = record mo { report = line ∷ mo.report; status = active_but_error }

off_db : EmailAccount → MailingOut → Database → Database
off_db ea mo db = record db {
  accounts = save_account (record ea { massmail = false }) db.accounts;
  mailings = save_mailing mo db.mailings;
  admin_mails = db.admin_mails + 1;
}

refused-step :
    (w : World) (ea : EmailAccount) (mc : MassContact) (s : State)
    → (attempt w ea mc account_refused >>= count_when w ea) s ≡ (
      some tt,
      record {
        db = off_db ea (reported (failure ea.ident mc.object_id true) s.mo) s.db;
        mo = reported (failure ea.ident mc.object_id true) s.mo;
      },
    )
unfolding attempt report_off exec set_mo reported off_db
refused-step w ea mc s = refl

broken-step :
    (w : World) (ea : EmailAccount) (mc : MassContact) (s : State) (mo' : MailingOut)
    → move_to_failed_ids mc.object_id (reported (failure ea.ident mc.object_id false) s.mo)
      ≡ (some tt, mo')
    → (attempt w ea mc broken >>= count_when w ea) s ≡ (
      some tt,
      record { db = record (s.db) { mailings = save_mailing mo' s.db.mailings }; mo = mo' },
    )
unfolding attempt report_failure exec set_mo reported
broken-step w ea mc s mo' moved = rw moved refl

-- An account that the mail server refuses is switched off and saved, the administrators get a mail,
-- the mailing is marked as failing and goes on with the same recipients, and nothing is sent or
-- counted.
pub serve_account-refused :
    (w : World) (ids : List ℕ) (ea ea' : EmailAccount) (mc : MassContact) (s : State)
    (r : Recipients)
    → Ready w ids ea ea' mc s
    → w.deliver ea' s.mo mc ≡ account_refused
    → Holds s.mo r
    → (s' : State) × (serve_account w ids ea s ≡ (some tt, s'))
      × (s'.db.accounts ≡ save_account (record ea' { massmail = false }) s.db.accounts)
      × (s'.db.admin_mails ≡ s.db.admin_mails + 1)
      × (s'.db.outbox ≡ s.db.outbox)
      × (s'.mo.status ≡ active_but_error)
      × (s'.mo.today_count ≡ s.mo.today_count)
      × Holds s'.mo r
unfolding off_db reported
serve_account-refused w ids ea ea' mc s r ready refused holds = (
  record {
    db = off_db ea' (reported (failure ea'.ident mc.object_id true) s.mo) s.db;
    mo = reported (failure ea'.ident mc.object_id true) s.mo;
  },
  serve_account-ready w ids ea ea' mc s ready ∙ rw refused (refused-step w ea' mc s),
  refl,
  refl,
  refl,
  refl,
  refl,
  record { pending = holds.pending; reached = holds.reached; failed = holds.failed },
)

-- A message that fails in another way moves the pending id of its recipient to the failed ids, and
-- loses no id; the mailing is marked as failing, nothing is sent or counted, and the accounts stay.
pub serve_account-broken :
    (w : World) (ids : List ℕ) (ea ea' : EmailAccount) (mc : MassContact) (s : State)
    (r : Recipients)
    → Ready w ids ea ea' mc s
    → w.deliver ea' s.mo mc ≡ broken
    → Holds s.mo r
    → contains mc.object_id r.pending ≡ true
    → (s' : State) × (r' : Recipients) × (serve_account w ids ea s ≡ (some tt, s'))
      × (s'.db.accounts ≡ s.db.accounts)
      × (s'.db.outbox ≡ s.db.outbox)
      × (s'.mo.status ≡ active_but_error)
      × (s'.mo.today_count ≡ s.mo.today_count)
      × Holds s'.mo r'
      × (r'.reached ≡ r.reached)
      × (r'.failed ≡ r.failed ++ (mc.object_id ∷ []))
      × ((a : ℕ) → tally a r' ≡ tally a r)
unfolding reported
serve_account-broken w ids ea ea' mc s r ready fails holds pending =
    let line : Line = failure ea'.ident mc.object_id false in
    let (mo', r', moved, holds', reached, failed, _, conserved, same) =
      move_to_failed_ids_lem (reported line s.mo) r mc.object_id
        (record { pending = holds.pending; reached = holds.reached; failed = holds.failed })
        pending in
    (
      record { db = record (s.db) { mailings = save_mailing mo' s.db.mailings }; mo = mo' },
      r',
      serve_account-ready w ids ea ea' mc s ready ∙ rw fails (broken-step w ea' mc s mo' moved),
      refl,
      refl,
      same.2,
      same.6,
      holds',
      reached,
      failed,
      conserved,
    )
