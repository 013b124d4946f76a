-- ===== src/Massmail/Sending/Pass.antt =====
-- massmail/utils/sendmassmail.py: one pass of the sending thread, `send_massmail`.
use django_crm_marscode.Prelude.{
  ℕ, ◌+◌, Bool, true, false, ◌&&◌, Option, none, some, List, [], ◌∷◌, ltb, if◌then◌else◌, opt_eq,
  filter,
}
use django_crm_marscode.Prelude.Exec.{Exec, ◌>>=◌, ◌>>◌, pure, gets, try_except, for_each}
use django_crm_marscode.Massmail.Accounts.{EmailAccount}
use django_crm_marscode.Massmail.MailingOut.{MailingOut, Status, active, active_but_error}
use django_crm_marscode.Massmail.Sending.Tables.{
  MassContact, Database, Delivery, World, emails_per_day,
}
use django_crm_marscode.Massmail.Sending.Objects.{set_mo, check_owners, Step, recipient_ids_of}
use django_crm_marscode.Massmail.Sending.Contacts.{fix_masscontacts, get_masscontact}
use django_crm_marscode.Massmail.Sending.Attempt.{drop_recipient, counter_increment, attempt}

-- The account as the pass sees it, or `none` where it has sent its number of the day.
unfoldable pub account_today : ℕ → EmailAccount → Option EmailAccount
account_today today ea =
    if opt_eq ea.today_date (some today)
    then (if ltb emails_per_day ea.today_count then none else some ea)
    else some (record ea { today_count = 0 })

abbrev pub count_when : World → EmailAccount → Bool → Step
count_when w ea true = counter_increment w ea
count_when w ea false = pure tt

-- The recipient is there, or is gone.
abbrev pub send_to : World → EmailAccount → MassContact → Bool → Delivery → Step
send_to w ea mc true d = attempt w ea mc d >>= count_when w ea
send_to w ea mc false d = drop_recipient mc

unfoldable pub send_one : World → EmailAccount → MassContact → Step
send_one w ea mc = do
  s ← gets (λ s. s)
  send_to w ea mc (w.has_object mc.kind mc.object_id) (w.deliver ea s.mo mc)

abbrev pub send_found : World → EmailAccount → Option MassContact → Step
send_found w ea none = pure tt
send_found w ea (some mc) = send_one w ea mc

abbrev pub use_account : World → List ℕ → Option EmailAccount → Step
use_account w ids none = pure tt
use_account w ids (some ea) = gets (λ s. get_masscontact s.mo ids ea s.db) >>= send_found w ea

-- The body of `for ea in email_accounts`
unfoldable pub serve_account : World → List ℕ → EmailAccount → Step
serve_account w ids ea = use_account w ids (account_today w.today ea)

abbrev pub accounts_of : MailingOut → List EmailAccount → List EmailAccount
accounts_of mo = filter (λ ea. opt_eq ea.owner mo.owner && ea.massmail)

abbrev pub serve_recipients : World → List ℕ → Step
serve_recipients w [] = pure tt
serve_recipients w (rid ∷ rids) = do
  fix_masscontacts w (rid ∷ rids)
  s ← gets (λ s. s)
  for_each (accounts_of s.mo s.db.accounts) (serve_account w (rid ∷ rids))

abbrev pub reset_day : ℕ → MailingOut → MailingOut
reset_day today mo =
    if opt_eq mo.sending_date (some today) then mo else record mo { today_count = 0 }

-- The body of `while mailing_outs`, on the mailing of the state.
unfoldable pub serve_mailing : World → Step
unfolding recipient_ids_of
serve_mailing w = do set_mo (reset_day w.today); ids ← recipient_ids_of w; serve_recipients w ids

abbrev pub is_sendable : Status → Bool
is_sendable active = true
is_sendable active_but_error = true
is_sendable _ = false

-- `while mailing_outs`: the queue of objects, each worked on in its turn.
unfoldable pub serve_all : World → List MailingOut → Exec Database (Unit {0})
serve_all w [] = pure tt
serve_all w (mo ∷ mos) =
    (λ db. let (r, s) = serve_mailing w (record { db = db; mo = mo }) in (r, s.db))
    >> serve_all w mos

-- `mail_admins(msg, …)` in the outer handler
abbrev pub tell_admins : Exec Database (Unit {0})
tell_admins db = (some tt, record db { admin_mails = db.admin_mails + 1 })

unfoldable pub send_massmail : World → Exec Database (Unit {0})
unfolding serve_all
send_massmail w =
    try_except
      (do
        mos ← gets (λ db. w.shuffle (filter (λ mo. is_sendable mo.status) db.mailings))
        serve_all w (check_owners mos))
      tell_admins
