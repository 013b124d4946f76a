-- ===== src/Massmail/Sending/Delivered.antt =====
-- One account of a mailing in a pass: what a message that the server takes leaves behind, and what
-- a refusal does.
use django_crm_marscode.Prelude.{
  ℕ, ◌+◌, ◌≡◌, refl, ap, ◌∙◌, Bool, true, false, some, List, [], ◌∷◌, ◌++◌, if◌then◌else◌, contains,
}
use django_crm_marscode.Prelude.Exec.{◌>>=◌, gets, exec}
use django_crm_marscode.Massmail.Accounts.{EmailAccount}
use django_crm_marscode.Massmail.MailingOut.{MailingOut, move_to_successful_ids}
use django_crm_marscode.Massmail.MailingOut.Transfer.{
  Recipients, Holds, tally, move_to_successful_ids_lem,
}
use django_crm_marscode.Massmail.Sending.Tables.{MassContact, Sent, Database, delivered, World}
use django_crm_marscode.Massmail.Sending.Objects.{set_mo, save_mailing, save_account, State}
use django_crm_marscode.Massmail.Sending.Contacts.{get_masscontact}
use django_crm_marscode.Massmail.Sending.Attempt.{posted, attempt, counter_increment}
use django_crm_marscode.Massmail.Sending.Pass.{count_when, account_today, serve_account, send_one}

-- The account has a message to send: it is below its number of the day, it has a contact among the
-- recipients, and the recipient exists.
pub record Ready (w : World) (ids : List ℕ) (ea ea' : EmailAccount) (mc : MassContact) (s : State)
    : Type 0 where
  pub below : account_today w.today ea ≡ some ea'
  pub chosen : get_masscontact s.mo ids ea' s.db ≡ some mc
  pub exists : w.has_object mc.kind mc.object_id ≡ true

counted : ℕ → EmailAccount → EmailAccount
counted today ea = record ea { today_count = ea.today_count + 1; today_date = some today }

-- The database after the message is sent and the mailing `mo'` is saved.
after_sending : World → EmailAccount → MassContact → State → MailingOut → Database
after_sending w ea mc s mo' =
    let db =
      posted w.debug (record { account = ea.ident; mailing = s.mo.ident; object_id = mc.object_id })
        s.db in
    record db { mailings = save_mailing mo' db.mailings }

attempt-delivered :
    (w : World) (ea : EmailAccount) (mc : MassContact) (s : State) (mo' : MailingOut)
    → move_to_successful_ids mc.object_id s.mo ≡ (some tt, mo')
    → attempt w ea mc delivered s
      ≡ (some true, record { db = after_sending w ea mc s mo'; mo = mo' })
unfolding attempt exec after_sending
attempt-delivered w ea mc s mo' moved = rw moved refl

counted_mo : ℕ → MailingOut → MailingOut
counted_mo today mo = record mo { today_count = mo.today_count + 1; sending_date = some today }

counted_db : ℕ → EmailAccount → MailingOut → Database → Database
counted_db today ea mo db = record db {
  accounts = save_account (counted today ea) db.accounts;
  mailings = save_mailing (counted_mo today mo) db.mailings;
}

counter_increment_lem :
    (w : World) (ea : EmailAccount) (s : State)
    → counter_increment w ea s
      ≡ (some tt, record { db = counted_db w.today ea s.mo s.db; mo = counted_mo w.today s.mo })
unfolding counter_increment exec set_mo counted_db counted_mo counted
counter_increment_lem w ea s = refl

pub serve_account-ready :
    (w : World) (ids : List ℕ) (ea ea' : EmailAccount) (mc : MassContact) (s : State)
    → Ready w ids ea ea' mc s
    → serve_account w ids ea s ≡ (attempt w ea' mc (w.deliver ea' s.mo mc) >>= count_when w ea') s
unfolding serve_account send_one gets ◌>>=◌
serve_account-ready w ids ea ea' mc s ready =
    rw ready.below (rw ready.chosen (rw ready.exists refl))

sent_and_counted :
    (w : World) (ea : EmailAccount) (mc : MassContact) (s : State) (mo' : MailingOut)
    → move_to_successful_ids mc.object_id s.mo ≡ (some tt, mo')
    → (attempt w ea mc delivered >>= count_when w ea) s ≡ (
      some tt,
      record {
        db = counted_db w.today ea mo' (after_sending w ea mc s mo');
        mo = counted_mo w.today mo';
      },
    )
unfolding ◌>>=◌
sent_and_counted w ea mc s mo' moved =
    rw (attempt-delivered w ea mc s mo' moved) (counter_increment_lem w ea _)

outbox-posted :
    (b : Bool) (m : Sent) (db : Database)
    → (posted b m db).outbox ≡ (if b then db.outbox else m ∷ db.outbox)
outbox-posted true m db = refl
outbox-posted false m db = refl

accounts-posted : (b : Bool) (m : Sent) (db : Database) → (posted b m db).accounts ≡ db.accounts
accounts-posted true m db = refl
accounts-posted false m db = refl

-- An account that is below its number of the day, with a contact whose recipient exists and has its
-- id pending in the mailing, where the mail server takes the message: it sends one message. Unless the
-- debug setting keeps it back, the message stands in the outbox; the id goes from the pending to the reached ids, and no id is lost; the account and the
-- mailing each count one message more, on the day of the pass, and the account is saved.
pub serve_account-delivered :
    (w : World) (ids : List ℕ) (ea ea' : EmailAccount) (mc : MassContact) (s : State)
    (r : Recipients)
    → Ready w ids ea ea' mc s
    → w.deliver ea' s.mo mc ≡ delivered
    → Holds s.mo r
    → contains mc.object_id r.pending ≡ true
    → (s' : State) × (r' : Recipients) × (serve_account w ids ea s ≡ (some tt, s'))
      × (s'.db.outbox ≡ (
          if w.debug
          then s.db.outbox
          else record { account = ea'.ident; mailing = s.mo.ident; object_id = mc.object_id }
            ∷ s.db.outbox))
      × Holds s'.mo r'
      × (r'.reached ≡ r.reached ++ (mc.object_id ∷ []))
      × (r'.failed ≡ r.failed)
      × ((a : ℕ) → tally a r' ≡ tally a r)
      × (s'.mo.today_count ≡ s.mo.today_count + 1)
      × (s'.mo.sending_date ≡ some w.today)
      × (s'.db.accounts
          ≡ save_account
              (record ea' { today_count = ea'.today_count + 1; today_date = some w.today })
              s.db.accounts)
unfolding counted_db counted_mo counted after_sending
serve_account-delivered w ids ea ea' mc s r ready taken holds pending =
    let (mo', r', moved, holds', reached, failed, _, conserved, same) =
      move_to_successful_ids_lem s.mo r mc.object_id holds pending in
    (
      record {
        db = counted_db w.today ea' mo' (after_sending w ea' mc s mo');
        mo = counted_mo w.today mo';
      },
      r',
      serve_account-ready w ids ea ea' mc s ready
          ∙ rw taken (sent_and_counted w ea' mc s mo' moved),
      outbox-posted w.debug _ s.db,
      record { pending = holds'.pending; reached = holds'.reached; failed = holds'.failed },
      reached,
      failed,
      conserved,
      ap (λ (n : ℕ). n + 1) same.6,
      refl,
      ap (save_account _) (accounts-posted w.debug _ s.db),
    )
