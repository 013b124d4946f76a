-- ===== src/Massmail/Sending/Walk.antt =====
-- A proof rule for one mailing of a pass: what all the elementary steps keep, the pass keeps.
use django_crm_marscode.Prelude.{
  ℕ, zero, suc, ◌+◌, ◌≤◌, ◌≡◌, refl, Bool, true, false, Option, none, some, List, [], ◌∷◌, arith,
}
use django_crm_marscode.Prelude.Exec.{
  Keeps, Keeps-pure, Keeps-raise, Keeps-gets, Keeps-try_except, Keeps-bind, Keeps-seq, keeps_rules,
}
use django_crm_marscode.Massmail.Queue.{EmlAccountsQueue, get_next}
use django_crm_marscode.Massmail.Accounts.{EmailAccount, Got, missing, several, found, get_queue_of}
use django_crm_marscode.Massmail.MailingOut.{
  MailingOut, remove_recipient_ids, move_to_successful_ids, move_to_failed_ids,
}
use django_crm_marscode.Massmail.Sending.Tables.{
  MassContact, Delivery, delivered, account_refused, broken, World, emails_per_day,
}
use django_crm_marscode.Massmail.Sending.Objects.{
  set_mo, State, Step, save_mo, save_ea, on_mo, success_report, report_when_empty, recipient_ids_of,
}
use django_crm_marscode.Massmail.Sending.Contacts.{
  the_queue, queue_of_owner, take_next, when_id, save_contact, reassign, create_contact,
  create_missing, reassign_some, create_some, fix_masscontacts,
}
use django_crm_marscode.Massmail.Sending.Attempt.{
  delete_contact, one_recipient_less, drop_recipient, mail_to_admins, report_off, report_failure,
  counter_increment, post, attempt,
}
use django_crm_marscode.Massmail.Sending.Pass.{
  account_today, count_when, send_to, send_one, send_found, use_account, serve_account,
  serve_recipients, reset_day, serve_mailing,
}

-- The account has room for one more message.
abbrev pub HasRoom : EmailAccount → Type 0
HasRoom ea = ea.today_count ≤ emails_per_day

abbrev pub IsWithin : EmailAccount → Type 0
IsWithin ea = ea.today_count ≤ emails_per_day + 1

account_today-HasRoom :
    (today : ℕ) (ea ea' : EmailAccount) → account_today today ea ≡ some ea' → HasRoom ea'
unfolding account_today
account_today-HasRoom today ea ea' h = ground arith

reset_day-ident : (today : ℕ) (mo : MailingOut) → (reset_day today mo).ident ≡ mo.ident
reset_day-ident today mo = ground arith

-- What to show of an invariant `P` of the steps of a pass.
pub record Leaves (P : State → Type 0) : Type 0 where
  pub saves_mo : Keeps P save_mo
  pub saves_ea : (ea : EmailAccount) → IsWithin ea → Keeps P (save_ea ea)
  pub edits :
      (f : MailingOut → MailingOut)
      → ((mo : MailingOut) → (f mo).ident ≡ mo.ident)
      → Keeps P (set_mo f)
  pub removes : (rid : ℕ) → Keeps P (on_mo (remove_recipient_ids rid))
  pub succeeds : (rid : ℕ) → Keeps P (on_mo (move_to_successful_ids rid))
  pub fails : (rid : ℕ) → Keeps P (on_mo (move_to_failed_ids rid))
  pub deletes : (mc : MassContact) → Keeps P (delete_contact mc)
  pub saves_contact : (mc : MassContact) (a : ℕ) → Keeps P (save_contact mc a)
  pub creates : (w : World) (rid a : ℕ) → Keeps P (create_contact w rid a)
  pub mails : Keeps P mail_to_admins
  pub posts : (w : World) (ea : EmailAccount) (mc : MassContact) → Keeps P (post w ea mc)
  pub takes : (q : EmlAccountsQueue) → Keeps P (take_next q)

module _ (P : State → Type 0) (leaf : Leaves P) where
  the_queue-Keeps : (g : Got) → Keeps P (the_queue g)
  the_queue-Keeps missing = Keeps-raise
  the_queue-Keeps several = Keeps-raise
  the_queue-Keeps (found q) = Keeps-pure q

  queue_of_owner-Keeps : Keeps P queue_of_owner
  queue_of_owner-Keeps = record {
    kept = λ s. (the_queue-Keeps (get_queue_of s.mo.owner s.db.queues)).kept s;
  }

  when_id-Keeps : (o : Option ℕ) (f : ℕ → Step) → ((a : ℕ) → Keeps P (f a)) → Keeps P (when_id o f)
  when_id-Keeps none f k = Keeps-pure tt
  when_id-Keeps (some zero) f k = Keeps-pure tt
  when_id-Keeps (some (suc a)) f k = k (suc a)

  reassign-Keeps : (q : EmlAccountsQueue) (mcs : List MassContact) → Keeps P (reassign q mcs)
  unfolding reassign
  reassign-Keeps q [] = Keeps-pure tt
  reassign-Keeps q (mc ∷ mcs) = Keeps-bind _ _ (leaf.takes q) λ a.
      Keeps-seq _ _ (when_id-Keeps a _ (leaf.saves_contact mc)) (reassign-Keeps (get_next q).1 mcs)

  create_missing-Keeps :
      (w : World) (q : EmlAccountsQueue) (rids : List ℕ) → Keeps P (create_missing w q rids)
  unfolding create_missing
  create_missing-Keeps w q [] = Keeps-pure tt
  create_missing-Keeps w q (rid ∷ rids) = Keeps-bind _ _ (leaf.takes q) λ a.
      Keeps-seq _ _ (when_id-Keeps a _ (leaf.creates w rid))
        (create_missing-Keeps w (get_next q).1 rids)

  reassign_some-Keeps : (mcs : List MassContact) → Keeps P (reassign_some mcs)
  reassign_some-Keeps [] = Keeps-pure tt
  reassign_some-Keeps (mc ∷ mcs) = search (keeps_rules, queue_of_owner-Keeps, reassign-Keeps)

  create_some-Keeps : (w : World) (rids : List ℕ) → Keeps P (create_some w rids)
  create_some-Keeps w [] = Keeps-pure tt
  create_some-Keeps w (rid ∷ rids) =
      search (keeps_rules, queue_of_owner-Keeps, create_missing-Keeps)

  fix_masscontacts-Keeps : (w : World) (ids : List ℕ) → Keeps P (fix_masscontacts w ids)
  unfolding fix_masscontacts
  fix_masscontacts-Keeps w ids = search (keeps_rules, reassign_some-Keeps, create_some-Keeps)

  success_report-Keeps : (w : World) → Keeps P (success_report w)
  unfolding success_report
  success_report-Keeps w = Keeps-seq _ _ (leaf.edits _ (λ mo. refl)) leaf.saves_mo

  report_when_empty-Keeps : (w : World) (ids : List ℕ) → Keeps P (report_when_empty w ids)
  report_when_empty-Keeps w [] = search (keeps_rules, success_report-Keeps)
  report_when_empty-Keeps w (a ∷ ids) = Keeps-pure _

  recipient_ids_of-Keeps : (w : World) → Keeps P (recipient_ids_of w)
  unfolding recipient_ids_of
  recipient_ids_of-Keeps w = Keeps-bind _ _ (record { kept = λ s h. h }) (report_when_empty-Keeps w)

  one_recipient_less-Keeps : (n : ℕ) → Keeps P (one_recipient_less n)
  one_recipient_less-Keeps zero = Keeps-raise
  one_recipient_less-Keeps (suc n) = Keeps-seq _ _ (leaf.edits _ (λ mo. refl)) leaf.saves_mo

  drop_recipient-Keeps : (mc : MassContact) → Keeps P (drop_recipient mc)
  unfolding drop_recipient
  drop_recipient-Keeps mc =
      search (keeps_rules, leaf.removes, one_recipient_less-Keeps, leaf.deletes)

  report_failure-Keeps : (ea : EmailAccount) (mc : MassContact) → Keeps P (report_failure ea mc)
  unfolding report_failure
  report_failure-Keeps ea mc =
      Keeps-seq _ _ (leaf.edits _ (λ mo. refl))
        (Keeps-seq _ _ (leaf.fails mc.object_id) leaf.saves_mo)

  report_off-Keeps :
      (ea : EmailAccount) (mc : MassContact) → HasRoom ea → Keeps P (report_off ea mc)
  unfolding report_off
  report_off-Keeps ea mc room =
      Keeps-seq _ _ (leaf.saves_ea _ (omega arith))
        (Keeps-seq _ _ (leaf.edits _ (λ mo. refl)) (Keeps-seq _ _ leaf.saves_mo leaf.mails))

  counter_increment-Keeps :
      (w : World) (ea : EmailAccount) → HasRoom ea → Keeps P (counter_increment w ea)
  unfolding counter_increment
  counter_increment-Keeps w ea room =
      Keeps-seq _ _ (leaf.saves_ea _ (omega arith))
        (Keeps-seq _ _ (leaf.edits _ (λ mo. refl)) leaf.saves_mo)

  attempt-Keeps :
      (w : World) (ea : EmailAccount) (mc : MassContact) (d : Delivery)
      → HasRoom ea
      → Keeps P (attempt w ea mc d)
  unfolding attempt
  attempt-Keeps w ea mc delivered room =
      Keeps-try_except _ _
        (Keeps-seq _ _ (leaf.posts w ea mc) (
          Keeps-seq _ _ (leaf.succeeds mc.object_id)
            (Keeps-seq _ _ leaf.saves_mo (Keeps-pure true))))
        (Keeps-bind _ _ (report_failure-Keeps ea mc) (λ _. Keeps-pure false))
  attempt-Keeps w ea mc account_refused room = search (keeps_rules, report_off-Keeps)
  attempt-Keeps w ea mc broken room = search (keeps_rules, report_failure-Keeps)

  count_when-Keeps :
      (w : World) (ea : EmailAccount) (b : Bool) → HasRoom ea → Keeps P (count_when w ea b)
  count_when-Keeps w ea true room = counter_increment-Keeps w ea room
  count_when-Keeps w ea false room = Keeps-pure tt

  send_to-Keeps :
      (w : World) (ea : EmailAccount) (mc : MassContact) (b : Bool) (d : Delivery)
      → HasRoom ea
      → Keeps P (send_to w ea mc b d)
  send_to-Keeps w ea mc true d room =
      Keeps-bind _ _ (attempt-Keeps w ea mc d room) (λ b. count_when-Keeps w ea b room)
  send_to-Keeps w ea mc false d room = drop_recipient-Keeps mc

  send_one-Keeps :
      (w : World) (ea : EmailAccount) (mc : MassContact) → HasRoom ea → Keeps P (send_one w ea mc)
  unfolding send_one
  send_one-Keeps w ea mc room = Keeps-bind _ _ (Keeps-gets _) (λ s. send_to-Keeps w ea mc _ _ room)

  send_found-Keeps :
      (w : World) (ea : EmailAccount) (o : Option MassContact)
      → HasRoom ea
      → Keeps P (send_found w ea o)
  send_found-Keeps w ea none room = Keeps-pure tt
  send_found-Keeps w ea (some mc) room = send_one-Keeps w ea mc room

  use_account-Keeps :
      (w : World) (ids : List ℕ) (o : Option EmailAccount)
      → ((ea : EmailAccount) → o ≡ some ea → HasRoom ea)
      → Keeps P (use_account w ids o)
  use_account-Keeps w ids none room = Keeps-pure tt
  use_account-Keeps w ids (some ea) room =
      Keeps-bind _ _ (Keeps-gets _) (λ o. send_found-Keeps w ea o (room ea refl))

  serve_account-Keeps :
      (w : World) (ids : List ℕ) (ea : EmailAccount) → Keeps P (serve_account w ids ea)
  unfolding serve_account
  serve_account-Keeps w ids ea =
      use_account-Keeps w ids (account_today w.today ea) (account_today-HasRoom w.today ea)

  serve_recipients-Keeps : (w : World) (ids : List ℕ) → Keeps P (serve_recipients w ids)
  serve_recipients-Keeps w [] = Keeps-pure tt
  serve_recipients-Keeps w (rid ∷ rids) =
      search (keeps_rules, fix_masscontacts-Keeps, serve_account-Keeps)

  pub serve_mailing-Keeps : (w : World) → Keeps P (serve_mailing w)
  unfolding serve_mailing
  serve_mailing-Keeps w =
      Keeps-seq _ _ (leaf.edits _ (reset_day-ident w.today))
        (Keeps-bind _ _ (recipient_ids_of-Keeps w) (serve_recipients-Keeps w))
