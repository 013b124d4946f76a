-- ===== src/Massmail/Sending/Contacts.antt =====
-- massmail/utils/sendmassmail.py, `fix_masscontacts` and `_get_masscontact`: which account mails to
-- which recipient.
use django_crm_marscode.Prelude.{
  ℕ, zero, suc, true, not, ◌&&◌, ◌||◌, Option, none, some, List, [], ◌∷◌, ◌++◌, map, ◌==◌,
  if◌then◌else◌, opt_eq, filter, find, contains,
}
use django_crm_marscode.Prelude.Exec.{Exec, ◌>>=◌, ◌>>◌, pure, raise, gets}
use django_crm_marscode.Massmail.Queue.{EmlAccountsQueue, get_next}
use django_crm_marscode.Massmail.Accounts.{
  EmailAccount, Got, missing, several, found, get_queue_of, on_queue,
}
use django_crm_marscode.Massmail.MailingOut.{MailingOut, kind_eq}
use django_crm_marscode.Massmail.Sending.Tables.{MassContact, Database, World}
use django_crm_marscode.Massmail.Sending.Objects.{State, Step}

-- The owner of the contact's account, as the join with the table of accounts gives it.
abbrev pub account_owner : List EmailAccount → Option ℕ → Option ℕ
account_owner accounts none = none
account_owner accounts (some a) = elim (find (λ ea. ea.ident == a) accounts) [
  | none ↦ none
  | some ea ↦ ea.owner
]

-- `MassContact.objects.filter(content_type=…, object_id__in=recipient_ids)`
abbrev pub contacts_for : MailingOut → List ℕ → List MassContact → List MassContact
contacts_for mo ids = filter (λ mc. kind_eq mc.kind mo.kind && contains mc.object_id ids)

-- `.exclude(email_account__owner=mailing_out.owner)`
abbrev pub wrong_contacts : MailingOut → List ℕ → Database → List MassContact
wrong_contacts mo ids db =
    filter (λ mc. not (opt_eq (account_owner db.accounts mc.email_account) mo.owner))
      (contacts_for mo ids db.contacts)

-- `list(set(recipient_ids) - set(recipient_ids_with))`, without repeats.
abbrev pub difference : List ℕ → List ℕ → List ℕ
difference [] taken = []
difference (a ∷ ids) taken =
    let rest = difference ids taken in
    if contains a taken || contains a rest then rest else a ∷ rest

-- `MassContact.objects.get`-style lookup of the owner's queue: an exception unless there is one.
abbrev pub the_queue : Got → Exec State EmlAccountsQueue
the_queue missing = raise
the_queue several = raise
the_queue (found q) = pure q

abbrev pub queue_of_owner : Exec State EmlAccountsQueue
queue_of_owner s = the_queue (get_queue_of s.mo.owner s.db.queues) s

-- `queue_obj.get_next()`, which saves the queue.
abbrev pub take_next : EmlAccountsQueue → Exec State (Option ℕ)
take_next q s =
    let (r, queues) = on_queue q get_next s.db.queues in
    (r, record s { db = record (s.db) { queues = queues } })

-- `if email_account_id:` holds of neither None nor 0.
abbrev pub when_id : Option ℕ → (ℕ → Step) → Step
when_id none f = pure tt
when_id (some zero) f = pure tt
when_id (some (suc a)) f = f (suc a)

abbrev pub assign : ℕ → MassContact → List MassContact → List MassContact
assign a mc [] = []
assign a mc (r ∷ rows) =
    (if r.ident == mc.ident then record r { email_account = some a } else r) ∷ assign a mc rows

abbrev pub save_contact : MassContact → ℕ → Step
save_contact mc a s =
    (some tt, record s { db = record (s.db) { contacts = assign a mc s.db.contacts } })

-- `for masscontact in wrong_masscontacts`
unfoldable pub reassign : EmlAccountsQueue → List MassContact → Step
reassign q [] = pure tt
reassign q (mc ∷ mcs) = do a ← take_next q; when_id a (save_contact mc); reassign (get_next q).1 mcs

abbrev pub create_contact : World → ℕ → ℕ → Step
create_contact w object_id a s = (
  some tt,
  record s {
    db = record (s.db) {
      contacts =
          s.db.contacts
          ++ (record {
            ident = w.next_key s.db.contacts;
            kind = s.mo.kind;
            object_id = object_id;
            email_account = some a;
            massmail = true;
          }
              ∷ []);
    };
  },
)

-- `for recipient_id in recipient_ids_without`
unfoldable pub create_missing : World → EmlAccountsQueue → List ℕ → Step
create_missing w q [] = pure tt
create_missing w q (rid ∷ rids) = do
  a ← take_next q
  when_id a (create_contact w rid)
  create_missing w (get_next q).1 rids

abbrev pub reassign_some : List MassContact → Step
reassign_some [] = pure tt
reassign_some (mc ∷ mcs) = queue_of_owner >>= λ q. reassign q (mc ∷ mcs)

abbrev pub create_some : World → List ℕ → Step
create_some w [] = pure tt
create_some w (rid ∷ rids) = queue_of_owner >>= λ q. create_missing w q (rid ∷ rids)

unfoldable pub fix_masscontacts : World → List ℕ → Step
unfolding reassign create_missing
fix_masscontacts w ids = do
  s ← gets (λ s. s)
  reassign_some (wrong_contacts s.mo ids s.db)
  s ← gets (λ s. s)
  create_some w (difference ids (map (λ mc. mc.object_id) (contacts_for s.mo ids s.db.contacts)))

-- `_get_masscontact(mailing_out, recipient_ids, email_account)`
unfoldable pub get_masscontact : MailingOut → List ℕ → EmailAccount → Database → Option MassContact
get_masscontact mo ids ea db =
    find (λ mc. opt_eq mc.email_account (some ea.ident) && mc.massmail)
      (contacts_for mo ids db.contacts)
