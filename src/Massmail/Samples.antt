-- ===== src/Massmail/Samples.antt =====
-- A small database, and the theorems of the mailing part at it.
use django_crm_marscode.Prelude.{
  ℕ, ◌+◌, ◌≡◌, refl, ◌≢◌, true, false, none, some, [], ◌∷◌, arith, length, All,
}
use django_crm_marscode.Massmail.Ids.{get_ids, join_ids, get_ids-join_ids}
use django_crm_marscode.Massmail.Queue.{EmlAccountsQueue, dumped}
use django_crm_marscode.Massmail.Queue.Rotation.{
  NoRepeats, holding, get_next_times, served_all, get_next-turn,
}
use django_crm_marscode.Massmail.Accounts.{EmailAccount, Form, several, get_queue_of, save_model}
use django_crm_marscode.Massmail.Accounts.Membership.{holds, save_model-owner_changed}
use django_crm_marscode.Massmail.MailingOut.{MailingOut, Status, active, paused, contact}
use django_crm_marscode.Massmail.MailingOut.Transfer.{Recipients, Holds, move_to_successful_ids_lem}
use django_crm_marscode.Massmail.Sending.Tables.{
  MassContact, Database, Delivery, delivered, broken, World,
}
use django_crm_marscode.Massmail.Sending.Objects.{State}
use django_crm_marscode.Massmail.Sending.Contacts.{get_masscontact}
use django_crm_marscode.Massmail.Sending.Pass.{account_today, send_massmail}
use django_crm_marscode.Massmail.Sending.Limit.{AllWithin, send_massmail-AllWithin}
use django_crm_marscode.Massmail.Sending.Untouched.{rows_of, sent_for, send_massmail-untouched}
use django_crm_marscode.Massmail.Sending.Delivered.{Ready, serve_account-delivered}
use django_crm_marscode.Massmail.Sending.Refused.{serve_account-broken}
use django_crm_marscode.Massmail.Sending.BusinessTime.{Moment}

abbrev world : Delivery → World
world d = record {
  today = 10;
  debug = false;
  has_object = λ _ _. true;
  deliver = λ _ _ _. d;
  shuffle = λ mos. mos;
  next_key = λ rows. length rows + 1;
}

abbrev mailing : ℕ → Status → MailingOut
mailing k status = record {
  ident = k;
  owner = some 5;
  status = status;
  kind = contact;
  message = some 1;
  recipients_number = 2;
  recipient_ids = join_ids (7 ∷ 8 ∷ []);
  successful_ids = join_ids [];
  failed_ids = join_ids (9 ∷ []);
  report = [];
  today_count = 0;
  sending_date = none;
}

abbrev recipients : Recipients
recipients = record { pending = 7 ∷ 8 ∷ []; reached = []; failed = 9 ∷ [] }

mailing-Holds : (k : ℕ) (status : Status) → Holds (mailing k status) recipients
mailing-Holds k status = record {
  pending = get_ids-join_ids _;
  reached = get_ids-join_ids _;
  failed = get_ids-join_ids _;
}

abbrev account : EmailAccount
account = record {
  ident = 3;
  owner = some 5;
  main = false;
  massmail = true;
  do_import = false;
  has_imap_host = false;
  today_date = some 10;
  today_count = 4;
}

abbrev mass_contact : MassContact
mass_contact = record {
  ident = 1;
  kind = contact;
  object_id = 7;
  email_account = some 3;
  massmail = true;
}

abbrev queue : EmlAccountsQueue
queue = record { ident = 1; owner = some 5; queue = dumped (3 ∷ 4 ∷ []) }

abbrev database : Database
database = record {
  mailings = mailing 1 active ∷ mailing 2 paused ∷ [];
  accounts = account ∷ [];
  contacts = mass_contact ∷ [];
  queues = queue ∷ [];
  outbox = [];
  admin_mails = 0;
}

abbrev state : State
state = record { db = database; mo = mailing 1 active }

ready : (d : Delivery) → Ready (world d) (7 ∷ 8 ∷ []) account account mass_contact state
unfolding account_today get_masscontact
ready d = record { below = refl; chosen = refl; exists = refl }

get_ids-join_ids_example : get_ids (join_ids (12 ∷ 3 ∷ [])) ≡ some (12 ∷ 3 ∷ [])
get_ids-join_ids_example = get_ids-join_ids (12 ∷ 3 ∷ [])

get_next-turn_example :
    get_next_times 2 (holding queue (3 ∷ 4 ∷ []))
    ≡ (served_all (3 ∷ 4 ∷ []), holding queue (3 ∷ 4 ∷ []))
get_next-turn_example = get_next-turn queue (3 ∷ 4 ∷ [])

distinct : NoRepeats (3 ∷ 4 ∷ [])
distinct a = ground arith

abbrev moved_form : Form
moved_form = record { change = true; main_changed = false; owner_changed = true }

one_queue : get_queue_of (some 5) (queue ∷ []) ≢ several
unfolding get_queue_of
one_queue = λ e. cc

save_model-owner_changed_example :
    ((save_model 2 account moved_form (queue ∷ [])).0 ≡ some tt)
    × All (λ q. holds 3 q ≡ false) (save_model 2 account moved_form (queue ∷ [])).1
save_model-owner_changed_example =
    save_model-owner_changed 2 account moved_form (queue ∷ []) (((3 ∷ 4 ∷ []), refl, distinct), tt)
      one_queue refl refl

move_to_successful_ids_lem_example :
    (move_to_successful_ids_lem
      (mailing 1 active)
      recipients
      7
      (mailing-Holds 1 active)
      refl).1.reached
    ≡ 7 ∷ []
move_to_successful_ids_lem_example =
    (move_to_successful_ids_lem (mailing 1 active) recipients 7 (mailing-Holds 1 active) refl).4

send_massmail-AllWithin_example : AllWithin (send_massmail (world delivered) database).1
send_massmail-AllWithin_example =
    send_massmail-AllWithin (world delivered) database (omega arith, tt)

send_massmail-untouched_example :
    (rows_of 2 (send_massmail (world delivered) database).1 ≡ rows_of 2 database)
    × (sent_for 2 (send_massmail (world delivered) database).1 ≡ sent_for 2 database)
send_massmail-untouched_example =
    send_massmail-untouched (world delivered) database 2 (λ p mos h. h) refl

serve_account-delivered_example :
    (serve_account-delivered
      (world delivered)
      (7 ∷ 8 ∷ [])
      account
      account
      mass_contact
      state
      recipients
      (ready delivered)
      refl
      (mailing-Holds 1 active)
      refl).0.db.outbox
    ≡ record { account = 3; mailing = 1; object_id = 7 } ∷ []
serve_account-delivered_example =
    (serve_account-delivered (world delivered) (7 ∷ 8 ∷ []) account account mass_contact state
      recipients (ready delivered) refl (mailing-Holds 1 active) refl).3

serve_account-broken_example :
    (serve_account-broken
      (world broken)
      (7 ∷ 8 ∷ [])
      account
      account
      mass_contact
      state
      recipients
      (ready broken)
      refl
      (mailing-Holds 1 active)
      refl).1.failed
    ≡ 9 ∷ 7 ∷ []
serve_account-broken_example =
    (serve_account-broken (world broken) (7 ∷ 8 ∷ []) account account mass_contact state recipients
      (ready broken) refl (mailing-Holds 1 active) refl).9

abbrev friday_noon : Moment
friday_noon = record { weekday = 4; minutes = 720; rest = 5 }
