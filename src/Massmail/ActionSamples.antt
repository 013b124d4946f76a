-- ===== src/Massmail/ActionSamples.antt =====
-- Mailings made and merged from concrete selections.
use django_crm_marscode.Prelude.{◌+◌, ◌&&◌, arith}
use django_crm_marscode.Massmail.Sending.Tables.{MassContact}
use django_crm_marscode.Massmail.Vip.{specify_vip_recipients}
use django_crm_marscode.Massmail.Vip.Served.{rows_for, is_served_by, specify_vip_recipients_lem}
use django_crm_marscode.Prelude.{
  ℕ, ◌≤◌, ◌≡◌, Bool, refl, true, false, none, some, List, [], ◌∷◌, length, contains,
}
use django_crm_marscode.Massmail.Queue.{EmlAccountsQueue, dumped}
use django_crm_marscode.Massmail.Queue.Rotation.{get_next_times}
use django_crm_marscode.Massmail.Accounts.{save_queue}
use django_crm_marscode.Massmail.OwnerChange.{Firm, has_account, is_touched, change_massconts}
use django_crm_marscode.Massmail.OwnerChange.Turns.{HandedOver, change_massconts_lem}
use django_crm_marscode.Massmail.Ids.{join_ids}
use django_crm_marscode.Massmail.Accounts.{EmailAccount}
use django_crm_marscode.Massmail.MailingOut.{MailingOut, Kind, paused, contact, company}
use django_crm_marscode.Massmail.MailingOut.Transfer.{Recipients}
use django_crm_marscode.Massmail.Actions.{Selected, multiple_owners, multiple_value}

-- The first mailing has reached 7, and the second waits for it.
abbrev holder : ℕ → List ℕ → List ℕ → MailingOut
holder k waiting reached = record {
  ident = k;
  owner = some 5;
  status = paused;
  kind = contact;
  message = some 1;
  recipients_number = 2;
  recipient_ids = join_ids waiting;
  successful_ids = join_ids reached;
  failed_ids = join_ids [];
  report = [];
  today_count = 0;
  sending_date = none;
}

abbrev lists : List ℕ → List ℕ → Recipients
lists waiting reached = record { pending = waiting; reached = reached; failed = [] }

abbrev one : MailingOut
one = holder 1 (8 ∷ []) (7 ∷ [])

abbrev two : MailingOut
two = holder 2 (7 ∷ 9 ∷ []) []

abbrev contents : List Recipients
contents = lists (8 ∷ []) (7 ∷ []) ∷ lists (7 ∷ 9 ∷ []) [] ∷ []

abbrev account : EmailAccount
account = record {
  ident = 3;
  owner = some 5;
  main = false;
  massmail = true;
  do_import = false;
  has_imap_host = false;
  today_date = none;
  today_count = 0;
}

abbrev selected : List Selected
selected =
    record { ident = 7; owner = some 5; massmail = true; disqualified = false }
    ∷ record { ident = 8; owner = some 5; massmail = false; disqualified = false }
    ∷ []

-- The recipient 8 has a row, and 7 has none.
abbrev rows : List MassContact
rows =
    record { ident = 1; kind = contact; object_id = 8; email_account = none; massmail = true } ∷ []

abbrev main_account : EmailAccount
main_account = record account { main = true }

rows_single : (x : ℕ) → rows_for contact x rows ≤ 1
rows_single x = ground arith

specify_vip_recipients_lem_example :
    (mcs' : List MassContact) × (specify_vip_recipients
        (λ mcs. length mcs + 1)
        (main_account ∷ [])
        (some 5)
        (some 5 ∷ [])
        contact
        (7 ∷ 8 ∷ [])
        rows
      ≡ some mcs')
    × ((a : ℕ)
        → contains a (7 ∷ 8 ∷ []) ≡ (contains a (7 ∷ 8 ∷ []) && is_served_by 3 contact a mcs'))
specify_vip_recipients_lem_example =
    specify_vip_recipients_lem (λ mcs. length mcs + 1) (main_account ∷ []) (some 5) (some 5 ∷ [])
      contact (7 ∷ 8 ∷ []) rows main_account refl (unfold multiple_owners multiple_value in refl)
      rows_single

abbrev owners_queue : EmlAccountsQueue
owners_queue = record { ident = 1; owner = some 5; queue = dumped (11 ∷ 12 ∷ []) }

abbrev firm : Firm
firm = record { ident = 3; owner = some 5; contacts = 4 ∷ [] }

abbrev row : ℕ → Kind → ℕ → MassContact
row k kind x = record {
  ident = k;
  kind = kind;
  object_id = x;
  email_account = some 9;
  massmail = true;
}

abbrev company_rows : List MassContact
company_rows = row 1 company 3 ∷ row 2 contact 4 ∷ row 3 contact 6 ∷ []

abbrev is_account : ℕ → Bool
is_account b = contains b (11 ∷ 12 ∷ [])

-- The company and its person get the two accounts, and the queue is turned twice.
change_massconts_lem_example :
    (ys : List MassContact) × (change_massconts is_account firm (owners_queue ∷ []) company_rows
      ≡ some (save_queue (get_next_times 2 owners_queue).1 (owners_queue ∷ []), ys))
    × HandedOver (is_touched firm) (λ b. has_account is_account b ≡ true) company_rows ys
change_massconts_lem_example =
    change_massconts_lem is_account (λ b. has_account is_account b ≡ true) firm (owners_queue ∷ [])
      company_rows owners_queue 11 (12 ∷ []) (λ b h. h) refl (refl, (refl, tt))
