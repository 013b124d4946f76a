-- ===== src/Crm/ImapSamples.antt =====
-- A server that accepts everything, and each theorem about connections at one input.
use django_crm_marscode.Prelude.Exec.{exec}
use django_crm_marscode.Prelude.{◌≡◌, refl, true, false, ◌&&◌, some, [], ◌∷◌}
use django_crm_marscode.Crm.Imap.{
  inbox, spam, trash, Content, accepted, Server, Connection, select_box, delete_emails,
  move_emails_to_spam,
}
use django_crm_marscode.Crm.Imap.Pages.{headers_page, nothing_to_show, headers_page-locked}
use django_crm_marscode.Crm.Imap.Moving.{moving, delete_emails-commands}
use django_crm_marscode.Crm.Imap.Importing.{Marks, Job, Stored, import_uids, import_box}
use django_crm_marscode.Crm.Imap.Again.{import_box_again}
use django_crm_marscode.Crm.Imap.Batches.{Gives, import_uids_batch}
use django_crm_marscode.Crm.Imap.Exclusive.{Exclusive}

abbrev content : Content
content = record { uids = []; uidnext = 12; uidvalidity = 2; is_empty = false; message = some 1 }

abbrev server : Server
server = record {
  reuse = true;
  answer = λ commands. accepted content;
  is_selected = λ commands. true;
  lockfile = λ commands. true;
}

abbrev connection : Connection
connection = record { locked = true; error = false; selected_box = some inbox; commands = [] }

abbrev marks : Marks
marks = record { uidnext = 11; uidvalidity = 2; start_uid = 1 }

abbrev job : Job
job = record {
  connection = connection;
  account = record { of_inbox = marks; of_sent = marks };
  updated = [];
  queue = [];
  found_uids = [];
}

abbrev stored : Stored
stored = record { message_ids = λ b. []; exists = λ message. false }

abbrev gives : Gives server stored true (λ uid. 1)
gives = record {
  read = λ uid. content;
  answers = λ uid l. refl;
  full = λ uid. refl;
  parsed = λ uid. refl;
  is_new = λ uid. refl;
}

headers_page-locked_example :
    (headers_page server (λ uids. uids) connection).1.locked
    ≡ (true && nothing_to_show server (λ uids. uids) connection)
headers_page-locked_example = headers_page-locked server (λ uids. uids) connection refl (λ l. refl)

delete_emails-commands_example :
    ((delete_emails server (4 ∷ []) connection).1.commands ≡ moving (4 ∷ []) trash [])
    × ((move_emails_to_spam server (4 ∷ []) connection).1.commands ≡ moving (4 ∷ []) spam [])
delete_emails-commands_example = delete_emails-commands server (λ l. refl) (4 ∷ []) connection

import_box_again_example :
    (import_box server stored 1 inbox
      (record job { account = (import_box server stored 1 inbox job).1.account })).1.queue
    ≡ []
unfolding select_box exec
import_box_again_example =
    import_box_again server server stored stored 1 1 inbox content content job
      (record job { account = (import_box server stored 1 inbox job).1.account }) connection
      connection (λ l. refl) (λ l. refl) refl refl refl refl refl refl

import_uids_batch_example :
    (import_uids server stored true 0 (4 ∷ 5 ∷ []) job).1.queue ≡ (5, 1) ∷ (4, 1) ∷ []
import_uids_batch_example =
    import_uids_batch server stored true (λ uid. 1) (4 ∷ 5 ∷ []) job (λ l. refl) gives
