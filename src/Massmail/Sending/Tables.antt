-- ===== src/Massmail/Sending/Tables.antt =====
-- massmail/utils/sendmassmail.py: the tables that a pass of the sender works on, and the outside
-- world. The database is the list of rows of each table, in the order of their keys. A mailing is
-- an object of the pass beside its row; `save` writes the object over the row.
use django_crm_marscode.Prelude.{ℕ, Bool, Option, List}
use django_crm_marscode.Massmail.Accounts.{EmailAccount, Queues}
use django_crm_marscode.Massmail.MailingOut.{MailingOut, Kind}

pub record MassContact : Type 0 where
  pub ident : ℕ
  pub kind : Kind
  pub object_id : ℕ
  pub email_account : Option ℕ
  pub massmail : Bool

-- A message that the mail server has taken.
pub record Sent : Type 0 where
  pub account : ℕ
  pub mailing : ℕ
  pub object_id : ℕ

pub record Database : Type 0 where
  pub mailings : List MailingOut
  pub accounts : List EmailAccount
  pub contacts : List MassContact
  pub queues : Queues
  pub outbox : List Sent
  pub admin_mails : ℕ

-- What composing and sending a message comes to: sent, one of the two errors that switch the
-- account off, or any other exception.
pub data Delivery : Type 0 where
  delivered account_refused broken : Delivery

-- massmail/settings.py
abbrev pub emails_per_day : ℕ
emails_per_day = 94

-- What the pass reads and the model does not have: the day, whether the debug setting keeps
-- messages back, which recipients exist, what the mail server does, the database's order of
-- `order_by('?')`, and the key of the next contact row.
pub record World : Type 0 where
  pub today : ℕ
  pub debug : Bool
  pub has_object : Kind → ℕ → Bool
  pub deliver : EmailAccount → MailingOut → MassContact → Delivery
  pub shuffle : List MailingOut → List MailingOut
  pub next_key : List MassContact → ℕ
