-- ===== src/Lib.antt =====
-- A model of django-crm, a customer-relationship manager written in Python with Django.
--
-- The program is a set of Django applications over one database: crm (companies, requests, deals and
-- their payments), tasks (tasks, projects and office memos), massmail (mailings from the users' own
-- accounts) and common (users, messages, reminders). Most of it is tables and pages of the
-- framework's admin site; what is modelled here is the code that decides: the threads that send
-- mailings and reminders and load rates, the rules of who may see and change what, and the steps that
-- keep one table in line with another.
--
-- Which file models what:
-- + Prelude: shared names. Prelude.Tests and Prelude.Lists: Boolean tests and lists over native
--   numbers; Prelude.Exec: programs with a state that may raise an exception, and the rules for what
--   they keep.
-- + Massmail.Ids, Massmail.MailingOut: massmail/models/mailing_out.py and
--   massmail/views/send_failed_recipients.py. The fields of ids are texts, as in the database, and the
--   three lists of pending, reached and failed recipients are their abstract view.
-- + Massmail.Queue, Massmail.Accounts: massmail/models/eml_accounts_queue.py,
--   massmail/models/email_account.py and massmail/site/emailaccountadmin.py.
-- + Massmail.Sending: massmail/utils/sendmassmail.py, with Tables (the database and the outside
--   world), Objects (objects and their rows, check_owners), Contacts (which recipient an account
--   serves), Attempt (one attempt and its handlers), Pass (the loops of send_massmail) and BusinessTime
--   (the wait for business time).
-- + Massmail.Actions and Massmail.Vip: massmail/admin_actions.py, the making and merging of mailings,
--   and the choice of recipients who are served by the main account. Massmail.OwnerChange:
--   crm/utils/change_massconts.py, the mailing contacts of a company that has a new owner, with Turns for
--   what the call leaves.
-- + Common.Users: common/utils/usermiddleware.py. Common.Messages and Common.Emails: save_message of
--   common/utils/helpers.py, its counterpart in the middleware, and
--   common/utils/email_to_participants.py. Common.Reminders: common/utils/remind_me.py and
--   common/utils/reminders_sender.py.
-- + Tasks.Objects: tasks/models; Tasks.Permissions and Tasks.Notices:
--   tasks/site/tasksbasemodeladmin.py; Tasks.Closing: the closing of a main task in
--   tasks/models/task.py; Tasks.Reopening: what tasks/site/taskadmin.py writes into the main task of
--   a subtask; Tasks.Memos and Tasks.MemoNotices: tasks/models/memo.py and tasks/site/memoadmin.py.
-- + Crm.Payments: crm/models/payment.py. Crm.Rates: get_rates of crm/utils/rates_loader.py.
-- + Crm.Persons: the records of contacts, leads and companies. Crm.Deals: crm/models/deal.py and
--   save_model and save_related of crm/site/dealadmin.py, with Steps and Closing for what they leave.
-- + Crm.Requests: crm/models/request.py. Here is the search for a person; Texts has the domains and
--   words that are looked up, Companies the search for a company, Assigning what
--   crm/site/requestadmin.py does with both, NewDeals the making of a deal there, Owners the passing on
--   of a new owner and department. Search, Found, Linked,
--   Ends, Counterparties and OneDeal are about what these leave.
-- + Crm.Tickets: crm/utils/ticketproc.py. Crm.Permissions: crm/utils/clarify_permission.py and the
--   queryset and permissions of crm/site/crmmodeladmin.py, for users as Common.Users sets them.
-- + Crm.Imap: crm/utils/crm_imap.py, a connection and its commands. Pages and Importing are
--   crm/utils/import_emails.py, Waiting the waits for the connection and the lock file, Manager is
--   crm/utils/manage_imaps.py with lock and release as steps of several threads; Moving, Statuses, Again,
--   Batches, Exclusive and Sharing are about these.
-- + The modules whose names end in Samples: concrete data and the theorems at it.
--
-- How it corresponds: a row of a table is a record, a table is the list of its rows in their order,
-- a queryset's filter is a filter of the list. A method that changes its object returns the changed
-- object; code that raises an exception returns an option, or runs in Exec, where the state at the
-- exception is kept. Keys, days and moments are numbers, money and rates whole numbers of their last
-- decimal place, and a set of users is a list read by membership. Texts for people are left out where
-- the code only shows them.
--
-- Bounds and fuel: the digits of a number n are written with the fuel n + 1, for a number has no more
-- digits; the rounds of email_to_participants have one unit for each recipient, since each round
-- mails one at least; get_rates has one round for each payment, and one that finds none waiting.
-- Loops over a list are recursion on the list.
--
-- Threads: a step of Crm.Imap.Manager reads or writes what the threads share once; runs are sequences of
-- such steps in any order, so that another thread can come between a test and what relies on it.
--
-- Not modelled, and parameters where the modelled code uses it: the mail server and the mail to
-- the administrators, the IMAP server and the lock files, the composition and parsing of messages, the backend that knows the rates, the
-- database's random order and its lookups of texts (icontains, iexact and iregex), the answers of the
-- framework's own permissions, and the addresses of users. The application's pages and filters, the
-- logging in to IMAP servers, the storing of imported emails, OAuth, telephony, chat and analytics are
-- not in this library.
pub mod Common
pub mod Crm
pub mod Massmail
pub mod Prelude
pub mod Tasks
