-- ===== src/Crm/Imap.antt =====
-- crm/utils/crm_imap.py: a connection to an IMAP server. The server is a function of the commands it
-- has been given; a raised RuntimeError, the only one that a command lets through, ends the code.
pub mod Pages
pub mod Importing
pub mod Moving
pub mod Statuses
pub mod Again
pub mod Batches
pub mod Waiting
pub mod Manager
pub mod Exclusive
pub mod Sharing
use django_crm_marscode.Prelude.{}
use django_crm_marscode.Prelude.Exec.{
  then_do, lift, catch_do, try_except, for_each, Keeps, Keeps-pure, Keeps-raise, Keeps-gets,
  Keeps-if, Keeps-try_except, Keeps-modify, Keeps-bind, Keeps-gets_bind, Keeps-seq, Keeps-for_each,
  keeps_rules, Returns,
}
use django_crm_marscode.Prelude.{
  ℕ, zero, suc, ◌+◌, ◌-◌, ◌*◌, ◌/◌, ◌%◌, ◌≤◌, ◌<◌, String, ◌≡◌, refl, sym, ap, ◌∙◌, ◌≢◌, ◌↔◌, ◌⊎◌,
  inl, inr, Bool, true, false, not, ◌&&◌, ◌||◌, Option, none, some, List, [], ◌∷◌, ◌++◌, map,
  append_assoc, append-nil, arith, ltb, leb, ◌==◌, if◌then◌else◌, opt_eq, is_some, ltb→lt, lt→ltb,
  leb→le, ==_iff, ==_self, Bool-cases, Option-cases, length, length-append, All, filter, find, any,
  all, contains, remove_first, count, count-append, contains-append, remove_first-contains,
  remove_first_missing, count-remove_first,
}
use django_crm_marscode.Prelude.Exec.{Exec, ◌>>=◌, ◌>>◌, pure, gets, modify, raise, exec}

pub data Box : Type 0 where
  inbox : Box
  sent : Box
  spam : Box
  trash : Box

-- Uids are numbers; `status`, `search` and `fetch` are commands for what they ask.
pub data Command : Type 0 where
  login : Command
  list_boxes : Command
  noop : Command
  select : Box → Command
  status : Box → Command
  search_unseen : Command
  search_all : Command
  search_tickets : Box → ℕ → Command
  search_message : ℕ → Command
  fetch_headers : List ℕ → Command
  fetch_email : ℕ → Command
  copy : List ℕ → Box → Command
  store_deleted : List ℕ → Command
  store_seen : List ℕ → Command
  expunge : Command
  close_connection : Command

-- What the program reads from an accepted answer: the uids, UIDNEXT and UIDVALIDITY, whether the
-- first part is empty, and the email.
pub record Content : Type 0 where
  pub uids : List ℕ
  pub uidnext : ℕ
  pub uidvalidity : ℕ
  pub is_empty : Bool
  pub message : Option ℕ

-- The result "OK", another one, or an exception of the command.
pub data Answer : Type 0 where
  accepted : Content → Answer
  refused : Answer
  failed : Answer

-- The settings and the outside: `REUSE_IMAP_CONNECTION`, the answer to the last of the commands,
-- whether the state of the connection is SELECTED after them, and whether the lock file can be had.
pub record Server : Type 0 where
  pub reuse : Bool
  pub answer : List Command → Answer
  pub is_selected : List Command → Bool
  pub lockfile : List Command → Bool

-- A CrmIMAP; `commands` has the latest one first.
pub record Connection : Type 0 where
  pub locked : Bool
  pub error : Bool
  pub selected_box : Option Box
  pub commands : List Command

abbrev pub is_ok : Answer → Bool
is_ok (accepted content) = true
is_ok refused = false
is_ok failed = false

abbrev pub is_failed : Answer → Bool
is_failed (accepted content) = false
is_failed refused = false
is_failed failed = true

abbrev pub no_content : Content
no_content = record { uids = []; uidnext = 0; uidvalidity = 0; is_empty = true; message = none }

abbrev pub content_of : Answer → Content
content_of (accepted content) = content
content_of refused = no_content
content_of failed = no_content

abbrev pub same_box : Box → Box → Bool
same_box inbox inbox = true
same_box sent sent = true
same_box spam spam = true
same_box trash trash = true
same_box _ _ = false

abbrev pub is_box : Option Box → Box → Bool
is_box none b = false
is_box (some a) b = same_box a b

-- The command is given and answered; its exception becomes the error of the connection.
abbrev pub answered : Server → Command → Connection → Answer × Connection
answered v c s =
    let a = v.answer (c ∷ s.commands) in
    (a, record s { commands = c ∷ s.commands; error = s.error || is_failed a })

-- `CrmIMAP._execute`
unfoldable pub execute : Server → Command → Exec Connection Answer
execute v c s =
    if v.reuse && not (v.lockfile s.commands)
    then (none, s)
    else (some (answered v c s).0, (answered v c s).1)

abbrev pub if_selected_box : Server → Box → Connection → Bool
if_selected_box v b s = is_box s.selected_box b && v.is_selected s.commands

abbrev pub note_selected : Box → Bool → Connection → Connection
note_selected b true s = record s { selected_box = some b }
note_selected b false s = s

-- `CrmIMAP.select_box`: whether its result is "OK".
unfoldable pub select_box : Server → Box → Exec Connection Bool
select_box v b = do
  selected ← gets (if_selected_box v b)
  if selected
      then pure true
      else (do a ← execute v (select b); modify (note_selected b (is_ok a)); pure (is_ok a))

-- `CrmIMAP._uid_copy` and `_uid_delete`, whose answers no caller reads.
unfoldable pub uid_copy : Server → List ℕ → Box → Exec Connection Answer
uid_copy v uids b = execute v (copy uids b)

unfoldable pub uid_delete : Server → List ℕ → Exec Connection Answer
uid_delete v uids = do a ← execute v (store_deleted uids); execute v expunge

abbrev pub move_to : Server → List ℕ → Box → Exec Connection (Unit {0})
move_to v uids b = do
  ok ← select_box v inbox
  if ok then (do copied ← uid_copy v uids b; deleted ← uid_delete v uids; pure tt) else pure tt

-- `CrmIMAP.delete_emails`, `move_emails_to_spam` and `mark_emails_as_read`
unfoldable pub delete_emails : Server → List ℕ → Exec Connection (Unit {0})
delete_emails v uids = move_to v uids trash

unfoldable pub move_emails_to_spam : Server → List ℕ → Exec Connection (Unit {0})
move_emails_to_spam v uids = move_to v uids spam

unfoldable pub mark_emails_as_read : Server → List ℕ → Exec Connection (Unit {0})
mark_emails_as_read v uids = do
  ok ← select_box v inbox
  if ok then (do seen ← execute v (store_seen uids); pure tt) else pure tt

-- `CrmIMAP.release`: the connection is free for others, or is closed where it is not reused.
abbrev pub released : Server → Connection → Connection
released v s =
    if v.reuse
    then record s { locked = false }
    else record s { commands = close_connection ∷ s.commands }

unfoldable pub release : Server → Exec Connection (Unit {0})
release v = modify (released v)

-- `CrmIMAP.noop`: whether its result is "OK". A connection with an error is asked nothing.
unfoldable pub noop_ok : Server → Exec Connection Bool
noop_ok v = do
  broken ← gets (λ s. s.error)
  if broken then pure false else (do a ← execute v noop; pure (is_ok a))

-- Where the lock file can be had, or is not used, a command is answered.
abbrev pub IsFree : Server → Type 0
IsFree v = (l : List Command) → (v.reuse && not (v.lockfile l)) ≡ false

pub execute_lem :
    (v : Server) (c : Command) (s : Connection)
    → IsFree v
    → execute v c s ≡ (some (answered v c s).0, (answered v c s).1)
unfolding execute
execute_lem v c s free = rw (free s.commands) refl
