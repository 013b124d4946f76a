-- ===== src/Crm/Imap/Importing.antt =====
-- crm/utils/import_emails.py and crm_imap.py: what one turn of the import thread does with the boxes
-- of an account, with a connection that it has got.
use django_crm_marscode.Prelude.{
  ℕ, suc, ◌-◌, Bool, true, false, not, ◌&&◌, Option, none, some, List, [], ◌∷◌, ◌++◌, ltb, ◌==◌,
  if◌then◌else◌,
}
use django_crm_marscode.Crm.Imap.{
  Box, Server, Connection, Answer, Content, is_ok, content_of, execute, select_box, inbox, sent,
  status, search_tickets, search_message, fetch_email,
}
use django_crm_marscode.Prelude.Exec.{Exec, ◌>>=◌, ◌>>◌, pure, gets, modify}

-- The fields of an EmailAccount that the import reads and writes.
pub record Marks : Type 0 where
  pub uidnext : ℕ
  pub uidvalidity : ℕ
  pub start_uid : ℕ

pub record Account : Type 0 where
  pub of_inbox : Marks
  pub of_sent : Marks

pub data Field : Type 0 where
  uidnext_field : Box → Field
  uidvalidity_field : Box → Field

-- The state of the turn: `updated` is `upd_fields`, and `queue` what `eml_queue` got, each latest first.
pub record Job : Type 0 where
  pub connection : Connection
  pub account : Account
  pub updated : List Field
  pub queue : List (ℕ × ℕ)
  pub found_uids : List (ℕ × ℕ)

-- The rest of the database: the Message-IDs of up to three emails of the box, and whether a CrmEmail
-- like the message exists.
pub record Stored : Type 0 where
  pub message_ids : Box → List ℕ
  pub exists : ℕ → Bool

unfoldable pub on_connection : {A : Type 0} → Exec Connection A → Exec Job A
on_connection m j = ((m j.connection).0, record j { connection = (m j.connection).1 })

abbrev pub marks_of : Box → Account → Marks
marks_of sent a = a.of_sent
marks_of _ a = a.of_inbox

abbrev pub set_marks : Box → Marks → Account → Account
set_marks sent m a = record a { of_sent = m }
set_marks _ m a = record a { of_inbox = m }

-- The two comparisons of `check_box_status`, the first one being "changed".
abbrev pub is_changed : Content → Marks → Bool
is_changed content m = not (content.uidnext == m.uidnext)

abbrev pub is_valid : Content → Marks → Bool
is_valid content m = content.uidvalidity == m.uidvalidity

abbrev pub noted : Content → Marks → Marks
noted content m = record m { uidnext = content.uidnext; uidvalidity = content.uidvalidity }

abbrev pub fields_of : Box → Content → Marks → List Field
fields_of b content m =
    (if is_valid content m then [] else uidvalidity_field b ∷ [])
    ++ (if is_changed content m then uidnext_field b ∷ [] else [])

abbrev pub note_status : Box → Content → Job → Job
note_status b content j =
    let m = marks_of b j.account in
    record j {
      account = set_marks b (noted content m) j.account;
      updated = fields_of b content m ++ j.updated;
    }

-- `CrmIMAP.check_box_status`
unfoldable pub check_box_status : Server → Box → Exec Job (Bool × Bool)
check_box_status v b = do
  a ← on_connection (execute v (status b))
  m ← gets (λ j. marks_of b j.account)
  if is_ok a
      then (do
        modify (note_status b (content_of a))
        pure (is_changed (content_of a) m, is_valid (content_of a) m))
      else pure (false, true)

-- `set_new_start_uid`: the uid of the first stored email that the server finds, or fifty less.
abbrev pub earlier : ℕ → ℕ
earlier start = if ltb 50 start then start - 50 else 1

abbrev pub set_start : Box → ℕ → Job → Job
set_start b uid j = record j {
  account = set_marks b (record (marks_of b j.account) { start_uid = uid }) j.account;
}

abbrev pub note_found : Box → ℕ → List ℕ → Exec Job (Unit {0}) → Exec Job (Unit {0})
note_found b message [] rest = rest
note_found b message (uid ∷ uids) rest =
    modify (λ j. record (set_start b uid j) { found_uids = (message, uid) ∷ j.found_uids })

unfoldable pub new_start_uid : Server → Box → List ℕ → Exec Job (Unit {0})
new_start_uid v b [] = modify (λ j. set_start b (earlier (marks_of b j.account).start_uid) j)
new_start_uid v b (message ∷ messages) =
    let rest = new_start_uid v b messages in
    (do
      a ← on_connection (execute v (search_message message))
      if is_ok a then note_found b message (content_of a).uids rest else rest)

-- The answer is OK and has data.
abbrev pub has_data : Answer → Bool
has_data a = is_ok a && not (content_of a).is_empty

abbrev pub message_of : Answer → Option ℕ
message_of a = if has_data a then (content_of a).message else none

-- The email is queued, and `true` tells that the loop is left at the fifty-first uid.
abbrev pub queue_message : Stored → Bool → ℕ → ℕ → ℕ → Exec Job Bool
queue_message stored valid i uid message =
    if not valid && stored.exists message
    then pure false
    else (modify (λ j. record j { queue = (uid, message) ∷ j.queue }) >> pure (i == 50))

abbrev pub or_fetch_again : Server → ℕ → Option ℕ → Exec Job (Option ℕ)
or_fetch_again v uid (some message) = pure (some message)
or_fetch_again v uid none = do a ← on_connection (execute v (fetch_email uid)); pure (message_of a)

abbrev pub queue_if : Stored → Bool → ℕ → ℕ → Option ℕ → Exec Job Bool
queue_if stored valid i uid none = pure false
queue_if stored valid i uid (some message) = queue_message stored valid i uid message

unfoldable pub import_uid : Server → Stored → Bool → ℕ → ℕ → Exec Job Bool
import_uid v stored valid i uid = do
  a ← on_connection (execute v (fetch_email uid))
  if has_data a
      then (do
        message ← or_fetch_again v uid (content_of a).message
        queue_if stored valid i uid message)
      else pure false

unfoldable pub import_uids : Server → Stored → Bool → ℕ → List ℕ → Exec Job (Unit {0})
import_uids v stored valid i [] = pure tt
import_uids v stored valid i (uid ∷ uids) =
    let rest = import_uids v stored valid (suc i) uids in
    (do left ← import_uid v stored valid i uid; if left then pure tt else rest)

abbrev pub restart : Server → Stored → Bool → Box → Exec Job (Unit {0})
restart v stored valid b = if valid then pure tt else new_start_uid v b (stored.message_ids b)

-- The body of the loop over the two boxes. `start` is the uid in `uid_data`, read before the loop.
unfoldable pub import_box : Server → Stored → ℕ → Box → Exec Job (Unit {0})
import_box v stored start b = do
  ok ← on_connection (select_box v b)
  if ok
      then (do
        (changed, valid) ← check_box_status v b
        if changed
            then (do
              restart v stored valid b
              a ← on_connection (execute v (search_tickets b start))
              if is_ok a then import_uids v stored valid 0 (content_of a).uids else pure tt)
            else pure tt)
      else pure tt

-- Both boxes, as one turn does it.
unfoldable pub import_boxes : Server → Stored → Exec Job (Unit {0})
import_boxes v stored = do
  a ← gets (λ j. j.account)
  import_box v stored a.of_inbox.start_uid inbox
  import_box v stored a.of_sent.start_uid sent
