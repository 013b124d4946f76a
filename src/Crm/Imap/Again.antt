-- ===== src/Crm/Imap/Again.antt =====
-- crm/utils/import_emails.py: a box that is imported again.
use django_crm_marscode.Prelude.{
  ℕ, ◌≡◌, refl, sym, ap, ◌∙◌, Bool, true, false, some, ◌∷◌, arith, if◌then◌else◌, ==_self,
}
use django_crm_marscode.Crm.Imap.{
  Box, Server, Connection, Content, IsFree, execute_lem, answered, is_ok, content_of, execute,
  select_box, status, search_tickets, accepted, exec,
}
use django_crm_marscode.Crm.Imap.Importing.{
  Job, Stored, on_connection, marks_of, is_changed, is_valid, noted, note_status, check_box_status,
  import_uids, restart, import_box,
}
use django_crm_marscode.Crm.Imap.Statuses.{
  IsNoted, marks_of-set_marks, Keeps-on_connection, Keeps-import_uids, Keeps-restart,
}
use mathlib.Core.Path.{subst}
use django_crm_marscode.Prelude.Exec.{
  Exec, ◌>>=◌, ◌>>◌, pure, bind-run, exec, Keeps, Keeps-pure, Keeps-if, Keeps-bind, Keeps-seq,
}

on_connection-run :
    {A : Type 0} (m : Exec Connection A) (a : A) (c : Connection) (j : Job)
    → m j.connection ≡ (some a, c)
    → on_connection m j ≡ (some a, record j { connection = c })
unfolding on_connection
on_connection-run m a c j h = rw h refl

-- What follows the status, and what follows the selection.
abbrev after_status : Server → Stored → ℕ → Box → Bool × Bool → Exec Job (Unit {0})
after_status v stored start b (changed, valid) =
    if changed
    then (restart v stored valid b
        >> (on_connection (execute v (search_tickets b start)) >>= (λ a.
            if is_ok a then import_uids v stored valid 0 (content_of a).uids else pure tt)))
    else pure tt

abbrev after_select : Server → Stored → ℕ → Box → Bool → Exec Job (Unit {0})
after_select v stored start b ok =
    if ok then (check_box_status v b >>= after_status v stored start b) else pure tt

module _ (v : Server) (free : IsFree v) (stored : Stored) (start : ℕ) (b : Box)
    (content : Content) where
  IsNoted-marks :
      (j : Job) → IsNoted b content.uidnext content.uidvalidity (note_status b content j)
  IsNoted-marks j =
      let e = marks_of-set_marks b (noted content (marks_of b j.account)) j.account in
      (ap (λ m. m.uidnext) e, ap (λ m. m.uidvalidity) e)

  check_box_status-run :
      (j : Job)
      → v.answer (status b ∷ j.connection.commands) ≡ accepted content
      → (j' : Job) × (check_box_status v b j ≡ (
        some (is_changed content (marks_of b j.account), is_valid content (marks_of b j.account)),
        j',
      ))
        × IsNoted b content.uidnext content.uidvalidity j'
        × (j'.queue ≡ j.queue)
  unfolding check_box_status on_connection exec
  check_box_status-run j h =
      let asked = record j { connection = (answered v (status b) j.connection).1 } in
      (
        note_status b content asked,
        rw (execute_lem v (status b) j.connection free) (rw h refl),
        IsNoted-marks asked,
        refl,
      )

  -- The state after the status has been read.
  import_box-run :
      (j : Job) (c : Connection)
      → select_box v b j.connection ≡ (some true, c)
      → v.answer (status b ∷ c.commands) ≡ accepted content
      → (j' : Job) × (import_box v stored start b j
          ≡ after_status v stored start b
              (is_changed content (marks_of b j.account), is_valid content (marks_of b j.account))
              j')
        × IsNoted b content.uidnext content.uidvalidity j'
        × (j'.queue ≡ j.queue)
  unfolding import_box
  import_box-run j c selected answer =
      let (j', run, noted', queue) = check_box_status-run (record j { connection = c }) answer in
      (
        j',
        bind-run (on_connection (select_box v b)) (after_select v stored start b) true j
              (record j { connection = c }) (on_connection-run (select_box v b) true c j selected)
            ∙ bind-run (check_box_status v b) (after_status v stored start b)
                (is_changed content (marks_of b j.account), is_valid content (marks_of b j.account))
                (record j { connection = c }) j' run,
        noted',
        queue,
      )

  after_status-Keeps :
      (changed valid : Bool)
      → Keeps
          (IsNoted b content.uidnext content.uidvalidity)
          (after_status v stored start b (changed, valid))
  after_status-Keeps changed valid =
      Keeps-if changed _ _
        (Keeps-seq _ _ (Keeps-restart b content.uidnext content.uidvalidity v stored valid) (
          Keeps-bind _ _ (Keeps-on_connection b content.uidnext content.uidvalidity _) (λ a.
            Keeps-if (is_ok a) _ _
              (Keeps-import_uids b content.uidnext content.uidvalidity v stored valid 0 _)
              (Keeps-pure tt))))
        (Keeps-pure tt)

  -- Where the box is selected and its status is read, the account has the marks of the server after
  -- the import, whatever the server answers to the commands that follow.
  pub import_box-IsNoted :
      (j : Job) (c : Connection)
      → select_box v b j.connection ≡ (some true, c)
      → v.answer (status b ∷ c.commands) ≡ accepted content
      → IsNoted b content.uidnext content.uidvalidity (import_box v stored start b j).1
  import_box-IsNoted j c selected answer =
      let (j', run, noted', queue) = import_box-run j c selected answer in
      let keeps =
        after_status-Keeps (is_changed content (marks_of b j.account))
          (is_valid content (marks_of b j.account)) in
      subst (λ r. IsNoted b content.uidnext content.uidvalidity r.1) (sym run)
        (keeps.kept j' noted')

  -- Where the server has the UIDNEXT of the account, nothing is queued.
  pub import_box-queue :
      (j : Job) (c : Connection)
      → select_box v b j.connection ≡ (some true, c)
      → v.answer (status b ∷ c.commands) ≡ accepted content
      → content.uidnext ≡ (marks_of b j.account).uidnext
      → (import_box v stored start b j).1.queue ≡ j.queue
  unfolding pure
  import_box-queue j c selected answer same =
      let (j', run, noted', queue) = import_box-run j c selected answer in
      let unchanged : is_changed content (marks_of b j.account) ≡ false =
        ground (arith, ==_self content.uidnext) in
      ap (λ r. r.1.queue) run ∙ rw unchanged queue

-- An import of a box, and a later one with a server that has the same UIDNEXT, from the marks that the
-- first one left, where the box is selected, its status read and the lock file always to be had in
-- both: the later one queues no email, also where the first one's search was refused.
pub import_box_again :
    (v v' : Server) (stored stored' : Stored) (start start' : ℕ) (b : Box)
    (content content' : Content) (j j' : Job) (c c' : Connection)
    → IsFree v
    → IsFree v'
    → select_box v b j.connection ≡ (some true, c)
    → v.answer (status b ∷ c.commands) ≡ accepted content
    → select_box v' b j'.connection ≡ (some true, c')
    → v'.answer (status b ∷ c'.commands) ≡ accepted content'
    → j'.account ≡ (import_box v stored start b j).1.account
    → content'.uidnext ≡ content.uidnext
    → (import_box v' stored' start' b j').1.queue ≡ j'.queue
import_box_again v v' stored stored' start start' b content content' j j' c c' free free' selected
      answer selected' answer' account same =
    import_box-queue v' free' stored' start' b content' j' c' selected' answer' (
      same
      ∙ sym (import_box-IsNoted v free stored start b content j c selected answer).0
      ∙ sym (ap (λ a. (marks_of b a).uidnext) account))
