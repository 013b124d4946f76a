-- ===== src/Crm/Imap/Statuses.antt =====
-- crm/utils/import_emails.py and crm_imap.py: the marks that an import leaves on the account.
use django_crm_marscode.Prelude.{
  ℕ, suc, ◌≡◌, refl, ap, ◌∙◌, Bool, false, Option, none, some, List, [], ◌∷◌, ◌==◌,
}
use django_crm_marscode.Crm.Imap.{Box, Server, Connection, is_ok, inbox, sent, spam, trash}
use django_crm_marscode.Crm.Imap.Importing.{
  Marks, Account, Job, Stored, on_connection, marks_of, set_marks, set_start, note_found,
  new_start_uid, message_of, has_data, queue_if, or_fetch_again, import_uid, import_uids, restart,
}
use django_crm_marscode.Prelude.Exec.{
  Exec, Keeps, Keeps-pure, Keeps-if, Keeps-modify, Keeps-bind, Keeps-seq,
}

pub marks_of-set_marks : (b : Box) (m : Marks) (a : Account) → marks_of b (set_marks b m a) ≡ m
marks_of-set_marks inbox m a = refl
marks_of-set_marks sent m a = refl
marks_of-set_marks spam m a = refl
marks_of-set_marks trash m a = refl

module _ (b : Box) (next valid : ℕ) where
  -- The marks of the box are these.
  abbrev pub IsNoted : Job → Type 0
  IsNoted j = ((marks_of b j.account).uidnext ≡ next) × ((marks_of b j.account).uidvalidity ≡ valid)

  pub Keeps-on_connection : {A : Type 0} (m : Exec Connection A) → Keeps IsNoted (on_connection m)
  unfolding on_connection
  Keeps-on_connection m = record { kept = λ j h. h }

  Keeps-set_start : (uid : ℕ) (j : Job) → IsNoted j → IsNoted (set_start b uid j)
  Keeps-set_start uid j (h, h') =
      let e = marks_of-set_marks b (record (marks_of b j.account) { start_uid = uid }) j.account in
      (ap (λ m. m.uidnext) e ∙ h, ap (λ m. m.uidvalidity) e ∙ h')

  Keeps-note_found :
      (message : ℕ) (uids : List ℕ) (rest : Exec Job (Unit {0}))
      → Keeps IsNoted rest
      → Keeps IsNoted (note_found b message uids rest)
  Keeps-note_found message [] rest k = k
  Keeps-note_found message (uid ∷ uids) rest k = Keeps-modify _ (λ j h. Keeps-set_start uid j h)

  Keeps-new_start_uid :
      (v : Server) (messages : List ℕ) → Keeps IsNoted (new_start_uid v b messages)
  unfolding new_start_uid
  Keeps-new_start_uid v [] = Keeps-modify _ (λ j h. Keeps-set_start _ j h)
  Keeps-new_start_uid v (message ∷ messages) = Keeps-bind _ _ (Keeps-on_connection _) (λ a.
      Keeps-if (is_ok a) _ _ (Keeps-note_found message _ _ (Keeps-new_start_uid v messages))
        (Keeps-new_start_uid v messages))

  Keeps-queue_if :
      (stored : Stored) (ok : Bool) (i uid : ℕ) (o : Option ℕ)
      → Keeps IsNoted (queue_if stored ok i uid o)
  Keeps-queue_if stored ok i uid none = Keeps-pure false
  Keeps-queue_if stored ok i uid (some message) =
      Keeps-if _ _ _ (Keeps-pure false)
        (Keeps-seq _ _ (Keeps-modify _ (λ j h. h)) (Keeps-pure (i == 50)))

  Keeps-or_fetch_again :
      (v : Server) (uid : ℕ) (o : Option ℕ) → Keeps IsNoted (or_fetch_again v uid o)
  Keeps-or_fetch_again v uid none =
      Keeps-bind _ _ (Keeps-on_connection _) (λ a. Keeps-pure (message_of a))
  Keeps-or_fetch_again v uid (some message) = Keeps-pure (some message)

  Keeps-import_uid :
      (v : Server) (stored : Stored) (ok : Bool) (i uid : ℕ)
      → Keeps IsNoted (import_uid v stored ok i uid)
  unfolding import_uid
  Keeps-import_uid v stored ok i uid = Keeps-bind _ _ (Keeps-on_connection _) (λ a.
      Keeps-if (has_data a) _ _
        (Keeps-bind _ _ (Keeps-or_fetch_again v uid _) (λ o. Keeps-queue_if stored ok i uid o))
        (Keeps-pure false))

  pub Keeps-import_uids :
      (v : Server) (stored : Stored) (ok : Bool) (i : ℕ) (uids : List ℕ)
      → Keeps IsNoted (import_uids v stored ok i uids)
  unfolding import_uids
  Keeps-import_uids v stored ok i [] = Keeps-pure tt
  Keeps-import_uids v stored ok i (uid ∷ uids) =
      Keeps-bind _ _ (Keeps-import_uid v stored ok i uid)
        (λ left. Keeps-if left _ _ (Keeps-pure tt) (Keeps-import_uids v stored ok (suc i) uids))

  pub Keeps-restart :
      (v : Server) (stored : Stored) (ok : Bool) → Keeps IsNoted (restart v stored ok b)
  Keeps-restart v stored ok = Keeps-if ok _ _ (Keeps-pure tt) (Keeps-new_start_uid v _)
