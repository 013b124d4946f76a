-- ===== src/Crm/Imap/Batches.antt =====
-- crm/utils/import_emails.py: how many emails of a box one turn queues.
use django_crm_marscode.Prelude.{
  ℕ, zero, suc, ◌+◌, ◌≡◌, refl, ap, ◌∙◌, Bool, true, false, not, ◌&&◌, some, List, [], ◌∷◌, arith,
  ◌==◌,
}
use django_crm_marscode.Crm.Imap.{
  Command, Server, Content, IsFree, execute_lem, answered, fetch_email, accepted,
}
use django_crm_marscode.Crm.Imap.Importing.{Job, Stored, on_connection, import_uid, import_uids}
use django_crm_marscode.Prelude.Exec.{exec}

abbrev pub take : ℕ → List ℕ → List ℕ
take zero uids = []
take (suc n) [] = []
take (suc n) (uid ∷ uids) = uid ∷ take n uids

-- The queue after the uids have been queued in their order.
abbrev pub queue_all : (ℕ → ℕ) → List ℕ → List (ℕ × ℕ) → List (ℕ × ℕ)
queue_all message [] queue = queue
queue_all message (uid ∷ uids) queue = queue_all message uids ((uid, message uid) ∷ queue)

-- The server gives the message of each uid, which no CrmEmail is like where that is looked up.
pub record Gives (v : Server) (stored : Stored) (valid : Bool) (message : ℕ → ℕ) : Type 0 where
  pub read : ℕ → Content
  pub answers : (uid : ℕ) (l : List Command) → v.answer (fetch_email uid ∷ l) ≡ accepted (read uid)
  pub full : (uid : ℕ) → (read uid).is_empty ≡ false
  pub parsed : (uid : ℕ) → (read uid).message ≡ some (message uid)
  pub is_new : (uid : ℕ) → (not valid && stored.exists (message uid)) ≡ false

module _ (v : Server) (free : IsFree v) (stored : Stored) (valid : Bool) (message : ℕ → ℕ)
    (h : Gives v stored valid message) where
  import_uid-run :
      (i uid : ℕ) (j : Job)
      → (j' : Job) × (import_uid v stored valid i uid j ≡ (some (i == 50), j'))
        × (j'.queue ≡ (uid, message uid) ∷ j.queue)
  unfolding import_uid on_connection exec
  import_uid-run i uid j =
      let c = (answered v (fetch_email uid) j.connection).1 in
      (
        record j { connection = c; queue = (uid, message uid) ∷ j.queue },
        rw (execute_lem v (fetch_email uid) j.connection free) (
            rw (h.answers uid j.connection.commands)
              (rw (h.full uid) (rw (h.parsed uid) (rw (h.is_new uid) refl)))),
        refl,
      )

  import_uids-queue :
      (i k : ℕ) (uids : List ℕ) (j : Job)
      → i + suc k ≡ 51
      → (import_uids v stored valid i uids j).1.queue
        ≡ queue_all message (take (suc k) uids) j.queue
  unfolding import_uids exec
  import_uids-queue i k [] j e = refl
  import_uids-queue i zero (uid ∷ uids) j e =
      let (j', run, queue) = import_uid-run i uid j in
      let last : (i == 50) ≡ true = ground arith in rw run (rw last queue)
  import_uids-queue i (suc k) (uid ∷ uids) j e =
      let (j', run, queue) = import_uid-run i uid j in
      let inner : (i == 50) ≡ false = ground arith in
      rw run (
        rw inner (
          import_uids-queue (suc i) k uids j' (omega arith)
          ∙ ap (queue_all message (take (suc k) uids)) queue))

-- Where the server gives a new message for each uid, and the lock file can always be had, one turn queues the first fifty-one of the uids,
-- in their order, and no other.
pub import_uids_batch :
    (v : Server) (stored : Stored) (valid : Bool) (message : ℕ → ℕ) (uids : List ℕ) (j : Job)
    → IsFree v
    → Gives v stored valid message
    → (import_uids v stored valid 0 uids j).1.queue ≡ queue_all message (take 51 uids) j.queue
import_uids_batch v stored valid message uids j free h =
    import_uids-queue v free stored valid message h 0 50 uids j refl
