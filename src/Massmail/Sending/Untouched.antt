-- ===== src/Massmail/Sending/Untouched.antt =====
-- A mailing that a pass does not serve: paused, interrupted, done, or another mailing's turn.
use django_crm_marscode.Prelude.{
  ◌≡◌, refl, ◌∙◌, Bool, true, false, not, ◌&&◌, Option, List, [], ◌∷◌, ◌++◌, arith, ◌==◌, filter,
  any, all,
}
use django_crm_marscode.Prelude.Exec.{
  ◌>>=◌, gets, modify, try_except, Keeps, Keeps-pure, Keeps-seq, catch_do-keeps,
}
use django_crm_marscode.Prelude.{ℕ}
use django_crm_marscode.Prelude.Exec.{Exec}
use django_crm_marscode.Massmail.MailingOut.{
  MailingOut, remove_recipient_ids, move_to_successful_ids, move_to_failed_ids,
}
use django_crm_marscode.Massmail.Sending.Tables.{Sent, Database, World}
use django_crm_marscode.Massmail.Sending.Objects.{
  set_mo, save_mailing, check_owners, check_owners_from, State, on_mo,
}
use django_crm_marscode.Massmail.Sending.Attempt.{posted}
use django_crm_marscode.Massmail.Sending.Pass.{serve_all, tell_admins, send_massmail, is_sendable}
use django_crm_marscode.Massmail.Sending.Walk.{Leaves, serve_mailing-Keeps}

-- The rows with key `k`, and the messages that were sent for them.
abbrev pub rows_of : ℕ → Database → List MailingOut
rows_of k db = filter (λ mo. mo.ident == k) db.mailings

abbrev pub sent_for : ℕ → Database → List Sent
sent_for k db = filter (λ m. m.mailing == k) db.outbox

filter-save_mailing :
    (k : ℕ) (mo : MailingOut) (rows : List MailingOut)
    → (mo.ident == k) ≡ false
    → filter (λ r. r.ident == k) (save_mailing mo rows) ≡ filter (λ r. r.ident == k) rows
filter-save_mailing k mo [] h = refl
filter-save_mailing k mo (r ∷ rows) h = ground (arith, filter-save_mailing k mo rows h)

remove_recipient_ids-ident :
    (rid : ℕ) (mo : MailingOut) → (remove_recipient_ids rid mo).1.ident ≡ mo.ident
unfolding remove_recipient_ids
remove_recipient_ids-ident rid mo = ground arith

move_to_successful_ids-ident :
    (rid : ℕ) (mo : MailingOut) → (move_to_successful_ids rid mo).1.ident ≡ mo.ident
unfolding move_to_successful_ids
move_to_successful_ids-ident rid mo = ground arith

move_to_failed_ids-ident :
    (rid : ℕ) (mo : MailingOut) → (move_to_failed_ids rid mo).1.ident ≡ mo.ident
unfolding move_to_failed_ids
move_to_failed_ids-ident rid mo = ground arith

module _ (k : ℕ) (rows : List MailingOut) (sent : List Sent) where
  abbrev Still : Database → Type 0
  Still db = (rows_of k db ≡ rows) × (sent_for k db ≡ sent)

  -- The object at work is another mailing, and those of key `k` are as they were.
  abbrev Apart : State → Type 0
  Apart s = ((s.mo.ident == k) ≡ false) × Still s.db

  on_mo-Apart :
      (m : Exec MailingOut (Unit {0}))
      → ((mo : MailingOut) → (m mo).1.ident ≡ mo.ident)
      → Keeps Apart (on_mo m)
  on_mo-Apart m same = record { kept = λ s (other, still). (rw same other, still) }

  posted-Apart :
      (b : Bool) (m : Sent) (s : State)
      → (m.mailing == k) ≡ false
      → Apart s
      → Apart (record s { db = posted b m s.db })
  posted-Apart true m s other h = h
  posted-Apart false m s other h = rw other h

  leaves-Apart : Leaves Apart
  unfolding set_mo modify
  leaves-Apart = record {
    saves_mo = record {
      kept = λ s (other, (r, o)). (other, (filter-save_mailing k s.mo s.db.mailings other ∙ r, o));
    };
    saves_ea = λ ea _. record { kept = λ s h. h };
    edits = λ f same. record { kept = λ s (other, still). (rw same other, still) };
    removes = λ rid. on_mo-Apart _ (remove_recipient_ids-ident rid);
    succeeds = λ rid. on_mo-Apart _ (move_to_successful_ids-ident rid);
    fails = λ rid. on_mo-Apart _ (move_to_failed_ids-ident rid);
    deletes = λ mc. record { kept = λ s h. h };
    saves_contact = λ mc a. record { kept = λ s h. h };
    creates = λ w rid a. record { kept = λ s h. h };
    mails = record { kept = λ s h. h };
    posts = λ w ea mc. record {
      kept = λ s (other, still). posted-Apart w.debug _ s other (other, still);
    };
    takes = λ q. record { kept = λ s h. h };
  }

  serve_all-Still :
      (w : World) (mos : List MailingOut)
      → all (λ mo. not (mo.ident == k)) mos ≡ true
      → Keeps Still (serve_all w mos)
  unfolding serve_all
  serve_all-Still w [] h = Keeps-pure tt
  serve_all-Still w (mo ∷ mos) h =
      Keeps-seq _ _
        (record {
          kept = λ db still.
              ((serve_mailing-Keeps Apart leaves-Apart w).kept (record { db = db; mo = mo })
                (ground arith, still)).1;
        })
        (serve_all-Still w mos (ground arith))

all-check_owners_from :
    (p : MailingOut → Bool) (seen : List (Option ℕ)) (mos : List MailingOut)
    → all p mos ≡ true
    → all p (check_owners_from seen mos) ≡ true
unfolding check_owners_from
all-check_owners_from p seen [] h = refl
all-check_owners_from p seen (mo ∷ mos) h =
    ground (
      arith,
      all-check_owners_from p seen mos,
      all-check_owners_from p (seen ++ (mo.owner ∷ [])) mos,
    )

all-filter_sendable :
    (k : ℕ) (mos : List MailingOut)
    → any (λ mo. mo.ident == k && is_sendable mo.status) mos ≡ false
    → all (λ mo. not (mo.ident == k)) (filter (λ mo. is_sendable mo.status) mos) ≡ true
all-filter_sendable k [] h = refl
all-filter_sendable k (mo ∷ mos) h = ground (arith, all-filter_sendable k mos)

-- The random order of the database names no mailing that is not in the result.
abbrev pub OnlyShuffles : World → Type 0
OnlyShuffles w =
    (p : MailingOut → Bool) (mos : List MailingOut)
    → all p mos ≡ true
    → all p (w.shuffle mos) ≡ true

-- Where no mailing with key `k` is active, a pass leaves the rows with that key as they are and
-- sends no message for them, whatever the mail server answers, and also where the pass ends by an
-- exception.
pub send_massmail-untouched :
    (w : World) (db : Database) (k : ℕ)
    → OnlyShuffles w
    → any (λ mo. mo.ident == k && is_sendable mo.status) db.mailings ≡ false
    → (rows_of k (send_massmail w db).1 ≡ rows_of k db)
      × (sent_for k (send_massmail w db).1 ≡ sent_for k db)
unfolding send_massmail check_owners gets ◌>>=◌ try_except
send_massmail-untouched w db k shuffles idle =
    catch_do-keeps {P = Still k (rows_of k db) (sent_for k db)} _ _ tell_admins
      ((serve_all-Still k (rows_of k db) (sent_for k db) w _ others).kept db (refl, refl))
      (record { kept = λ db h. h })
  where
    active_mailings : List MailingOut
    active_mailings = filter (λ mo. is_sendable mo.status) db.mailings

    others : all (λ mo. not (mo.ident == k)) (check_owners (w.shuffle active_mailings)) ≡ true
    others =
        all-check_owners_from (λ mo. not (mo.ident == k)) [] (w.shuffle active_mailings)
          (shuffles (λ mo. not (mo.ident == k)) active_mailings
            (all-filter_sendable k db.mailings idle))
