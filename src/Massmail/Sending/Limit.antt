-- ===== src/Massmail/Sending/Limit.antt =====
-- The number of messages that an account counts on a day.
use django_crm_marscode.Massmail.Sending.Walk.{IsWithin, Leaves, serve_mailing-Keeps}
use django_crm_marscode.Prelude.{inl, inr, Bool, true, false, List, [], ◌∷◌, ◌==◌, Bool-cases, All}
use django_crm_marscode.Prelude.Exec.{
  modify, Keeps, Keeps-pure, Keeps-gets, Keeps-try_except, Keeps-bind, Keeps-seq,
}
use django_crm_marscode.Massmail.Accounts.{EmailAccount}
use django_crm_marscode.Massmail.MailingOut.{MailingOut}
use django_crm_marscode.Massmail.Sending.Tables.{Database, World, Sent}
use django_crm_marscode.Massmail.Sending.Objects.{set_mo, save_account, State, check_owners}
use django_crm_marscode.Massmail.Sending.Attempt.{posted}
use django_crm_marscode.Massmail.Sending.Pass.{serve_all, tell_admins, send_massmail}

-- No account has counted more on the day that it remembers. The code does not count a message whose
-- recipient it cannot mark as reached.
abbrev pub AllWithin : Database → Type 0
AllWithin db = All IsWithin db.accounts

abbrev Fine : State → Type 0
Fine s = AllWithin s.db

save_account-IsWithin :
    (ea : EmailAccount) (rows : List EmailAccount)
    → IsWithin ea
    → All IsWithin rows
    → All IsWithin (save_account ea rows)
save_account-IsWithin ea [] e h = tt
save_account-IsWithin ea (r ∷ rows) e h = elim (Bool-cases (r.ident == ea.ident)) [
  | inl same ↦ rw same (e, save_account-IsWithin ea rows e h.1)
  | inr other ↦ rw other (h.0, save_account-IsWithin ea rows e h.1)
]

posted-within : (b : Bool) (m : Sent) (db : Database) → AllWithin db → AllWithin (posted b m db)
posted-within true m db h = h
posted-within false m db h = h

leaves-Fine : Leaves Fine
unfolding set_mo modify
leaves-Fine = record {
  saves_mo = record { kept = λ s h. h };
  saves_ea = λ ea e. record { kept = λ s h. save_account-IsWithin ea s.db.accounts e h };
  edits = λ f _. record { kept = λ s h. h };
  removes = λ rid. record { kept = λ s h. h };
  succeeds = λ rid. record { kept = λ s h. h };
  fails = λ rid. record { kept = λ s h. h };
  deletes = λ mc. record { kept = λ s h. h };
  saves_contact = λ mc a. record { kept = λ s h. h };
  creates = λ w rid a. record { kept = λ s h. h };
  mails = record { kept = λ s h. h };
  posts = λ w ea mc. record { kept = λ s h. posted-within w.debug _ s.db h };
  takes = λ q. record { kept = λ s h. h };
}

serve_all-within : (w : World) (mos : List MailingOut) → Keeps AllWithin (serve_all w mos)
unfolding serve_all
serve_all-within w [] = Keeps-pure tt
serve_all-within w (mo ∷ mos) =
    Keeps-seq _ _
      (record {
        kept =
            λ db h. (serve_mailing-Keeps Fine leaves-Fine w).kept (record { db = db; mo = mo }) h;
      })
      (serve_all-within w mos)

-- A pass keeps the field `today_count` of each account at `emails_per_day + 1` or less, whatever the
-- mail server answers, and also where the pass ends by an exception.
pub send_massmail-AllWithin :
    (w : World) (db : Database) → AllWithin db → AllWithin (send_massmail w db).1
unfolding send_massmail
send_massmail-AllWithin w db h =
    (Keeps-try_except _ tell_admins
        (Keeps-bind _ _ (Keeps-gets _) (λ mos. serve_all-within w (check_owners mos)))
        (record { kept = λ db h. h })).kept
      db h
