-- ===== src/Massmail/Sending/Objects.antt =====
-- massmail/utils/sendmassmail.py: which mailings a pass serves, and the objects that it saves.
use django_crm_marscode.Prelude.{
  ℕ, Bool, true, false, ◌||◌, Option, some, List, [], ◌∷◌, ◌++◌, ◌==◌, if◌then◌else◌, opt_eq,
}
use django_crm_marscode.Prelude.Exec.{Exec, ◌>>=◌, ◌>>◌, pure, modify}
use django_crm_marscode.Massmail.Accounts.{EmailAccount}
use django_crm_marscode.Massmail.MailingOut.{MailingOut, done, success, get_recipient_ids}
use django_crm_marscode.Massmail.Sending.Tables.{Database, World}

-- `owner in owner_list`
abbrev pub owner_in : Option ℕ → List (Option ℕ) → Bool
owner_in o [] = false
owner_in o (p ∷ ps) = opt_eq o p || owner_in o ps

unfoldable pub check_owners_from : List (Option ℕ) → List MailingOut → List MailingOut
check_owners_from owner_list [] = []
check_owners_from owner_list (mo ∷ mos) = elim (owner_in mo.owner owner_list) [
  | true ↦ check_owners_from owner_list mos
  | false ↦ mo ∷ check_owners_from (owner_list ++ (mo.owner ∷ [])) mos
]

unfoldable pub check_owners : List MailingOut → List MailingOut
unfolding check_owners_from
check_owners mos = check_owners_from [] mos

-- `mailing_out.save()`
abbrev pub save_mailing : MailingOut → List MailingOut → List MailingOut
save_mailing mo [] = []
save_mailing mo (r ∷ rows) = (if r.ident == mo.ident then mo else r) ∷ save_mailing mo rows

-- `email_account.save()`
abbrev pub save_account : EmailAccount → List EmailAccount → List EmailAccount
save_account ea [] = []
save_account ea (r ∷ rows) = (if r.ident == ea.ident then ea else r) ∷ save_account ea rows

-- The state while one mailing is worked on: the database, and the object.
pub record State : Type 0 where
  pub db : Database
  pub mo : MailingOut

abbrev pub Step : Type 0
Step = Exec State (Unit {0})

abbrev pub save_mo : Step
save_mo s =
    (some tt, record s { db = record (s.db) { mailings = save_mailing s.mo s.db.mailings } })

abbrev pub save_ea : EmailAccount → Step
save_ea ea s =
    (some tt, record s { db = record (s.db) { accounts = save_account ea s.db.accounts } })

-- An assignment to fields of the object.
unfoldable pub set_mo : (MailingOut → MailingOut) → Step
unfolding modify
set_mo f = modify (λ s. record s { mo = f s.mo })

-- A method of the mailing, on the object of the state.
abbrev pub on_mo : {A : Type 0} → Exec MailingOut A → Exec State A
on_mo m s = ((m s.mo).0, record s { mo = (m s.mo).1 })

-- `_success_report(mailing_out)`
unfoldable pub success_report : World → Step
success_report w = do
  set_mo (λ mo. record mo { report = success w.today ∷ mo.report; status = done })
  save_mo

abbrev pub report_when_empty : World → List ℕ → Exec State (List ℕ)
report_when_empty w [] = success_report w >>= λ _. pure []
report_when_empty w (a ∷ ids) = pure (a ∷ ids)

-- `get_recipient_ids(mailing_out)`
unfoldable pub recipient_ids_of : World → Exec State (List ℕ)
unfolding success_report
recipient_ids_of w = do ids ← on_mo (λ mo. (get_recipient_ids mo, mo)); report_when_empty w ids
