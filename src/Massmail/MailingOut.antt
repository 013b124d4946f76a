-- ===== src/Massmail/MailingOut.antt =====
-- massmail/models/mailing_out.py: a mailing and the ids of its recipients. A method returns the
-- changed object; `none` is ValueError, raised by `int` on a malformed field or by `list.remove`.
pub mod Transfer
use django_crm_marscode.Prelude.{
  ℕ, zero, suc, ◌+◌, ◌-◌, ◌*◌, ◌/◌, ◌%◌, ◌≤◌, ◌<◌, String, ◌≡◌, refl, sym, ap, ◌∙◌, ◌≢◌, ◌↔◌, ◌⊎◌,
  inl, inr, Bool, true, false, not, ◌&&◌, ◌||◌, Option, none, some, List, [], ◌∷◌, ◌++◌, map,
  append_assoc, append-nil, arith, ltb, leb, ◌==◌, if◌then◌else◌, opt_eq, is_some, ltb→lt, lt→ltb,
  leb→le, ==_iff, ==_self, Bool-cases, Option-cases, length, length-append, All, filter, find, any,
  all, contains, remove_first, count, count-append, contains-append, remove_first-contains,
  remove_first_missing, count-remove_first,
}
use django_crm_marscode.Prelude.Exec.{
  exec, Exec, then_do, ◌>>=◌, ◌>>◌, pure, raise, gets, modify, lift, catch_do, try_except, for_each,
  Keeps,
}
use django_crm_marscode.Massmail.Ids.{Text, get_ids, join_ids}

pub data Status : Type 0 where
  active active_but_error paused interrupted done : Status

-- The kinds of recipients that the program mails to.
pub data Kind : Type 0 where
  contact company lead : Kind

abbrev pub kind_eq : Kind → Kind → Bool
kind_eq contact contact = true
kind_eq company company = true
kind_eq lead lead = true
kind_eq _ _ = false

-- The entries of a report, newest first: each is a text that the program puts in front, or the mark
-- between the reports of merged mailings.
pub data Line : Type 0 where
  success : (date : ℕ) → Line
  failure : (account object_id : ℕ) → (off : Bool) → Line
  merged_mark : Line

pub record MailingOut : Type 0 where
  pub ident : ℕ
  pub owner : Option ℕ
  pub status : Status
  pub kind : Kind
  pub message : Option ℕ
  pub recipients_number : ℕ
  pub recipient_ids : Text
  pub successful_ids : Text
  pub failed_ids : Text
  pub report : List Line
  pub today_count : ℕ
  pub sending_date : Option ℕ

unfoldable pub get_recipient_ids : MailingOut → Option (List ℕ)
get_recipient_ids mo = get_ids mo.recipient_ids

unfoldable pub get_successful_ids : MailingOut → Option (List ℕ)
get_successful_ids mo = get_ids mo.successful_ids

unfoldable pub get_failed_ids : MailingOut → Option (List ℕ)
get_failed_ids mo = get_ids mo.failed_ids

-- `ids.remove(recipient_id)` on what the field holds
abbrev without : ℕ → Option (List ℕ) → Option (List ℕ)
without rid none = none
without rid (some ids) = remove_first rid ids

unfoldable pub remove_recipient_ids : ℕ → Exec MailingOut (Unit {0})
unfolding get_recipient_ids
remove_recipient_ids rid mo = elim (without rid (get_recipient_ids mo)) [
  | none ↦ (none, mo)
  | some ids ↦ (some tt, record mo { recipient_ids = join_ids ids })
]

-- `successful_ids.append(recipient_id)`
add_successful : ℕ → Exec MailingOut (Unit {0})
unfolding get_successful_ids
add_successful rid mo = elim (get_successful_ids mo) [
  | none ↦ (none, mo)
  | some ids ↦ (some tt, record mo { successful_ids = join_ids (ids ++ (rid ∷ [])) })
]

-- `failed_ids.append(recipient_id)`
add_failed : ℕ → Exec MailingOut (Unit {0})
unfolding get_failed_ids
add_failed rid mo = elim (get_failed_ids mo) [
  | none ↦ (none, mo)
  | some ids ↦ (some tt, record mo { failed_ids = join_ids (ids ++ (rid ∷ [])) })
]

-- Without the save at the end, which the caller's table makes.
unfoldable pub move_to_successful_ids : ℕ → Exec MailingOut (Unit {0})
unfolding remove_recipient_ids add_successful exec
move_to_successful_ids rid = do remove_recipient_ids rid; add_successful rid

unfoldable pub move_to_failed_ids : ℕ → Exec MailingOut (Unit {0})
unfolding remove_recipient_ids add_failed exec
move_to_failed_ids rid = do remove_recipient_ids rid; add_failed rid

abbrev both : Option (List ℕ) → Option (List ℕ) → Option (List ℕ)
both (some rs) (some fs) = some (rs ++ fs)
both _ _ = none

unfoldable pub move_to_recipient_ids : Exec MailingOut (Unit {0})
unfolding get_recipient_ids get_failed_ids
move_to_recipient_ids mo = elim (both (get_recipient_ids mo) (get_failed_ids mo)) [
  | none ↦ (none, mo)
  | some ids ↦ (some tt, record mo { recipient_ids = join_ids ids; failed_ids = [] })
]

-- massmail/views/send_failed_recipients.py: the mailing is active again, with the failed
-- recipients.
unfoldable pub send_failed_recipients : Exec MailingOut (Unit {0})
unfolding move_to_recipient_ids
send_failed_recipients mo = move_to_recipient_ids (record mo { status = active })
