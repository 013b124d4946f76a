-- ===== src/Common/Reminders.antt =====
-- Reminders: common/utils/remind_me.py, which keeps the reminder of a task, project or deal with
-- its form, and `send_remainders` of common/utils/reminders_sender.py. Moments are counted in
-- minutes.
pub mod Passes
use django_crm_marscode.Prelude.{}
use django_crm_marscode.Prelude.Exec.{
  Exec, then_do, ◌>>=◌, ◌>>◌, pure, raise, gets, modify, lift, catch_do, try_except, for_each, exec,
  Keeps, Keeps-pure, Keeps-raise, Keeps-gets, Keeps-if, Keeps-try_except, Keeps-modify, Keeps-bind,
  Keeps-gets_bind, Keeps-seq, Keeps-for_each, keeps_rules, Returns,
}
use django_crm_marscode.Prelude.{
  ℕ, zero, suc, ◌+◌, ◌-◌, ◌*◌, ◌/◌, ◌%◌, ◌≤◌, ◌<◌, String, ◌≡◌, refl, sym, ap, ◌∙◌, ◌≢◌, ◌↔◌, ◌⊎◌,
  inl, inr, Bool, true, false, not, ◌&&◌, ◌||◌, Option, none, some, List, [], ◌∷◌, ◌++◌, map,
  append_assoc, append-nil, arith, ltb, leb, ◌==◌, if◌then◌else◌, opt_eq, is_some, ltb→lt, lt→ltb,
  leb→le, ==_iff, ==_self, Bool-cases, Option-cases, length, length-append, All, filter, find, any,
  all, contains, remove_first, count, count-append, contains-append, remove_first-contains,
  remove_first_missing, count-remove_first,
}
use text.Mathlib.Text.{◌==◌ as str_eq}

-- A row of Reminder; `content` is the pair of content type and object id, as one key.
pub record Reminder : Type 0 where
  pub content : ℕ
  pub subject : String
  pub description : String
  pub reminder_date : ℕ
  pub active : Bool
  pub send_notification_email : Bool
  pub owner : Option ℕ

-- The saved object; `next_step_date` counts days.
pub record Reminded : Type 0 where
  pub content : ℕ
  pub next_step : String
  pub next_step_date : ℕ
  pub remind_me : Bool

-- `change`, and which fields stand in `form.changed_data`.
pub record Changes : Type 0 where
  pub change : Bool
  pub remind_me : Bool
  pub next_step : Bool
  pub next_step_date : Bool

-- Ten minutes after the start of business: `start` is BUSINESS_TIME_START in minutes of the day.
abbrev pub reminder_date_of : ℕ → Reminded → ℕ
reminder_date_of start obj = obj.next_step_date * 1440 + (start + 10)

-- `filter(**params)` without the description: the active reminders of the user for the object.
abbrev pub is_own : ℕ → Reminded → Reminder → Bool
is_own user obj r = r.content == obj.content && (opt_eq r.owner (some user) && r.active)

abbrev pub is_described : Reminded → Reminder → Bool
is_described obj r = str_eq r.description obj.next_step

abbrev new_reminder : ℕ → ℕ → Reminded → Reminder
new_reminder start user obj = record {
  content = obj.content;
  subject = obj.next_step;
  description = obj.next_step;
  reminder_date = reminder_date_of start obj;
  active = true;
  send_notification_email = true;
  owner = some user;
}

-- `filter(...).update(...)`
abbrev update : (Reminder → Bool) → (Reminder → Reminder) → List Reminder → List Reminder
update test change [] = []
update test change (r ∷ rs) = (if test r then change r else r) ∷ update test change rs

abbrev moved : ℕ → Reminded → Reminder → Reminder
moved start obj r = record r { reminder_date = reminder_date_of start obj }

abbrev renamed : Reminded → Reminder → Reminder
renamed obj r = record r { subject = obj.next_step; description = obj.next_step }

unfoldable pub remind_me : ℕ → ℕ → Reminded → Changes → List Reminder → List Reminder
remind_me start user obj form rows =
    if obj.remind_me
    then (if not form.change || form.remind_me
        then rows ++ (new_reminder start user obj ∷ [])
        else if form.next_step_date && not form.next_step
        then update (λ r. is_own user obj r && is_described obj r) (moved start obj) rows
        else if form.next_step && not form.next_step_date
        then update (λ r. is_own user obj r && r.reminder_date == reminder_date_of start obj)
            (renamed obj) rows
        else if form.next_step && form.next_step_date
        then update (is_own user obj) (λ r. moved start obj (renamed obj r)) rows
        else rows)
    else if form.remind_me
    then filter (λ r. not (is_own user obj r && is_described obj r)) rows
    else rows

-- What a pass of the sender does for a reminder.
pub data Event : Type 0 where
  message email no_email : ℕ → Event

-- The object of a reminder, with its flag, which not every model has.
pub record ContentObject : Type 0 where
  pub content : ℕ
  pub remind_me : Bool

abbrev pub State : Type 0
State = List ContentObject

abbrev pub object_exists : ℕ → State → Bool
object_exists k = any (λ o. o.content == k)

-- `content_obj.remind_me = False` and its save, where the flag is set.
abbrev pub clear_remind_me : ℕ → State → State
clear_remind_me k [] = []
clear_remind_me k (o ∷ os) =
    (if o.content == k then record o { remind_me = false } else o) ∷ clear_remind_me k os

abbrev pub is_due : ℕ → Reminder → Bool
is_due now r = r.active && leb r.reminder_date now

-- The email, or the mail to the administrators.
abbrev pub notification : (ℕ → Bool) → ℕ → Reminder → List Event
notification has_email user r =
    if r.send_notification_email
    then (if has_email user then email user ∷ [] else no_email user ∷ [])
    else []

abbrev pub served : (ℕ → Bool) → ℕ → Reminder → Reminder
served has_email user r = record r {
  send_notification_email = r.send_notification_email && not (has_email user);
  active = false;
}

-- The outcome: whether the loop ran to its end, the events, the rows and the objects.
pub record Pass : Type 0 where
  pub ok : Bool
  pub events : List Event
  pub rows : List Reminder
  pub objects : State

abbrev pub after_row : List Event → Reminder → Pass → Pass
after_row events r p = record p { events = events ++ p.events; rows = r ∷ p.rows }

-- Whether the notification goes through: the mail to the administrators, which replaces the email to a
-- user with no address, raises an exception where `admins` is false of the user.
abbrev pub is_notified : (ℕ → Bool) → (ℕ → Bool) → ℕ → Reminder → Bool
is_notified has_email admins user r = not r.send_notification_email || has_email user || admins user

-- One due reminder, where the rest of the pass is `rest`, and `stop` the pass that an exception
-- ends: an object that is gone, or a reminder with no owner, raises AttributeError; where the mail to
-- the administrators raises, the message is already saved.
abbrev pub serve : (ℕ → Bool) → (ℕ → Bool) → Reminder → Option ℕ → Bool → Pass → Pass → Pass
serve has_email admins r (some user) true rest stop =
    if is_notified has_email admins user r
    then after_row (message user ∷ notification has_email user r) (served has_email user r) rest
    else record stop { events = message user ∷ [] }
serve has_email admins r _ _ rest stop = stop

-- The loop over the due reminders, in the order of the table.
unfoldable pub send_remainders : (ℕ → Bool) → (ℕ → Bool) → ℕ → List Reminder → State → Pass
send_remainders has_email admins now [] objects = record {
  ok = true;
  events = [];
  rows = [];
  objects = objects;
}
send_remainders has_email admins now (r ∷ rows) objects =
    let rest =
      send_remainders has_email admins now rows
        (if is_due now r then clear_remind_me r.content objects else objects) in
    if is_due now r
    then serve has_email admins r r.owner (object_exists r.content objects) rest
        (record { ok = false; events = []; rows = r ∷ rows; objects = objects })
    else after_row [] r rest
