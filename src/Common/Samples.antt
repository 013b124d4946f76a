-- ===== src/Common/Samples.antt =====
-- Concrete users, stored messages and emails, and each theorem about them at one input.
use django_crm_marscode.Prelude.{any}
use mathlib.Core.List.{reverse}
use text.Mathlib.Text.{◌==◌ as str_eq}
use django_crm_marscode.Prelude.{String, Bool, ◌||◌}
use django_crm_marscode.Common.Reminders.{Reminder, State, is_due, send_remainders}
use django_crm_marscode.Common.Reminders.Passes.{messages, owed, send_remainders_lem}
use django_crm_marscode.Prelude.{ℕ, ◌≡◌, refl, true, false, none, some, List, [], ◌∷◌, ◌++◌, All}
use django_crm_marscode.Common.Users.{Group, User, Request, number}
use django_crm_marscode.Common.Messages.{
  Shown, save_all, activate_stored_messages_to_user, activate-save_all, pop_pairs,
}
use django_crm_marscode.Common.Emails.{
  Recipient, Email, email_to_participants, mailed, times, email_to_participants_lem, opening,
}

abbrev managers : Group
managers = record { ident = 2; name = "managers"; is_department = false }

abbrev goods : Group
goods = record { ident = 7; name = "Global sales"; is_department = true }

abbrev andrew : User
andrew = record {
  ident = 4;
  is_superuser = false;
  is_superoperator = false;
  is_operator = false;
  is_chief = false;
  is_manager = false;
  is_accountant = false;
  is_task_operator = false;
  is_department_head = false;
  department_id = none;
}

-- A manager asks for the department 9, which is not its own.
abbrev asks_other : Request
asks_other = record { is_ajax = false; department = some (number 9) }

abbrev groups_of_andrew : List Group
groups_of_andrew = managers ∷ goods ∷ []

abbrev two_messages : List Shown
two_messages = record { msg = "a"; level = "INFO" } ∷ record { msg = "b"; level = "WARNING" } ∷ []

-- The names of two levels.
abbrev is_level : String → Bool
is_level level = str_eq level "INFO" || str_eq level "WARNING"

pop_one : pop_pairs is_level ("c" ∷ "INFO" ∷ []) ≡ some (record { msg = "c"; level = "INFO" } ∷ [])
unfolding pop_pairs
pop_one = refl

activate-save_all_example :
    activate_stored_messages_to_user is_level (save_all two_messages ("c" ∷ "INFO" ∷ []))
    ≡ (some ((record { msg = "c"; level = "INFO" } ∷ []) ++ two_messages), [])
activate-save_all_example =
    activate-save_all is_level two_messages ("c" ∷ "INFO" ∷ [])
      (record { msg = "c"; level = "INFO" } ∷ []) (refl, (refl, tt)) pop_one

abbrev recipients : List Recipient
recipients =
    record { ident = 1; language = 10 }
    ∷ record { ident = 2; language = 20 }
    ∷ record { ident = 3; language = 10 }
    ∷ []

email_to_participants_lem_example :
    (es : List Email) × (email_to_participants recipients none ≡ some es)
    × ((a : ℕ) → mailed a es ≡ times a recipients)
    × All (λ e. All (λ u. u.language ≡ e.language) e.to) es
    × ((l : ℕ) → opening none (reverse recipients) ≡ some l → All (λ e. e.subject ≡ l) es)
email_to_participants_lem_example = email_to_participants_lem recipients none

abbrev at_noon : Reminder
at_noon = record {
  content = 8;
  subject = "Call";
  description = "Call";
  reminder_date = 720;
  active = true;
  send_notification_email = true;
  owner = some 4;
}

abbrev known_objects : State
known_objects = record { content = 8; remind_me = true } ∷ []

send_remainders_lem_example :
    ((send_remainders (λ u. true) (λ u. true) 800 (at_noon ∷ []) known_objects).ok ≡ true)
    × ((a : ℕ)
        → messages a
            (send_remainders (λ u. true) (λ u. true) 800 (at_noon ∷ []) known_objects).events
          ≡ owed 800 a (at_noon ∷ []))
    × (any
          (is_due 800)
          (send_remainders (λ u. true) (λ u. true) 800 (at_noon ∷ []) known_objects).rows
        ≡ false)
    × (send_remainders
          (λ u. true)
          (λ u. true)
          800
          (send_remainders (λ u. true) (λ u. true) 800 (at_noon ∷ []) known_objects).rows
          known_objects
        ≡ record {
          ok = true;
          events = [];
          rows = (send_remainders (λ u. true) (λ u. true) 800 (at_noon ∷ []) known_objects).rows;
          objects = known_objects;
        })
send_remainders_lem_example =
    send_remainders_lem (λ u. true) (λ u. true) 800 (at_noon ∷ []) known_objects known_objects refl
