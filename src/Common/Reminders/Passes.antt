-- ===== src/Common/Reminders/Passes.antt =====
-- What a pass of the sender of reminders does.
use django_crm_marscode.Prelude.{none}
use django_crm_marscode.Prelude.{
  ℕ, ◌+◌, ◌≡◌, refl, sym, inl, inr, Bool, true, false, not, ◌&&◌, ◌||◌, Option, some, List, [], ◌∷◌,
  arith, ◌==◌, if◌then◌else◌, opt_eq, Bool-cases, Option-cases, any, all,
}
use mathlib.Core.Path.{subst}
use django_crm_marscode.Common.Reminders.{
  Reminder, Event, message, email, no_email, State, object_exists, clear_remind_me, is_due,
  is_notified, notification, served, after_row, serve, Pass, send_remainders, after_row,
  notification, served,
}

-- How many messages a user gets.
abbrev pub messages : ℕ → List Event → ℕ
messages a [] = 0
messages a (message u ∷ es) = (if a == u then 1 else 0) + messages a es
messages a (email u ∷ es) = messages a es
messages a (no_email u ∷ es) = messages a es

-- How many reminders of the user are due.
abbrev pub owed : ℕ → ℕ → List Reminder → ℕ
owed now a [] = 0
owed now a (r ∷ rs) = (if is_due now r && opt_eq r.owner (some a) then 1 else 0) + owed now a rs

-- The owner is there and is notified, or somebody is in its place.
abbrev pub is_owner_notified : (ℕ → Bool) → (ℕ → Bool) → Option ℕ → Reminder → Bool
is_owner_notified has_email admins none r = false
is_owner_notified has_email admins (some user) r = is_notified has_email admins user r

-- Every due reminder has an owner who is notified, and an object.
abbrev pub all_ready : (ℕ → Bool) → (ℕ → Bool) → ℕ → State → List Reminder → Bool
all_ready has_email admins now objects = all (λ r.
    not (is_due now r)
    || (is_owner_notified has_email admins r.owner r && object_exists r.content objects))

object_exists-clear :
    (j k : ℕ) (objects : State)
    → object_exists j (clear_remind_me k objects) ≡ object_exists j objects
object_exists-clear j k [] = refl
object_exists-clear j k (o ∷ os) = ground (arith, object_exists-clear j k os)

all_ready-clear :
    (has_email admins : ℕ → Bool) (now k : ℕ) (objects : State) (rs : List Reminder)
    → all_ready has_email admins now (clear_remind_me k objects) rs
      ≡ all_ready has_email admins now objects rs
all_ready-clear has_email admins now k objects [] = refl
all_ready-clear has_email admins now k objects (r ∷ rs) = ground (
  arith,
  object_exists-clear r.content k objects,
  all_ready-clear has_email admins now k objects rs,
)

-- What a pass with no exception has done.
record Served (now : ℕ) (rows : List Reminder) (p : Pass) : Type 0 where
  ok : p.ok ≡ true
  told : (a : ℕ) → messages a p.events ≡ owed now a rows
  none_due : any (is_due now) p.rows ≡ false

after_served :
    (has_email : ℕ → Bool) (now user : ℕ) (r : Reminder) (rest : Pass) (rs : List Reminder)
    → is_due now r ≡ true
    → r.owner ≡ some user
    → Served now rs rest
    → Served now
        (r ∷ rs)
        (after_row (message user ∷ notification has_email user r) (served has_email user r) rest)
after_served has_email now user r rest rs due owner s = record {
  ok = s.ok;
  told = λ a. ground (arith, s.told a, owed-head a);
  none_due = s.none_due;
}
  where
    owed-head : (a : ℕ) → opt_eq r.owner (some a) ≡ (user == a)
    owed-head a = rw owner refl

serve_ready :
    (has_email admins : ℕ → Bool) (r : Reminder) (owner : Option ℕ) (user : ℕ) (rest stop : Pass)
    → owner ≡ some user
    → is_notified has_email admins user r ≡ true
    → serve has_email admins r owner true rest stop
      ≡ after_row (message user ∷ notification has_email user r) (served has_email user r) rest
serve_ready has_email admins r owner user rest stop h told = rw h (rw told refl)

send_remainders-due :
    (has_email admins : ℕ → Bool) (now user : ℕ) (r : Reminder) (rows : List Reminder)
    (objects : State)
    → is_due now r ≡ true
    → r.owner ≡ some user
    → object_exists r.content objects ≡ true
    → is_notified has_email admins user r ≡ true
    → send_remainders has_email admins now (r ∷ rows) objects
      ≡ after_row
          (message user ∷ notification has_email user r)
          (served has_email user r)
          (send_remainders has_email admins now rows (clear_remind_me r.content objects))
unfolding send_remainders
send_remainders-due has_email admins now user r rows objects due owner there told =
    rw due (rw there (serve_ready has_email admins r r.owner user _ _ owner told))

owner_told :
    (has_email admins : ℕ → Bool) (owner : Option ℕ) (user : ℕ) (r : Reminder)
    → owner ≡ some user
    → is_owner_notified has_email admins owner r ≡ true
    → is_notified has_email admins user r ≡ true
owner_told has_email admins owner user r h told = (rw h at told)

owner_missing :
    (has_email admins : ℕ → Bool) (owner : Option ℕ) (r : Reminder)
    → owner ≡ none
    → is_owner_notified has_email admins owner r ≡ true
    → false ≡ true
owner_missing has_email admins owner r h told = (rw h at told)

send_remainders-Served :
    (has_email admins : ℕ → Bool) (now : ℕ) (rows : List Reminder) (objects : State)
    → all_ready has_email admins now objects rows ≡ true
    → Served now rows (send_remainders has_email admins now rows objects)
unfolding send_remainders
send_remainders-Served has_email admins now [] objects h = record {
  ok = refl;
  told = λ a. refl;
  none_due = refl;
}
send_remainders-Served has_email admins now (r ∷ rows) objects h =
    elim (Bool-cases (is_due now r)) [
      | inl due ↦ elim (Option-cases r.owner) [
        | inl nobody ↦ absurd (ground (arith, owner_missing has_email admins r.owner r nobody))
        | inr (user, owner) ↦
            let there : object_exists r.content objects ≡ true = ground arith in
            let told : is_notified has_email admins user r ≡ true =
              owner_told has_email admins r.owner user r owner (ground arith) in
            let rest =
              send_remainders has_email admins now rows (clear_remind_me r.content objects) in
            subst (Served now (r ∷ rows))
              (sym
                (send_remainders-due has_email admins now user r rows objects due owner there told))
              (after_served has_email now user r rest rows due owner (
                send_remainders-Served has_email admins now rows (clear_remind_me r.content objects)
                  (ground (arith, all_ready-clear has_email admins now r.content objects rows))))
      ]
      | inr later ↦
          let s = send_remainders-Served has_email admins now rows objects (ground arith) in
          rw later (record {
            ok = s.ok;
            told = λ a. ground (arith, s.told a);
            none_due = ground (arith, s.none_due);
          })
    ]

-- A pass when nothing is due does nothing.
send_remainders_idle :
    (has_email admins : ℕ → Bool) (now : ℕ) (rows : List Reminder) (objects : State)
    → any (is_due now) rows ≡ false
    → send_remainders has_email admins now rows objects
      ≡ record { ok = true; events = []; rows = rows; objects = objects }
unfolding send_remainders
send_remainders_idle has_email admins now [] objects h = refl
send_remainders_idle has_email admins now (r ∷ rows) objects h =
    let later : is_due now r ≡ false = ground arith in
    rw later (rw (send_remainders_idle has_email admins now rows objects (ground arith)) refl)

-- Where every due reminder has an object and an owner, and each owner with no address of a reminder
-- that asks for an email can be reported to the administrators, a pass runs to its end, gives each
-- user one message for each of its due reminders, and leaves none due. A second pass at the same time then
-- does nothing.
pub send_remainders_lem :
    (has_email admins : ℕ → Bool) (now : ℕ) (rows : List Reminder) (objects objects' : State)
    → all_ready has_email admins now objects rows ≡ true
    → ((send_remainders has_email admins now rows objects).ok ≡ true)
      × ((a : ℕ)
          → messages a (send_remainders has_email admins now rows objects).events ≡ owed now a rows)
      × (any (is_due now) (send_remainders has_email admins now rows objects).rows ≡ false)
      × (send_remainders has_email admins now
            (send_remainders has_email admins now rows objects).rows
            objects'
          ≡ record {
            ok = true;
            events = [];
            rows = (send_remainders has_email admins now rows objects).rows;
            objects = objects';
          })
send_remainders_lem has_email admins now rows objects objects' h =
    let s = send_remainders-Served has_email admins now rows objects h in
    (s.ok, s.told, s.none_due, send_remainders_idle has_email admins now _ objects' s.none_due)
