-- ===== src/Massmail/Queue.antt =====
-- massmail/models/eml_accounts_queue.py: the round-robin queue of a user's email accounts, and its
-- clients in massmail/models/email_account.py and massmail/site/emailaccountadmin.py.
pub mod Rotation
use django_crm_marscode.Prelude.{
  ℕ, Option, Bool, List, remove_first, true, ◌++◌, none, false, some, ◌∷◌, [], length,
  if◌then◌else◌, contains,
}
use django_crm_marscode.Prelude.Exec.{Exec, ◌>>=◌, ◌>>◌, pure, raise, modify, gets, lift}

-- The text field `queue`: what `json.loads` makes of it. It is a list of ids, or the empty text, on
-- which `json.loads` raises.
pub data QueueText : Type 0 where
  empty_text : QueueText
  dumped : List ℕ → QueueText

pub record EmlAccountsQueue : Type 0 where
  pub ident : ℕ
  pub owner : Option ℕ
  pub queue : QueueText

-- `json.loads(self.queue)`, an exception on the empty text
unfoldable pub loads : QueueText → Option (List ℕ)
loads empty_text = none
loads (dumped ids) = some ids

abbrev is_blank : QueueText → Bool
is_blank empty_text = true
is_blank (dumped ids) = false

unfoldable pub get_queue : EmlAccountsQueue → Option (List ℕ)
unfolding loads
get_queue q = elim (loads q.queue) [
  | none ↦ none
  | some ids ↦ some (if is_blank q.queue then [] else ids)
]

unfoldable pub queue_length : EmlAccountsQueue → Option ℕ
unfolding get_queue
queue_length q = elim (get_queue q) [ none ↦ none | some ids ↦ some (length ids) ]

-- `queue.pop(0)` and `queue.append(account_id)`
abbrev rotated : ℕ → List ℕ → List ℕ
rotated a rest = rest ++ (a ∷ [])

abbrev next_of : EmlAccountsQueue → List ℕ → Option ℕ × EmlAccountsQueue
next_of q [] = (none, q)
next_of q (a ∷ rest) = (some a, record q { queue = dumped (rotated a rest) })

-- The returned account id, `none` inside for Python's None.
unfoldable pub get_next : Exec EmlAccountsQueue (Option ℕ)
unfolding get_queue
get_next q = elim (get_queue q) [
  | none ↦ (none, q)
  | some ids ↦ (some (next_of q ids).0, (next_of q ids).1)
]

unfoldable pub add_id : ℕ → Exec EmlAccountsQueue (Unit {0})
unfolding get_queue
add_id account_id q = elim (get_queue q) [
  | none ↦ (none, q)
  | some ids ↦ (
    some tt,
    if contains account_id ids then q else record q { queue = dumped (ids ++ (account_id ∷ [])) },
  )
]

-- `queue.remove(account_id)`, made after the test that it is there
abbrev pub without : ℕ → List ℕ → List ℕ
without a ids = elim (remove_first a ids) [ none ↦ ids | some rest ↦ rest ]

unfoldable pub remove_id : ℕ → Exec EmlAccountsQueue (Unit {0})
unfolding get_queue
remove_id account_id q = elim (get_queue q) [
  | none ↦ (none, q)
  | some ids ↦ (
    some tt,
    if contains account_id ids then record q { queue = dumped (without account_id ids) } else q,
  )
]
