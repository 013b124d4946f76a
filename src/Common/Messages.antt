-- ===== src/Common/Messages.antt =====
-- Messages for another user, stored in the profile: `save_message` of common/utils/helpers.py and
-- `activate_stored_messages_to_user` of common/utils/usermiddleware.py.
use django_crm_marscode.Prelude.{}
use django_crm_marscode.Prelude.Exec.{}
use django_crm_marscode.Prelude.{refl, Bool, true, false, if◌then◌else◌, All}
use django_crm_marscode.Prelude.{
  String, ◌≡◌, ap, ◌∙◌, inl, inr, Option, none, some, List, [], ◌∷◌, ◌++◌, append_assoc, append-nil,
  arith, Option-cases,
}

-- `profile.messages`: texts and levels by turns, in one list.
abbrev pub Stored : Type 0
Stored = List String

unfoldable pub save_message : String → String → Stored → Stored
save_message msg level messages = messages ++ (msg ∷ level ∷ [])

-- A message that the user is shown; `level` is the name of the level, an attribute of Django's module
-- of messages.
pub record Shown : Type 0 where
  pub msg : String
  pub level : String

-- The `while` loop: `none` is IndexError, from `pop(0)` on the empty list, or AttributeError, from
-- `getattr(messages, level)`, where `is_level` tells which attributes there are.
unfoldable pub pop_pairs : (String → Bool) → Stored → Option (List Shown)
pop_pairs is_level [] = some []
pop_pairs is_level (msg ∷ []) = none
pop_pairs is_level (msg ∷ level ∷ rest) =
    let others = pop_pairs is_level rest in
    if is_level level
    then elim others [
      | none ↦ none
      | some shown ↦ some (record { msg = msg; level = level } ∷ shown)
    ]
    else none

-- What is shown, and what is stored afterwards. An exception leaves the stored list as it was.
unfoldable pub activate_stored_messages_to_user :
    (String → Bool) → Stored → Option (List Shown) × Stored
unfolding pop_pairs
activate_stored_messages_to_user is_level messages = elim (pop_pairs is_level messages) [
  | none ↦ (none, messages)
  | some shown ↦ (some shown, [])
]

-- Several calls of `save_message`, in turn.
abbrev pub save_all : List Shown → Stored → Stored
save_all [] messages = messages
save_all (m ∷ ms) messages = save_all ms (save_message m.msg m.level messages)

pop_pairs-append :
    (is_level : String → Bool) (messages : Stored) (shown : List Shown) (msg level : String)
    → is_level level ≡ true
    → pop_pairs is_level messages ≡ some shown
    → pop_pairs is_level (messages ++ (msg ∷ level ∷ []))
      ≡ some (shown ++ (record { msg = msg; level = level } ∷ []))
unfolding pop_pairs
pop_pairs-append is_level [] shown msg level known h = ground arith
pop_pairs-append is_level (m ∷ []) shown msg level known h = cc
pop_pairs-append is_level (m ∷ l ∷ rest) shown msg level known h =
    elim (Option-cases (pop_pairs is_level rest)) [
      | inl e ↦ ground arith
      | inr (s, e) ↦ ground (arith, pop_pairs-append is_level rest s msg level known e)
    ]

pop_pairs-save_all :
    (is_level : String → Bool) (ms : List Shown) (messages : Stored) (shown : List Shown)
    → All (λ m. is_level m.level ≡ true) ms
    → pop_pairs is_level messages ≡ some shown
    → pop_pairs is_level (save_all ms messages) ≡ some (shown ++ ms)
unfolding save_message
pop_pairs-save_all is_level [] messages shown known h = rw append-nil h
pop_pairs-save_all is_level (m ∷ ms) messages shown known h =
    pop_pairs-save_all is_level ms _ _ known.1
      (pop_pairs-append is_level messages shown m.msg m.level known.0 h)
    ∙ ap {B = Option (List Shown)} some (append_assoc shown (m ∷ []) ms)

-- Messages whose levels Django knows, saved for a user after a list of earlier messages that can be
-- shown, are shown with their levels, behind the earlier ones and in the order in which they were
-- saved, and the stored list is then empty.
pub activate-save_all :
    (is_level : String → Bool) (ms : List Shown) (messages : Stored) (shown : List Shown)
    → All (λ m. is_level m.level ≡ true) ms
    → pop_pairs is_level messages ≡ some shown
    → activate_stored_messages_to_user is_level (save_all ms messages) ≡ (some (shown ++ ms), [])
unfolding activate_stored_messages_to_user
activate-save_all is_level ms messages shown known h =
    ground (arith, pop_pairs-save_all is_level ms messages shown known h)

-- One message of a level that Django does not know blocks those behind it, and stays stored.
activate-unknown :
    (is_level : String → Bool) (msg level : String) (rest : Stored)
    → is_level level ≡ false
    → activate_stored_messages_to_user is_level (msg ∷ level ∷ rest) ≡ (none, msg ∷ level ∷ rest)
unfolding activate_stored_messages_to_user pop_pairs
activate-unknown is_level msg level rest unknown =
    rw (activate_stored_messages_to_user, pop_pairs, unknown) refl
