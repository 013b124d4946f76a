-- ===== src/Crm/Imap/Moving.antt =====
-- crm/utils/crm_imap.py: emails that are moved to another box.
use django_crm_marscode.Prelude.Exec.{bind-run}
use django_crm_marscode.Prelude.{
  ℕ, ◌≡◌, refl, ap, ◌∙◌, inl, inr, Bool, true, false, ◌||◌, some, List, ◌∷◌, if◌then◌else◌,
  Bool-cases,
}
use django_crm_marscode.Crm.Imap.{
  Command, Box, Server, Connection, is_ok, answered, if_selected_box, note_selected, select_box,
  uid_copy, uid_delete, move_to, delete_emails, move_emails_to_spam, select, copy, store_deleted,
  expunge, inbox, trash, spam, IsFree, execute_lem,
}
use django_crm_marscode.Prelude.Exec.{◌>>=◌, pure, exec}

-- Whether the box is selected, or gets selected, and the connection after it.
abbrev selection : Server → Box → Connection → Bool × Connection
selection v b s =
    if if_selected_box v b s
    then (true, s)
    else (let (a, s') = answered v (select b) s in (is_ok a, note_selected b (is_ok a) s'))

-- The commands that move the uids out of the inbox, the latest first.
abbrev pub moving : List ℕ → Box → List Command → List Command
moving uids b commands = expunge ∷ store_deleted uids ∷ copy uids b ∷ commands

abbrev pub inbox_selected : Server → Connection → Bool
inbox_selected v s = if_selected_box v inbox s || is_ok (v.answer (select inbox ∷ s.commands))

abbrev pub at_inbox : Server → Connection → List Command
at_inbox v s = if if_selected_box v inbox s then s.commands else select inbox ∷ s.commands

note_selected-commands :
    (b : Box) (ok : Bool) (s : Connection) → (note_selected b ok s).commands ≡ s.commands
note_selected-commands b true s = refl
note_selected-commands b false s = refl

selection_lem :
    (v : Server) (s : Connection)
    → ((selection v inbox s).0 ≡ inbox_selected v s)
      × ((selection v inbox s).1.commands ≡ at_inbox v s)
selection_lem v s = elim (Bool-cases (if_selected_box v inbox s)) [
  | inl selected ↦ rw selected (refl, refl)
  | inr other ↦
      rw other (refl, note_selected-commands inbox (is_ok (v.answer (select inbox ∷ s.commands))) _)
]

module _ (v : Server) (free : IsFree v) where
  select_box-run :
      (b : Box) (s : Connection)
      → select_box v b s ≡ (some (selection v b s).0, (selection v b s).1)
  unfolding select_box exec
  select_box-run b s = elim (Bool-cases (if_selected_box v b s)) [
    | inl selected ↦ rw selected refl
    | inr other ↦ rw other (rw (execute_lem v (select b) s free) refl)
  ]

  -- The three commands, whatever their answers are.
  move_selected :
      (uids : List ℕ) (b : Box) (s : Connection)
      → ((uid_copy v uids b >>= (λ copied. uid_delete v uids >>= (λ deleted. pure tt)))
          s).1.commands
        ≡ moving uids b s.commands
  unfolding uid_copy uid_delete exec
  move_selected uids b s =
      let s1 = (answered v (copy uids b) s).1 in
      let s2 = (answered v (store_deleted uids) s1).1 in
      rw (execute_lem v (copy uids b) s free)
        (rw (execute_lem v (store_deleted uids) s1 free) (rw (execute_lem v expunge s2 free) refl))

  move_if :
      (ok : Bool) (uids : List ℕ) (b : Box) (s : Connection)
      → ((if ok
            then (uid_copy v uids b >>= (λ copied. uid_delete v uids >>= (λ deleted. pure tt)))
            else pure tt)
          s).1.commands
        ≡ (if ok then moving uids b s.commands else s.commands)
  unfolding pure
  move_if true uids b s = move_selected uids b s
  move_if false uids b s = refl

  move_to-commands :
      (uids : List ℕ) (b : Box) (s : Connection)
      → (move_to v uids b s).1.commands
        ≡ (if inbox_selected v s then moving uids b (at_inbox v s) else at_inbox v s)
  move_to-commands uids b s =
      let (ok, s') = selection v inbox s in
      let (is_selected, commands) = selection_lem v s in
      ap (λ r. r.1.commands)
        (bind-run (select_box v inbox)
          (λ ok.
            if ok
            then (uid_copy v uids b >>= (λ copied. uid_delete v uids >>= (λ deleted. pure tt)))
            else pure tt)
          ok s s' (select_box-run inbox s))
      ∙ move_if ok uids b s'
      ∙ ap (λ x. if x then moving uids b s'.commands else s'.commands) is_selected
      ∙ ap (λ l. if inbox_selected v s then moving uids b l else l) commands

  -- Where the lock file can always be had: once the inbox is selected, emails that are deleted or
  -- marked as spam are copied to the box, marked as deleted and expunged from the inbox, whatever
  -- the server answers to the copy. Where the inbox cannot be selected, nothing more is asked.
  pub delete_emails-commands :
      (uids : List ℕ) (s : Connection)
      → ((delete_emails v uids s).1.commands
          ≡ (if inbox_selected v s then moving uids trash (at_inbox v s) else at_inbox v s))
        × ((move_emails_to_spam v uids s).1.commands
            ≡ (if inbox_selected v s then moving uids spam (at_inbox v s) else at_inbox v s))
  unfolding delete_emails move_emails_to_spam
  delete_emails-commands uids s = (move_to-commands uids trash s, move_to-commands uids spam s)
