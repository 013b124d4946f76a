-- ===== src/Crm/Imap/Pages.antt =====
-- crm/utils/import_emails.py: the page of email headers, and what it does to the connection.
use django_crm_marscode.Prelude.Exec.{bind-run}
use django_crm_marscode.Prelude.{
  ℕ, ◌≡◌, refl, ap, ◌∙◌, Bool, true, false, not, ◌&&◌, Option, none, some, List, [], ◌∷◌, arith,
  if◌then◌else◌,
}
use django_crm_marscode.Crm.Imap.{
  Server, Connection, Answer, is_ok, content_of, execute, answered, release, search_unseen,
  search_all, fetch_headers, IsFree, execute_lem,
}
use django_crm_marscode.Prelude.Exec.{Exec, ◌>>=◌, ◌>>◌, pure, gets, exec}

abbrev pub is_nonempty : List ℕ → Bool
is_nonempty [] = false
is_nonempty (u ∷ uids) = true

abbrev pub release_with : Server → Option Answer → Exec Connection (Option Answer)
release_with v a = release v >> pure a

-- A page with emails on it: the connection is released before and after the answer is read.
abbrev pub show_headers : Server → List ℕ → Exec Connection (Option Answer)
show_headers v uids = do
  headers ← execute v (fetch_headers uids)
  release v
  if is_ok headers then pure (some headers) else release_with v (some headers)

abbrev pub show_page : Server → List ℕ → Answer → Exec Connection (Option Answer)
show_page v uids every = if is_nonempty uids then show_headers v uids else pure (some every)

abbrev pub search_page : Server → (List ℕ → List ℕ) → Exec Connection (Option Answer)
search_page v page = do
  every ← execute v search_all
  if is_ok every
      then show_page v (page (content_of every).uids) every
      else release_with v (some every)

-- `get_email_headers_page` with the connection it got; `page` chooses the uids of the page, as
-- Django's Paginator does. The value is the answer to the last command, if there was one.
unfoldable pub headers_page : Server → (List ℕ → List ℕ) → Exec Connection (Option Answer)
headers_page v page = do
  broken ← gets (λ s. s.error)
  if broken then release_with v none else (do
    unseen ← execute v search_unseen
    if is_ok unseen then search_page v page else release_with v (some unseen))

-- The server has accepted both searches, and no email is on the page.
abbrev pub nothing_to_show : Server → (List ℕ → List ℕ) → Connection → Bool
nothing_to_show v page s =
    let unseen = v.answer (search_unseen ∷ s.commands) in
    let every = v.answer (search_all ∷ search_unseen ∷ s.commands) in
    not s.error && is_ok unseen && is_ok every && not (is_nonempty (page (content_of every).uids))

if-locked :
    {A : Type 0} (b l : Bool) (m n : Exec Connection A) (s : Connection)
    → (m s).1.locked ≡ l
    → (n s).1.locked ≡ false
    → ((if b then m else n) s).1.locked ≡ (b && l)
if-locked true l m n s hm hn = hm
if-locked false l m n s hm hn = hn

bring_out : (a b c : Bool) → (b && (a && c)) ≡ (a && b && c)
bring_out a b c = ground arith

module _ (v : Server) (reuse : v.reuse ≡ true) where
  release_with-locked : (o : Option Answer) (s : Connection) → (release_with v o s).1.locked ≡ false
  unfolding release exec
  release_with-locked o s = rw reuse refl

  after_release :
      (b : Bool) (o o' : Option Answer) (s : Connection)
      → ((release v >> (if b then pure o else release_with v o')) s).1.locked ≡ false
  unfolding release exec
  after_release true o o' s = rw reuse refl
  after_release false o o' s = rw reuse refl

  module _ (free : IsFree v) where
    show_headers-locked :
        (uids : List ℕ) (s : Connection) → (show_headers v uids s).1.locked ≡ false
    show_headers-locked uids s =
        let (a, s') = answered v (fetch_headers uids) s in
        ap (λ r. r.1.locked)
          (bind-run (execute v (fetch_headers uids))
            (λ h. release v >> (if is_ok h then pure (some h) else release_with v (some h))) a s s'
            (execute_lem v (fetch_headers uids) s free))
        ∙ after_release (is_ok a) (some a) (some a) s'

    show_page-locked :
        (uids : List ℕ) (every : Answer) (s : Connection)
        → (show_page v uids every s).1.locked ≡ (s.locked && not (is_nonempty uids))
    unfolding pure
    show_page-locked [] every s = ground arith
    show_page-locked (u ∷ uids) every s = show_headers-locked (u ∷ uids) s ∙ ground arith

    search_page-locked :
        (page : List ℕ → List ℕ) (s : Connection)
        → (search_page v page s).1.locked ≡ (
            s.locked
            && is_ok (v.answer (search_all ∷ s.commands))
            && not (is_nonempty (page (content_of (v.answer (search_all ∷ s.commands))).uids)))
    search_page-locked page s =
        let (a, s') = answered v search_all s in
        let uids = page (content_of a).uids in
        ap (λ r. r.1.locked)
          (bind-run (execute v search_all)
            (λ every.
              if is_ok every
              then show_page v (page (content_of every).uids) every
              else release_with v (some every))
            a s s' (execute_lem v search_all s free))
        ∙ if-locked (is_ok a) _ (show_page v uids a) (release_with v (some a)) s'
            (show_page-locked uids a s') (release_with-locked (some a) s')
        ∙ bring_out s.locked (is_ok a) (not (is_nonempty uids))

    search_unless_error :
        (page : List ℕ → List ℕ) (s : Connection)
        → ((execute v search_unseen >>= (λ unseen.
              if is_ok unseen then search_page v page else release_with v (some unseen)))
            s).1.locked
          ≡ (is_ok (v.answer (search_unseen ∷ s.commands))
              && (s.locked
                  && is_ok (v.answer (search_all ∷ search_unseen ∷ s.commands))
                  && not (
                      is_nonempty (
                        page
                          (content_of (v.answer (search_all ∷ search_unseen ∷ s.commands))).uids))))
    search_unless_error page s =
        let (a, s') = answered v search_unseen s in
        ap (λ r. r.1.locked)
          (bind-run (execute v search_unseen)
            (λ unseen. if is_ok unseen then search_page v page else release_with v (some unseen)) a
            s s' (execute_lem v search_unseen s free))
        ∙ if-locked (is_ok a) _ (search_page v page) (release_with v (some a)) s'
            (search_page-locked page s') (release_with-locked (some a) s')

-- Where connections are reused and the lock file can always be had, showing a page frees the
-- connection, unless both searches succeed and find no email for the page; it then stays as it was.
pub headers_page-locked :
    (v : Server) (page : List ℕ → List ℕ) (s : Connection)
    → v.reuse ≡ true
    → IsFree v
    → (headers_page v page s).1.locked ≡ (s.locked && nothing_to_show v page s)
unfolding headers_page gets
headers_page-locked v page s reuse free =
    ap (λ r. r.1.locked)
      (bind-run (gets (λ h. h.error))
        (λ broken.
          if broken
          then release_with v none
          else (execute v search_unseen >>= (λ unseen.
              if is_ok unseen then search_page v page else release_with v (some unseen))))
        s.error s s refl)
    ∙ split s.error
  where
    unseen : Bool
    unseen = is_ok (v.answer (search_unseen ∷ s.commands))

    every : Bool
    every = is_ok (v.answer (search_all ∷ search_unseen ∷ s.commands))

    shown : Bool
    shown =
        is_nonempty (page (content_of (v.answer (search_all ∷ search_unseen ∷ s.commands))).uids)

    reorder : (l u e n : Bool) → (u && (l && e && n)) ≡ (l && (true && u && e && n))
    reorder l u e n = ground arith

    split :
        (b : Bool)
        → ((if b
              then release_with v none
              else (execute v search_unseen >>= (λ unseen.
                  if is_ok unseen then search_page v page else release_with v (some unseen))))
            s).1.locked
          ≡ (s.locked && (not b && unseen && every && not shown))
    split true = release_with-locked v reuse none s ∙ ground arith
    split false =
        search_unless_error v reuse free page s ∙ reorder s.locked unseen every (not shown)
