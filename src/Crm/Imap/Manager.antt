-- ===== src/Crm/Imap/Manager.antt =====
-- crm/utils/manage_imaps.py with `lock` and `release` of crm/utils/crm_imap.py: several threads that use
-- the connections to one account, where connections are reused. Another thread can come between any
-- two of these steps, which read or write what the threads share once.
use django_crm_marscode.Prelude.{}
use django_crm_marscode.Prelude.Exec.{}
use django_crm_marscode.Prelude.{
  ℕ, suc, ◌≡◌, Bool, true, false, Option, none, some, ◌==◌, if◌then◌else◌,
}

-- What a thread does with the account.
--   looked: it has the stored connection and is in `lock`; passed: it has read `locked` as False;
--   checking: it has set `locked`, and sends NOOP; serving: it has the connection;
--   missing: it goes on to create a connection; absent, present: its test of the storage is made;
--   keeping, kept: the pass that keeps connections alive has read `locked` as False, and has set it.
pub data Phase : Type 0 where
  idle missing absent present keeping kept : Phase
  looked passed checking serving : ℕ → Phase

-- The connection that `crmimap_storage` has, by its number, the attribute `locked` of each connection,
-- how many connections there were, and the threads.
pub record Pool : Type 0 where
  pub stored : Option ℕ
  pub locked : ℕ → Bool
  pub made : ℕ
  pub phase : ℕ → Phase

abbrev pub empty_pool : Pool
empty_pool = record { stored = none; locked = λ c. false; made = 0; phase = λ t. idle }

abbrev pub to : ℕ → Phase → Pool → Pool
to t p s = record s { phase = λ u. if t == u then p else s.phase u }

abbrev pub put_locked : ℕ → Bool → Pool → Pool
put_locked c b s = record s { locked = λ d. if c == d then b else s.locked d }

abbrev pub put_stored : Option ℕ → Pool → Pool
put_stored o s = record s { stored = o }

-- A new connection, which is locked from the start, is stored.
abbrev pub add_connection : Pool → Pool
add_connection s = record (put_locked s.made true s) { stored = some s.made; made = suc s.made }

pub data Step (s : Pool) : Pool → Type 0 where
  -- `crmimap_storage.get` in `_get_crmimap`
  look : (t c : ℕ) → s.phase t ≡ idle → s.stored ≡ some c → Step s (to t (looked c) s)
  look_none : (t : ℕ) → s.phase t ≡ idle → s.stored ≡ none → Step s (to t missing s)
  -- `self.locked` in `lock`, its limit, and `self.locked = True`
  read_unlocked : (t c : ℕ) → s.phase t ≡ looked c → s.locked c ≡ false → Step s (to t (passed c) s)
  give_up : (t c : ℕ) → s.phase t ≡ looked c → s.locked c ≡ true → Step s (to t idle s)
  set_locked : (t c : ℕ) → s.phase t ≡ passed c → Step s (to t (checking c) (put_locked c true s))
  -- the error flag and NOOP, and the deletion, which raises KeyError if another thread was faster
  accept : (t c : ℕ) → s.phase t ≡ checking c → Step s (to t (serving c) s)
  drop :
      (t c d : ℕ)
      → s.phase t ≡ checking c
      → s.stored ≡ some d
      → Step s (to t missing (put_stored none s))
  drop_gone : (t c : ℕ) → s.phase t ≡ checking c → s.stored ≡ none → Step s (to t idle s)
  -- `_create_crmimap`: the test and the two branches; a connection that is gone again raises
  test_absent : (t : ℕ) → s.phase t ≡ missing → s.stored ≡ none → Step s (to t absent s)
  test_present : (t c : ℕ) → s.phase t ≡ missing → s.stored ≡ some c → Step s (to t present s)
  store_new : (t : ℕ) → s.phase t ≡ absent → Step s (to t (serving s.made) (add_connection s))
  take : (t c : ℕ) → s.phase t ≡ present → s.stored ≡ some c → Step s (to t (serving c) s)
  take_none : (t : ℕ) → s.phase t ≡ present → s.stored ≡ none → Step s (to t idle s)
  -- the user ends, and calls `release` or does not
  release_it : (t c : ℕ) → s.phase t ≡ serving c → Step s (to t idle (put_locked c false s))
  leave : (t c : ℕ) → s.phase t ≡ serving c → Step s (to t idle s)
  -- `_keep_in_touch`: the test, the setting of `locked`, and `_serve_crmimap`
  keep_test :
      (t c : ℕ)
      → s.phase t ≡ idle
      → s.stored ≡ some c
      → s.locked c ≡ false
      → Step s (to t keeping s)
  keep_set :
      (t c : ℕ) → s.phase t ≡ keeping → s.stored ≡ some c → Step s (to t kept (put_locked c true s))
  keep_take : (t c : ℕ) → s.phase t ≡ kept → s.stored ≡ some c → Step s (to t (checking c) s)
  keep_gone : (t : ℕ) → s.phase t ≡ keeping → s.stored ≡ none → Step s (to t idle s)
  kept_gone : (t : ℕ) → s.phase t ≡ kept → s.stored ≡ none → Step s (to t idle s)

-- The states after runs of the threads.
pub data Reach : Pool → Type 0 where
  start : Reach empty_pool
  later : {s s' : Pool} → Reach s → Step s s' → Reach s'

-- The steps that are no part of a test and the write that relies on it.
abbrev pub is_plain : {s s' : Pool} → Step s s' → Bool
is_plain (read_unlocked t c h free) = false
is_plain (set_locked t c h) = false
is_plain (test_absent t h none') = false
is_plain (store_new t h) = false
is_plain (test_present t c h there) = false
is_plain (take t c h there) = false
is_plain (take_none t h none') = false
is_plain (keep_test t c h there free) = false
is_plain (keep_set t c h there) = false
is_plain (keep_take t c h there) = false
is_plain (keep_gone t h none') = false
is_plain (kept_gone t h none') = false
is_plain _ = true

-- The states after runs in which no other thread comes between the test of `locked` and its setting, nor
-- between the test of the storage and the new connection, nor into the start of the pass that keeps
-- connections alive, and no thread finds on creation that another one has stored a connection.
pub data Calm : Pool → Type 0 where
  calm_start : Calm empty_pool
  calm_step : {s s' : Pool} → Calm s → (step : Step s s') → is_plain step ≡ true → Calm s'
  calm_lock :
      {s : Pool} (t c : ℕ)
      → Calm s
      → s.phase t ≡ looked c
      → s.locked c ≡ false
      → Calm (to t (checking c) (put_locked c true (to t (passed c) s)))
  calm_create :
      {s : Pool} (t : ℕ)
      → Calm s
      → s.phase t ≡ missing
      → s.stored ≡ none
      → Calm (to t (serving s.made) (add_connection (to t absent s)))
  calm_keep :
      {s : Pool} (t c : ℕ)
      → Calm s
      → s.phase t ≡ idle
      → s.stored ≡ some c
      → s.locked c ≡ false
      → Calm (to t (checking c) (to t kept (put_locked c true (to t keeping s))))
