-- ===== src/Crm/Imap/Exclusive.antt =====
-- crm/utils/manage_imaps.py: how many threads use a connection at once.
use django_crm_marscode.Prelude.{}
use django_crm_marscode.Prelude.Exec.{}
use django_crm_marscode.Prelude.{}
use django_crm_marscode.Prelude.Exec.{}
use django_crm_marscode.Prelude.{}
use django_crm_marscode.Prelude.Exec.{}
use django_crm_marscode.Prelude.{}
use django_crm_marscode.Prelude.Exec.{}
use django_crm_marscode.Prelude.{}
use django_crm_marscode.Prelude.Exec.{}
use django_crm_marscode.Prelude.{}
use django_crm_marscode.Prelude.Exec.{}
use django_crm_marscode.Prelude.{}
use django_crm_marscode.Prelude.Exec.{}
use django_crm_marscode.Prelude.{ℕ, ◌<◌, ◌≡◌, Bool, true, Option, none, some}
use django_crm_marscode.Crm.Imap.Manager.{Phase, looked, passed, checking, serving, Pool}

-- The connection that a thread uses.
abbrev pub used : Phase → Option ℕ
used (checking c) = some c
used (serving c) = some c
used _ = none

-- The connection that a thread has before its eyes.
abbrev pub had : Phase → Option ℕ
had (looked c) = some c
had (passed c) = some c
had (checking c) = some c
had (serving c) = some c
had _ = none

-- A connection is used by one thread at a time, which has locked it; those in use were made.
pub record Exclusive (s : Pool) : Type 0 where
  pub locked : (t c : ℕ) → used (s.phase t) ≡ some c → s.locked c ≡ true
  pub alone : (t u c : ℕ) → used (s.phase t) ≡ some c → used (s.phase u) ≡ some c → t ≡ u
  pub known : (t c : ℕ) → had (s.phase t) ≡ some c → c < s.made
  pub stored_known : (c : ℕ) → s.stored ≡ some c → c < s.made

-- What a thread may go over to: what it uses then is locked and used by nobody else.
record MayUse (t : ℕ) (s : Pool) (is_locked : ℕ → Bool) (c : ℕ) : Type 0 where
  locked : is_locked c ≡ true
  only : (u : ℕ) → used (s.phase u) ≡ some c → t ≡ u
