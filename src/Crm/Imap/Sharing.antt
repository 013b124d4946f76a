-- ===== src/Crm/Imap/Sharing.antt =====
-- crm/utils/manage_imaps.py and `lock` of crm/utils/crm_imap.py: runs of threads that come to use one
-- connection, and the runs in which they do not come between each other.
use django_crm_marscode.Prelude.{}
use django_crm_marscode.Prelude.Exec.{}
use django_crm_marscode.Prelude.{}
use django_crm_marscode.Prelude.Exec.{}
use django_crm_marscode.Prelude.{}
use django_crm_marscode.Prelude.Exec.{}
use django_crm_marscode.Prelude.{}
use django_crm_marscode.Prelude.Exec.{}
use django_crm_marscode.Prelude.{}
use django_crm_marscode.Prelude.Exec.{}
use django_crm_marscode.Prelude.{}
use django_crm_marscode.Prelude.Exec.{}
use django_crm_marscode.Prelude.{}
use django_crm_marscode.Prelude.Exec.{}
use django_crm_marscode.Prelude.{arith, ==_self}
use django_crm_marscode.Crm.Imap.Manager.{
  Pool, read_unlocked, set_locked, test_absent, store_new, keep_test, keep_set, keep_take, Reach,
  start, later, Calm, calm_start, calm_step, calm_lock, calm_create, calm_keep,
}

-- The runs in which the threads do not come between each other are runs.
Calm-Reach : (s : Pool) → Calm s → Reach s
Calm-Reach _ calm_start = start
Calm-Reach _ (calm_step {s} {s'} r step plain) = later (Calm-Reach s r) step
Calm-Reach _ (calm_lock {s} t c r h free) =
    later (later (Calm-Reach s r) (read_unlocked t c h free))
      (set_locked t c (ground (arith, ==_self t)))
Calm-Reach _ (calm_create {s} t r h none') =
    later (later (Calm-Reach s r) (test_absent t h none')) (store_new t (ground (arith, ==_self t)))
Calm-Reach _ (calm_keep {s} t c r h there free) =
    later
      (later (later (Calm-Reach s r) (keep_test t c h there free))
        (keep_set t c (ground (arith, ==_self t)) there))
      (keep_take t c (ground (arith, ==_self t)) there)
