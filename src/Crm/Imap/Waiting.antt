-- ===== src/Crm/Imap/Waiting.antt =====
-- crm/utils/crm_imap.py: the two waits of a connection, for its release by another thread and for the
-- lock file of its host. `none` is the RuntimeError at the limit.
use django_crm_marscode.Prelude.{
  ℕ, zero, suc, ◌+◌, ◌<◌, ◌≡◌, refl, sym, ap, ◌∙◌, inl, inr, Bool, true, false, Option, none, some,
  arith, ◌==◌, if◌then◌else◌, ==_iff, Bool-cases,
}

-- `release_limit` and `lockfile_limit`: 60 and 20 seconds in naps of 0.03 and 0.01 seconds.
abbrev pub release_limit : ℕ
release_limit = 2000

abbrev pub lockfile_limit : ℕ
lockfile_limit = 2000

-- `while self.locked` with a counter that is positive; `locked i` is what the round with number `i`
-- reads. The value is the number of the round that finds the connection unlocked.
unfoldable pub await_release : ℕ → (ℕ → Bool) → ℕ → Option ℕ
await_release zero locked i = none
await_release (suc n) locked i =
    let rest = await_release n locked (suc i) in
    if locked i then (if n == 0 then none else rest) else some i

-- `CrmIMAP.lock`
unfoldable pub lock : (ℕ → Bool) → Option ℕ
lock locked = await_release release_limit locked 0

-- `while counter` of `_open_lockfile`; `taken i` tells whether the try with number `i` fails.
unfoldable pub await_lockfile : ℕ → (ℕ → Bool) → ℕ → Option ℕ
await_lockfile zero taken i = none
await_lockfile (suc n) taken i =
    let rest = await_lockfile n taken (suc i) in if taken i then rest else some i

-- `CrmIMAP._open_lockfile`, where connections are reused.
unfoldable pub open_lockfile : (ℕ → Bool) → Option ℕ
open_lockfile taken = await_lockfile lockfile_limit taken 0

-- The first number below the bound, counted from the start, that the test is false of.
unfoldable pub first_free : ℕ → (ℕ → Bool) → ℕ → Option ℕ
first_free zero test i = none
first_free (suc n) test i = elim (test i) [ true ↦ first_free n test (suc i) | false ↦ some i ]

first_free-true :
    (n : ℕ) (test : ℕ → Bool) (i : ℕ)
    → test i ≡ true
    → first_free (suc n) test i ≡ first_free n test (suc i)
unfolding first_free
first_free-true n test i busy = rw (first_free, busy) refl

first_free-false :
    (n : ℕ) (test : ℕ → Bool) (i : ℕ) → test i ≡ false → first_free (suc n) test i ≡ some i
unfolding first_free
first_free-false n test i free = rw (first_free, free) refl

positive : (n : ℕ) → (suc n == 0) ≡ false
positive n = ground (arith, ==_iff (suc n) 0)

await_release-first_free :
    (n : ℕ) (locked : ℕ → Bool) (i : ℕ) → await_release n locked i ≡ first_free n locked i
unfolding await_release first_free
await_release-first_free zero locked i = refl
await_release-first_free (suc zero) locked i = ground arith
await_release-first_free (suc (suc n)) locked i =
    let ih = await_release-first_free (suc n) locked (suc i) in
    elim (Bool-cases (locked i)) [
      | inl taken ↦ rw (taken, positive n) (ih ∙ sym (first_free-true (suc n) locked i taken))
      | inr free ↦ rw free (sym (first_free-false (suc n) locked i free))
    ]

await_lockfile-first_free :
    (n : ℕ) (taken : ℕ → Bool) (i : ℕ) → await_lockfile n taken i ≡ first_free n taken i
unfolding await_lockfile first_free
await_lockfile-first_free zero taken i = refl
await_lockfile-first_free (suc n) taken i =
    let ih = await_lockfile-first_free n taken (suc i) in
    elim (Bool-cases (taken i)) [
      | inl held ↦ rw held (ih ∙ sym (first_free-true n taken i held))
      | inr free ↦ rw free (sym (first_free-false n taken i free))
    ]

first_free_found :
    (n : ℕ) (test : ℕ → Bool) (i k : ℕ)
    → k < n
    → ((j : ℕ) → j < k → test (j + i) ≡ true)
    → test (k + i) ≡ false
    → first_free n test i ≡ some (k + i)
unfolding first_free
first_free_found zero test i k less busy free = ground arith
first_free_found (suc n) test i zero less busy free =
    let here : 0 + i ≡ i = omega arith in
    let free' : test i ≡ false = ap test (sym here) ∙ free in
    first_free-false n test i free' ∙ ap (λ x. some x) (sym here)
first_free_found (suc n) test i (suc k) less busy free =
    let here : 0 + i ≡ i = omega arith in
    let next : (j : ℕ) → j + suc i ≡ suc j + i = λ j. omega arith in
    let busy' : test i ≡ true = ap test (sym here) ∙ busy 0 (omega arith) in
    first_free-true n test i busy'
    ∙ (first_free_found n test (suc i) k (omega arith)
          (λ j less'. ap test (next j) ∙ busy (suc j) (omega arith)) (ap test (next k) ∙ free)
        ∙ ap (λ x. some x) (next k))

first_free_missing :
    (n : ℕ) (test : ℕ → Bool) (i : ℕ)
    → ((j : ℕ) → j < n → test (j + i) ≡ true)
    → first_free n test i ≡ none
unfolding first_free
first_free_missing zero test i busy = refl
first_free_missing (suc n) test i busy =
    let here : 0 + i ≡ i = omega arith in
    let next : (j : ℕ) → j + suc i ≡ suc j + i = λ j. omega arith in
    let busy' : test i ≡ true = ap test (sym here) ∙ busy 0 (omega arith) in
    first_free-true n test i busy'
    ∙ first_free_missing n test (suc i) (λ j less. ap test (next j) ∙ busy (suc j) (omega arith))

from_zero : (j : ℕ) → j + 0 ≡ j
from_zero j = omega arith

-- The lock is taken in the first round that finds the connection unlocked, when that round is one of the
-- first 2000.
lock_lem :
    (locked : ℕ → Bool) (k : ℕ)
    → k < 2000
    → ((j : ℕ) → j < k → locked j ≡ true)
    → locked k ≡ false
    → lock locked ≡ some k
unfolding lock
lock_lem locked k less busy free =
    await_release-first_free release_limit locked 0
    ∙ first_free_found release_limit locked 0 k less
        (λ j less'. ap locked (from_zero j) ∙ busy j less') (ap locked (from_zero k) ∙ free)
    ∙ ap (λ x. some x) (from_zero k)

-- A connection that stays locked for 2000 rounds is not waited for any longer.
lock_given_up : (locked : ℕ → Bool) → ((j : ℕ) → j < 2000 → locked j ≡ true) → lock locked ≡ none
unfolding lock
lock_given_up locked busy =
    await_release-first_free release_limit locked 0
    ∙ first_free_missing release_limit locked 0 (λ j less. ap locked (from_zero j) ∙ busy j less)

-- The wait for the lock file ends as the wait for the connection does.
open_lockfile-lock : (taken : ℕ → Bool) → open_lockfile taken ≡ lock taken
unfolding lock open_lockfile
open_lockfile-lock taken =
    await_lockfile-first_free lockfile_limit taken 0
    ∙ sym (await_release-first_free release_limit taken 0)
