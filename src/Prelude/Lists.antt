-- ===== src/Prelude/Lists.antt =====
-- Lists measured by native numbers, Python's list methods on them, and sets of ids as lists.
use Prim.Native.Nat.{ℕ, suc, ◌+◌}
use mathlib.Core.Path.{◌≡◌, refl, ap}
use mathlib.Core.Logic.{inl, inr}
use mathlib.Core.Bool.{Bool, true, false, not, ◌||◌, ◌&&◌}
use mathlib.Core.List.{List, [], ◌∷◌, ◌++◌}
use mathlib.Core.Option.{Option, none, some}
use native.Mathlib.Omega.{arith}
use django_crm_marscode.Prelude.Tests.{
  ◌==◌, if◌then◌else◌, ==_iff, ==_self, Bool-cases, Option-cases,
}

module _ {ℓ} {A : Type ℓ} where
  abbrev pub length : List A → ℕ
  length [] = 0
  length (x ∷ xs) = suc (length xs)

  pub length-append : (xs ys : List A) → length (xs ++ ys) ≡ length xs + length ys
  length-append [] ys = omega arith
  length-append (x ∷ xs) ys = omega (arith, length-append xs ys)

  -- A predicate on all elements, by recursion.
  abbrev pub All {κ} : (A → Type κ) → List A → Type κ
  All P [] = Unit
  All P (x ∷ xs) = P x × All P xs

  -- `queryset.filter(test)`
  abbrev pub filter : (A → Bool) → List A → List A
  filter p [] = []
  filter p (x ∷ xs) = if p x then x ∷ filter p xs else filter p xs

  -- `queryset.filter(test).first()`
  abbrev pub find : (A → Bool) → List A → Option A
  find p [] = none
  find p (x ∷ xs) = if p x then some x else find p xs

  -- `queryset.filter(test).exists()`
  abbrev pub any : (A → Bool) → List A → Bool
  any p [] = false
  any p (x ∷ xs) = p x || any p xs

  abbrev pub all : (A → Bool) → List A → Bool
  all p [] = true
  all p (x ∷ xs) = p x && all p xs

-- `a in xs`
abbrev pub contains : ℕ → List ℕ → Bool
contains a [] = false
contains a (x ∷ xs) = a == x || contains a xs

-- `xs.remove(a)`: the first occurrence goes; a missing one is ValueError, `none`.
abbrev pub remove_first : ℕ → List ℕ → Option (List ℕ)
remove_first a [] = none
remove_first a (x ∷ xs) =
    if x == a then some xs else elim (remove_first a xs) [ none ↦ none | some ys ↦ some (x ∷ ys) ]

-- How often `a` occurs.
abbrev pub count : ℕ → List ℕ → ℕ
count a [] = 0
count a (x ∷ xs) = (if a == x then 1 else 0) + count a xs

pub count-append :
    (key : ℕ) (front back : List ℕ) → count key (front ++ back) ≡ count key front + count key back
count-append key [] back = omega arith
count-append key (u ∷ front) back = omega (arith, count-append key front back)

pub contains-append :
    (a : ℕ) (xs ys : List ℕ) → contains a (xs ++ ys) ≡ (contains a xs || contains a ys)
contains-append a [] ys = refl
contains-append a (x ∷ xs) ys = ground (arith, contains-append a xs ys)

pub remove_first-contains :
    (a : ℕ) (xs : List ℕ) → contains a xs ≡ true → (ys : List ℕ) × (remove_first a xs ≡ some ys)
remove_first-contains a [] h = ground arith
remove_first-contains a (x ∷ xs) h = elim (Bool-cases (x == a)) [
  | inl same ↦ (xs, rw same)
  | inr other ↦
      let (ys, e) = remove_first-contains a xs (ground arith) in (x ∷ ys, ground (arith, e))
]

pub remove_first_missing : (a : ℕ) (xs : List ℕ) → contains a xs ≡ false → remove_first a xs ≡ none
remove_first_missing a [] h = refl
remove_first_missing a (x ∷ xs) h = ground (arith, remove_first_missing a xs)

-- Removing one occurrence takes one from its count and leaves the others.
pub count-remove_first :
    (b a : ℕ) (xs ys : List ℕ)
    → remove_first a xs ≡ some ys
    → count b xs ≡ (if b == a then 1 else 0) + count b ys
count-remove_first b a [] ys h = ground arith
count-remove_first b a (x ∷ xs) ys h = elim (Option-cases (remove_first a xs)) [
  | inl e ↦ ground arith
  | inr (zs, e) ↦ ground (arith, count-remove_first b a xs zs e)
]

pub contains-filter :
    (a : ℕ) (p : ℕ → Bool) (xs : List ℕ) → contains a (filter p xs) ≡ (p a && contains a xs)
contains-filter a p [] = ground arith
contains-filter a p (x ∷ xs) = elim (Bool-cases (a == x)) [
  | inl same ↦ ground (arith, ap p ((==_iff a x).0 same), contains-filter a p xs)
  | inr other ↦ ground (arith, contains-filter a p xs)
]

pub contains_none : (xs : List ℕ) → ((a : ℕ) → contains a xs ≡ false) → xs ≡ []
contains_none [] h = refl
contains_none (x ∷ xs) h = ground (arith, h x, ==_self x)

pub filter_all :
    (p : ℕ → Bool) (xs : List ℕ)
    → ((a : ℕ) → (contains a xs && not (p a)) ≡ false)
    → filter p xs ≡ xs
filter_all p [] h = refl
filter_all p (x ∷ xs) h = ground (arith, h x, ==_self x, filter_all p xs (λ a. ground (arith, h a)))
