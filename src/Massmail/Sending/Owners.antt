-- ===== src/Massmail/Sending/Owners.antt =====
-- Which mailings `check_owners` keeps.
use django_crm_marscode.Prelude.{
  ℕ, ◌≡◌, refl, ap, inl, inr, true, false, ◌||◌, Option, none, some, List, [], ◌∷◌, ◌++◌, map,
  arith, if◌then◌else◌, opt_eq, ==_iff, ==_self, Bool-cases, find,
}
use django_crm_marscode.Massmail.MailingOut.{MailingOut}
use django_crm_marscode.Massmail.Sending.Objects.{owner_in, check_owners_from, check_owners}

-- The first mailing of an owner.
abbrev pub first_of_owner : Option ℕ → List MailingOut → Option MailingOut
first_of_owner o = find (λ mo. opt_eq mo.owner o)

opt_eq_sound : (o p : Option ℕ) → opt_eq o p ≡ true → o ≡ p
opt_eq_sound none none h = refl
opt_eq_sound none (some b) h = cc
opt_eq_sound (some a) none h = cc
opt_eq_sound (some a) (some b) h = ap {B = Option ℕ} some ((==_iff a b).0 h)

opt_eq_self : (o : Option ℕ) → opt_eq o o ≡ true
opt_eq_self none = refl
opt_eq_self (some a) = ==_self a

opt_eq_comm : (o p : Option ℕ) → opt_eq o p ≡ opt_eq p o
opt_eq_comm none none = refl
opt_eq_comm none (some b) = refl
opt_eq_comm (some a) none = refl
opt_eq_comm (some a) (some b) = ground arith

owner_in-snoc :
    (o p : Option ℕ) (seen : List (Option ℕ))
    → owner_in o (seen ++ (p ∷ [])) ≡ (owner_in o seen || opt_eq o p)
owner_in-snoc o p [] = ground arith
owner_in-snoc o p (q ∷ seen) = ground (arith, owner_in-snoc o p seen)

first_of_owner-from :
    (o : Option ℕ) (seen : List (Option ℕ)) (mos : List MailingOut)
    → first_of_owner o (check_owners_from seen mos)
      ≡ (if owner_in o seen then none else first_of_owner o mos)
unfolding check_owners_from
first_of_owner-from o seen [] = ground arith
first_of_owner-from o seen (mo ∷ mos) = elim (Bool-cases (opt_eq mo.owner o)) [
  | inl same ↦ ground (
    arith,
    opt_eq_sound mo.owner o same,
    first_of_owner-from o seen mos,
    owner_in-snoc o mo.owner seen,
    opt_eq_comm mo.owner o,
    first_of_owner-from o (seen ++ (mo.owner ∷ [])) mos,
  )
  | inr other ↦ ground (
    arith,
    first_of_owner-from o seen mos,
    owner_in-snoc o mo.owner seen,
    opt_eq_comm mo.owner o,
    first_of_owner-from o (seen ++ (mo.owner ∷ [])) mos,
  )
]

abbrev owners : List MailingOut → List (Option ℕ)
owners mos = map (λ mo. mo.owner) mos

-- No two mailings of the list have one owner.
abbrev pub OwnersDiffer : List MailingOut → Type 0
OwnersDiffer [] = Unit
OwnersDiffer (mo ∷ mos) = (owner_in mo.owner (owners mos) ≡ false) × OwnersDiffer mos

kept_not_seen :
    (o : Option ℕ) (seen : List (Option ℕ)) (mos : List MailingOut)
    → owner_in o seen ≡ true
    → owner_in o (owners (check_owners_from seen mos)) ≡ false
unfolding check_owners_from
kept_not_seen o seen [] h = refl
kept_not_seen o seen (mo ∷ mos) h = elim (Bool-cases (opt_eq o mo.owner)) [
  | inl same ↦ ground (arith, opt_eq_sound o mo.owner same, kept_not_seen o seen mos h)
  | inr other ↦ ground (
    arith,
    kept_not_seen o seen mos h,
    owner_in-snoc o mo.owner seen,
    kept_not_seen o (seen ++ (mo.owner ∷ [])) mos,
  )
]

check_owners_from-OwnersDiffer :
    (seen : List (Option ℕ)) (mos : List MailingOut) → OwnersDiffer (check_owners_from seen mos)
unfolding check_owners_from
check_owners_from-OwnersDiffer seen [] = tt
check_owners_from-OwnersDiffer seen (mo ∷ mos) = elim (Bool-cases (owner_in mo.owner seen)) [
  | inl old ↦ rw (old, check_owners_from) (check_owners_from-OwnersDiffer seen mos)
  | inr new ↦
      rw (new, check_owners_from)
        (
          kept_not_seen mo.owner (seen ++ (mo.owner ∷ [])) mos
              (ground (arith, owner_in-snoc mo.owner mo.owner seen, opt_eq_self mo.owner)),
          check_owners_from-OwnersDiffer (seen ++ (mo.owner ∷ [])) mos,
        )
]

-- A pass serves at most one mailing of each owner, and of every owner who has one it serves the
-- first in the order of the list.
pub check_owners_lem :
    (mos : List MailingOut)
    → OwnersDiffer (check_owners mos)
      × ((o : Option ℕ) → first_of_owner o (check_owners mos) ≡ first_of_owner o mos)
unfolding check_owners
check_owners_lem mos = (check_owners_from-OwnersDiffer [] mos, λ o. first_of_owner-from o [] mos)
