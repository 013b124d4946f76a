-- ===== src/Crm/Permissions.antt =====
-- crm/utils/clarify_permission.py and crm/site/crmmodeladmin.py: which objects of crm a user sees in
-- the lists and may change.
use django_crm_marscode.Prelude.{}
use django_crm_marscode.Prelude.{
  ℕ, ◌≡◌, refl, Bool, true, false, ◌&&◌, ◌||◌, Option, none, some, List, arith, ◌==◌, if◌then◌else◌,
  opt_eq, ==_self, any,
}
use django_crm_marscode.Common.Users.{
  User, Group, Request, number, Session, in_group, departments, first_department, has_reach,
  set_user_groups, set_user_department, set_user, may_choose, may_choose-set_user_groups,
}

-- What the two functions read of an object; the Booleans tell that its table has the column.
pub record Owned : Type 0 where
  pub department : Option ℕ
  pub has_owner : Bool
  pub owner : Option ℕ
  pub has_co_owner : Bool
  pub co_owner : Option ℕ

abbrev pub is_owner : User → Owned → Bool
is_owner u o =
    o.has_owner
    && (opt_eq o.owner (some u.ident) || (o.has_co_owner && opt_eq o.co_owner (some u.ident)))

unfoldable pub clarify_permission : User → Owned → Bool
clarify_permission u o =
    (u.is_chief || u.is_superoperator || u.is_superuser)
    || (u.is_operator && opt_eq o.department u.department_id)
    || is_owner u o

abbrev pub in_departments : Option ℕ → List Group → Bool
in_departments department groups = any (λ g. opt_eq (some g.ident) department) (departments groups)

-- `if request.user.department_id` is false of the number 0.
abbrev pub in_department : Option ℕ → Bool → Option ℕ → List Group → Bool
in_department none superoperator department groups =
    if superoperator then in_departments department groups else true
in_department (some d) superoperator department groups =
    if d == 0
    then (if superoperator then in_departments department groups else true)
    else opt_eq department (some d)

-- `CrmModelAdmin.get_queryset`: whether the object is in it.
unfoldable pub in_queryset : User → List Group → Owned → Bool
in_queryset u groups o = in_department u.department_id u.is_superoperator o.department groups

-- `CrmModelAdmin.has_change_permission` for an object, where `value` is the framework's own answer, and
-- `has_delete_permission`, which does the same with the framework's other answer.
unfoldable pub has_change_permission : Bool → User → Owned → Bool
unfolding clarify_permission
has_change_permission value u o = value && clarify_permission u o

unfoldable pub has_delete_permission : Bool → User → Owned → Bool
unfolding clarify_permission
has_delete_permission value u o = value && clarify_permission u o

-- An object that is changed through the admin is taken from its queryset.
unfoldable pub may_change : Bool → User → List Group → Owned → Bool
unfolding in_queryset has_change_permission clarify_permission
may_change value u groups o = in_queryset u groups o && has_change_permission value u o

set_user_groups-operator :
    (user : User) (groups : List Group)
    → has_reach user groups ≡ false
    → ((set_user_groups user groups).is_operator ≡ in_group "operators" groups)
      × ((set_user_groups user groups).is_superoperator ≡ false)
      × ((set_user_groups user groups).is_superuser ≡ false)
      × ((set_user_groups user groups).ident ≡ user.ident)
unfolding set_user_groups
set_user_groups-operator user groups h = (ground arith, ground arith, ground arith, ground arith)

may_change_lem :
    (value operator : Bool) (ident d : ℕ) (u : User) (groups : List Group) (o : Owned)
    → u.department_id ≡ some d
    → (d == 0) ≡ false
    → u.is_chief ≡ false
    → u.is_superoperator ≡ false
    → u.is_superuser ≡ false
    → u.is_operator ≡ operator
    → u.ident ≡ ident
    → may_change value u groups o ≡ (
        value
        && opt_eq o.department (some d)
        && (operator
            || (o.has_owner
                && (opt_eq o.owner (some ident)
                    || (o.has_co_owner && opt_eq o.co_owner (some ident))))))
unfolding may_change in_queryset has_change_permission clarify_permission
may_change_lem value operator ident d u groups o dep positive chief super root op same =
    rw dep (rw positive (rw chief (rw super (rw root (rw op (rw same (ground arith)))))))

-- A user of one department who is no superuser, chief, superoperator or accountant, nor an operator
-- of more departments: for every request that no script in the page makes, whatever it asks for,
-- the user may change exactly the objects of the department of which it is the owner or the
-- co-owner, and as an operator all of the department, where the framework allows it.
pub may_change_own_department :
    (request : Request) (user : User) (groups : List Group) (session : Session) (value : Bool)
    (o : Owned) (d : ℕ)
    → request.is_ajax ≡ false
    → has_reach user groups ≡ false
    → first_department groups ≡ some d
    → (d == 0) ≡ false
    → (user' : User) × (set_user request user groups session ≡ some (user', session))
      × (may_change value user' groups o ≡ (
          value
          && opt_eq o.department (some d)
          && (in_group "operators" groups || is_owner user o)))
unfolding set_user_department set_user may_change in_queryset has_change_permission
    clarify_permission
may_change_own_department request user groups session value o d ajax reach first positive =
    let (op, super, root, same) = set_user_groups-operator user groups reach in
    let user' = record (set_user_groups user groups) {
      department_id = first_department groups;
      is_chief = false;
    } in
    (
      user',
      rw ajax (rw (may_choose-set_user_groups user groups) (rw reach refl)),
      may_change_lem value (in_group "operators" groups) user.ident d user' groups o first positive
          refl super root op same,
    )

superoperator_kept :
    (user : User) (groups : List Group)
    → in_group "superoperators" groups ≡ true
    → (set_user_groups user groups).is_superoperator ≡ true
unfolding set_user_groups
superoperator_kept user groups h = ground arith

may_choose-superoperator :
    (user : User) (groups : List Group)
    → in_group "superoperators" groups ≡ true
    → may_choose (set_user_groups user groups) ≡ true
may_choose-superoperator user groups h = ground (arith, superoperator_kept user groups h)

-- A request that is not made by a script names the number of a department, other than 0, in its query:
-- a superoperator may then change each object of that department exactly where the framework's own
-- permission is given, whether or not the department is among its groups.
pub superoperator_may_change :
    (request : Request) (user : User) (groups : List Group) (session : Session) (value : Bool)
    (o : Owned) (d : ℕ)
    → request.is_ajax ≡ false
    → in_group "superoperators" groups ≡ true
    → request.department ≡ some (number d)
    → (d == 0) ≡ false
    → o.department ≡ some d
    → (user' : User) × (set_user request user groups session ≡ some (user', some d))
      × (may_change value user' groups o ≡ value)
unfolding set_user_department set_user may_change in_queryset has_change_permission
    clarify_permission
superoperator_may_change request user groups session value o d ajax super asked positive same =
    let u = set_user_groups user groups in
    (
      record u { department_id = some d },
      rw ajax (rw asked (rw (may_choose-superoperator user groups super) refl)),
      rw positive
          (rw same (rw (==_self d) (rw (superoperator_kept user groups super) (ground arith)))),
    )
