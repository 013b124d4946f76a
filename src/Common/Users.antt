-- ===== src/Common/Users.antt =====
-- common/utils/usermiddleware.py: the roles of the user of a request, and the department that it
-- works in.
use django_crm_marscode.Prelude.{
  ℕ, String, ◌≡◌, refl, Bool, true, false, ◌&&◌, ◌||◌, Option, none, some, List, arith, ltb, ◌==◌,
  if◌then◌else◌, length, filter, find, any,
}
use text.Mathlib.Text.{◌==◌ as str_eq}

pub record Group : Type 0 where
  pub ident : ℕ
  pub name : String
  pub is_department : Bool

-- `request.user`, with the attributes that the middleware sets.
pub record User : Type 0 where
  pub ident : ℕ
  pub is_superuser : Bool
  pub is_superoperator : Bool
  pub is_operator : Bool
  pub is_chief : Bool
  pub is_manager : Bool
  pub is_accountant : Bool
  pub is_task_operator : Bool
  pub is_department_head : Bool
  pub department_id : Option ℕ

-- `name in group_names`
abbrev pub in_group : String → List Group → Bool
in_group name = any (λ g. str_eq g.name name)

-- `groups.filter(department__isnull=False)`
abbrev pub departments : List Group → List Group
departments = filter (λ g. g.is_department)

abbrev by_names : User → List Group → User
by_names u groups = record u {
  is_superoperator = in_group "superoperators" groups;
  is_operator = in_group "operators" groups;
  is_chief = in_group "chiefs" groups;
  is_manager = in_group "managers" groups;
  is_accountant = in_group "accountants" groups;
  is_task_operator = in_group "task_operators" groups;
  is_department_head = in_group "department heads" groups;
}

unfoldable pub set_user_groups : User → List Group → User
set_user_groups user groups =
    let u = by_names user groups in
    if u.is_operator && ltb 1 (length (departments groups))
    then record u { is_superoperator = true; is_operator = false }
    else u

-- The query parameter `department`: a number, the text "all", or a text that is no number.
pub data Choice : Type 0 where
  every malformed : Choice
  number : ℕ → Choice

pub record Request : Type 0 where
  pub is_ajax : Bool
  pub department : Option Choice

-- `request.session['department_id']`
abbrev pub Session : Type 0
Session = Option ℕ

-- `if department_id and ...`: the stored number 0 counts as none.
abbrev pub department_or_none : Session → Option ℕ
department_or_none none = none
department_or_none (some d) = if d == 0 then none else some d

-- The chosen department, from the query or else from the session; outside is a ValueError of `int`.
abbrev pub chosen : Option Choice → Session → Option (Option ℕ)
chosen none session = some (department_or_none session)
chosen (some every) session = some none
chosen (some malformed) session = none
chosen (some (number d)) session = some (some d)

abbrev pub may_choose : User → Bool
may_choose u = u.is_superuser || (u.is_chief || (u.is_superoperator || u.is_accountant))

abbrev pub first_department : List Group → Option ℕ
first_department groups = elim (find (λ g. g.is_department) groups) [
  | none ↦ none
  | some g ↦ some g.ident
]

unfoldable pub set_user_department : Request → User → List Group → Session → Option (User × Session)
set_user_department request user groups session =
    if request.is_ajax
    then some (user, session)
    else if may_choose user
    then elim (chosen request.department session) [
      | none ↦ none
      | some d ↦ some (record user { department_id = d }, d)
    ]
    else some (record user { department_id = first_department groups; is_chief = false }, session)

-- The two steps, as `__call__` makes them.
unfoldable pub set_user : Request → User → List Group → Session → Option (User × Session)
set_user request user groups session =
    set_user_department request (set_user_groups user groups) groups session

-- The user has a role that lets it look into departments: it is a superuser, a chief, a
-- superoperator or an accountant, or an operator of more than one department.
abbrev pub has_reach : User → List Group → Bool
has_reach user groups =
    user.is_superuser
    || (in_group "chiefs" groups
        || (in_group "superoperators" groups
            || (in_group "accountants" groups
                || (in_group "operators" groups && ltb 1 (length (departments groups))))))

pub may_choose-set_user_groups :
    (user : User) (groups : List Group)
    → may_choose (set_user_groups user groups) ≡ has_reach user groups
unfolding set_user_groups
may_choose-set_user_groups user groups = ground arith

-- A user who is no superuser, chief, superoperator or accountant, nor an operator of more than one
-- department, works in its first department, or in none: the query and the session do not change
-- that, the session stays, and the user is no chief. For a request that is not made by a script in
-- the page.
pub set_user_department_fixed :
    (request : Request) (user : User) (groups : List Group) (session : Session)
    → request.is_ajax ≡ false
    → has_reach user groups ≡ false
    → (user' : User) × (set_user request user groups session ≡ some (user', session))
      × (user'.department_id ≡ first_department groups)
      × (user'.is_chief ≡ false)
unfolding set_user_department set_user
set_user_department_fixed request user groups session ajax reach = (
  record (set_user_groups user groups) {
    department_id = first_department groups;
    is_chief = false;
  },
  rw ajax (rw may_choose-set_user_groups (rw reach refl)),
  refl,
  refl,
)
