-- ===== src/Crm/PermissionSamples.antt =====
-- A user and an object, and each theorem about permissions at them.
use django_crm_marscode.Prelude.{◌≡◌, refl, true, false, none, some, List, [], ◌∷◌}
use django_crm_marscode.Common.Users.{User, Group, Request, number, set_user}
use django_crm_marscode.Crm.Permissions.{
  Owned, may_change, may_change_own_department, superoperator_may_change,
}

abbrev user : User
user = record {
  ident = 3;
  is_superuser = false;
  is_superoperator = false;
  is_operator = false;
  is_chief = false;
  is_manager = false;
  is_accountant = false;
  is_task_operator = false;
  is_department_head = false;
  department_id = none;
}

abbrev managers : List Group
managers =
    record { ident = 1; name = "managers"; is_department = false }
    ∷ record { ident = 7; name = "Global sales"; is_department = true }
    ∷ []

abbrev superoperators : List Group
superoperators =
    record { ident = 2; name = "superoperators"; is_department = false }
    ∷ record { ident = 7; name = "Global sales"; is_department = true }
    ∷ []

abbrev asks_for_eight : Request
asks_for_eight = record { is_ajax = false; department = some (number 8) }

abbrev deal_of_seven : Owned
deal_of_seven = record {
  department = some 7;
  has_owner = true;
  owner = some 3;
  has_co_owner = true;
  co_owner = none;
}

abbrev deal_of_eight : Owned
deal_of_eight = record deal_of_seven { department = some 8; owner = some 4 }

may_change_own_department_example :
    (user' : User) × (set_user asks_for_eight user managers none ≡ some (user', none))
    × (may_change true user' managers deal_of_seven ≡ true)
may_change_own_department_example =
    may_change_own_department asks_for_eight user managers none true deal_of_seven 7 refl refl refl
      refl

superoperator_may_change_example :
    (user' : User) × (set_user asks_for_eight user superoperators none ≡ some (user', some 8))
    × (may_change true user' superoperators deal_of_eight ≡ true)
superoperator_may_change_example =
    superoperator_may_change asks_for_eight user superoperators none true deal_of_eight 8 refl refl
      refl refl refl
