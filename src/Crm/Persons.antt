-- ===== src/Crm/Persons.antt =====
-- crm/models/contact.py, lead.py, company.py and base_contact.py: the persons and companies that the
-- rest of crm refers to. A foreign key is the key of the row; texts are lists of characters.
use django_crm_marscode.Prelude.{ℕ, Option, List}

-- A row of crm's Contact.
pub record Contact : Type 0 where
  pub ident : ℕ
  pub first_name : List ℕ
  pub last_name : List ℕ
  pub email : List ℕ
  pub phone : List ℕ
  pub country : Option ℕ
  pub company : ℕ
  pub department : Option ℕ
  pub owner : Option ℕ

-- A row of crm's Lead.
pub record Lead : Type 0 where
  pub ident : ℕ
  pub first_name : List ℕ
  pub last_name : List ℕ
  pub email : List ℕ
  pub phone : List ℕ
  pub company_name : List ℕ
  pub website : List ℕ
  pub company_email : List ℕ
  pub country : Option ℕ
  pub city : Option ℕ
  pub company : Option ℕ
  pub department : Option ℕ
  pub owner : Option ℕ

-- A row of crm's Company.
pub record Company : Type 0 where
  pub ident : ℕ
  pub full_name : List ℕ
  pub website : List ℕ
  pub email : List ℕ
  pub country : Option ℕ
  pub city : Option ℕ
  pub department : Option ℕ
  pub owner : Option ℕ
