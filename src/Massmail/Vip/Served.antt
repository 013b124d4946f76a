-- ===== src/Massmail/Vip/Served.antt =====
-- massmail/admin_actions.py: after `specify_vip_recipients` the selected recipients belong to the main
-- account.
use django_crm_marscode.Prelude.{contains-filter}
use django_crm_marscode.Prelude.{
  ℕ, ◌+◌, ◌≤◌, ◌≡◌, refl, sym, ap, ◌∙◌, inl, inr, Bool, true, false, not, ◌&&◌, ◌||◌, Option, some,
  List, [], ◌∷◌, ◌++◌, arith, ltb, ◌==◌, if◌then◌else◌, opt_eq, ==_iff, ==_self, Bool-cases, length,
  filter, all, contains,
}
use django_crm_marscode.Massmail.MailingOut.{Kind, kind_eq}
use django_crm_marscode.Massmail.Accounts.{EmailAccount}
use django_crm_marscode.Massmail.Sending.Tables.{MassContact}
use django_crm_marscode.Massmail.Actions.{list_set, multiple_owners}
use django_crm_marscode.Massmail.Actions.Merged.{contains-list_set}
use django_crm_marscode.Massmail.Vip.{
  is_chosen, assign, updated_ids, new_contact, create, assigned, specify_vip_recipients,
}

-- How many rows a recipient has.
abbrev pub rows_for : Kind → ℕ → List MassContact → ℕ
rows_for kind x [] = 0
rows_for kind x (mc ∷ mcs) =
    (if kind_eq mc.kind kind && mc.object_id == x then 1 else 0) + rows_for kind x mcs

abbrev pub all_of : ℕ → Kind → ℕ → List MassContact → Bool
all_of mea kind x =
    all
      (λ mc. not (kind_eq mc.kind kind && mc.object_id == x) || opt_eq mc.email_account (some mea))

-- The recipient has a row, and all its rows belong to the account.
abbrev pub is_served_by : ℕ → Kind → ℕ → List MassContact → Bool
is_served_by mea kind x mcs = ltb 0 (rows_for kind x mcs) && all_of mea kind x mcs

abbrev IsDistinct : List ℕ → Type 0
IsDistinct [] = Unit
IsDistinct (x ∷ xs) = (contains x xs ≡ false) × IsDistinct xs

list_set-IsDistinct : (xs : List ℕ) → IsDistinct (list_set xs)
list_set-IsDistinct [] = tt
list_set-IsDistinct (x ∷ xs) = elim (Bool-cases (contains x xs)) [
  | inl again ↦ rw again (list_set-IsDistinct xs)
  | inr last ↦ rw last (contains-list_set x xs ∙ last, list_set-IsDistinct xs)
]

-- The rows of all the recipients.
abbrev total : Kind → List ℕ → List MassContact → ℕ
total kind [] mcs = 0
total kind (x ∷ xs) mcs = rows_for kind x mcs + total kind xs mcs

length-chosen :
    (kind : Kind) (x : ℕ) (xs : List ℕ) (mcs : List MassContact)
    → contains x xs ≡ false
    → length (filter (is_chosen kind (x ∷ xs)) mcs)
      ≡ rows_for kind x mcs + length (filter (is_chosen kind xs) mcs)
length-chosen kind x xs [] fresh = refl
length-chosen kind x xs (mc ∷ mcs) fresh = elim (Bool-cases (mc.object_id == x)) [
  | inl same ↦ ground (
    arith,
    length-chosen kind x xs mcs fresh,
    ap (λ (b : ℕ). contains b xs) ((==_iff mc.object_id x).0 same),
  )
  | inr other ↦ ground (arith, length-chosen kind x xs mcs fresh)
]

none_chosen : (kind : Kind) (mcs : List MassContact) → length (filter (is_chosen kind []) mcs) ≡ 0
none_chosen kind [] = refl
none_chosen kind (mc ∷ mcs) = ground (arith, none_chosen kind mcs)

length-total :
    (kind : Kind) (xs : List ℕ) (mcs : List MassContact)
    → IsDistinct xs
    → length (filter (is_chosen kind xs) mcs) ≡ total kind xs mcs
length-total kind [] mcs d = none_chosen kind mcs
length-total kind (x ∷ xs) mcs d =
    omega (arith, length-chosen kind x xs mcs d.0, length-total kind xs mcs d.1)

total-length :
    (kind : Kind) (xs : List ℕ) (mcs : List MassContact)
    → ((x : ℕ) → rows_for kind x mcs ≤ 1)
    → total kind xs mcs ≤ length xs
total-length kind [] mcs h = omega arith
total-length kind (x ∷ xs) mcs h = omega (arith, h x, total-length kind xs mcs h)

-- Where as many rows are chosen as there are ids, each id has its row.
total-each :
    (kind : Kind) (xs : List ℕ) (mcs : List MassContact) (a : ℕ)
    → ((x : ℕ) → rows_for kind x mcs ≤ 1)
    → total kind xs mcs ≡ length xs
    → contains a xs ≡ true
    → ltb 0 (rows_for kind a mcs) ≡ true
total-each kind [] mcs a h e c = cc
total-each kind (x ∷ xs) mcs a h e c = elim (Bool-cases (a == x)) [
  | inl same ↦ ground (
    arith,
    h x,
    total-length kind xs mcs h,
    ap (λ (b : ℕ). rows_for kind b mcs) ((==_iff a x).0 same),
  )
  | inr other ↦ ground (arith, h x, total-length kind xs mcs h, total-each kind xs mcs a h)
]

rows_for-assign :
    (mea : ℕ) (kind : Kind) (ids : List ℕ) (a : ℕ) (mcs : List MassContact)
    → rows_for kind a (assign mea kind ids mcs) ≡ rows_for kind a mcs
rows_for-assign mea kind ids a [] = refl
rows_for-assign mea kind ids a (mc ∷ mcs) = ground (arith, rows_for-assign mea kind ids a mcs)

all_of-assign :
    (mea : ℕ) (kind : Kind) (ids : List ℕ) (a : ℕ) (mcs : List MassContact)
    → contains a ids ≡ true
    → all_of mea kind a (assign mea kind ids mcs) ≡ true
all_of-assign mea kind ids a [] c = refl
all_of-assign mea kind ids a (mc ∷ mcs) c = elim (Bool-cases (mc.object_id == a)) [
  | inl same ↦ ground (
    arith,
    all_of-assign mea kind ids a mcs c,
    ==_self mea,
    ap (λ (b : ℕ). contains b ids) ((==_iff mc.object_id a).0 same),
  )
  | inr other ↦ ground (arith, all_of-assign mea kind ids a mcs c)
]

rows_for-append :
    (kind : Kind) (a : ℕ) (mcs : List MassContact) (mc : MassContact)
    → rows_for kind a (mcs ++ (mc ∷ []))
      ≡ rows_for kind a mcs + (if kind_eq mc.kind kind && mc.object_id == a then 1 else 0)
rows_for-append kind a [] mc = omega arith
rows_for-append kind a (r ∷ mcs) mc = omega (arith, rows_for-append kind a mcs mc)

all_of-append :
    (mea : ℕ) (kind : Kind) (a : ℕ) (mcs : List MassContact) (mc : MassContact)
    → mc.email_account ≡ some mea
    → all_of mea kind a mcs ≡ true
    → all_of mea kind a (mcs ++ (mc ∷ [])) ≡ true
all_of-append mea kind a [] mc own h = rw own (ground (arith, ==_self mea))
all_of-append mea kind a (r ∷ mcs) mc own h = ground (arith, all_of-append mea kind a mcs mc own)

kind_eq_self : (kind : Kind) → kind_eq kind kind ≡ true
kind_eq_self kind = ground arith

-- The created rows: the account's own, and one at least for each id of the list.
create_lem :
    (next_key : List MassContact → ℕ) (mea : ℕ) (kind : Kind) (xs : List ℕ) (a : ℕ)
    (mcs : List MassContact)
    → all_of mea kind a mcs ≡ true
    → (all_of mea kind a (create next_key mea kind xs mcs) ≡ true)
      × (rows_for kind a mcs + (if contains a xs then 1 else 0)
          ≤ rows_for kind a (create next_key mea kind xs mcs))
create_lem next_key mea kind [] a mcs h = (h, omega arith)
create_lem next_key mea kind (x ∷ xs) a mcs h =
    let mc = new_contact (next_key mcs) mea kind x in
    let (own, more) =
      create_lem next_key mea kind xs a (mcs ++ (mc ∷ []))
        (all_of-append mea kind a mcs mc refl h) in
    (own, ground (arith, more, rows_for-append kind a mcs mc, kind_eq_self kind))

updated_ids-row :
    (kind : Kind) (ids : List ℕ) (a : ℕ) (mcs : List MassContact)
    → contains a (updated_ids kind ids mcs) ≡ true
    → ltb 0 (rows_for kind a mcs) ≡ true
updated_ids-row kind ids a [] c = cc
updated_ids-row kind ids a (mc ∷ mcs) c = ground (arith, updated_ids-row kind ids a mcs)

assigned_lem :
    (next_key : List MassContact → ℕ) (mea : ℕ) (kind : Kind) (ids : List ℕ)
    (mcs : List MassContact) (a : ℕ)
    → IsDistinct ids
    → ((x : ℕ) → rows_for kind x mcs ≤ 1)
    → contains a ids ≡ true
    → is_served_by mea kind a (assigned next_key mea kind ids mcs) ≡ true
assigned_lem next_key mea kind ids mcs a distinct single c =
    let own = all_of-assign mea kind ids a mcs c in
    let rows = rows_for-assign mea kind ids a mcs in
    let missing = filter (λ x. not (contains x (updated_ids kind ids mcs))) ids in
    elim (Bool-cases (length (filter (is_chosen kind ids) mcs) == length ids)) [
      | inl full ↦
          let each =
            total-each kind ids mcs a single
              (sym (length-total kind ids mcs distinct) ∙ (==_iff _ _).0 full) c in
          rw full (ground (arith, own, rows, each))
      | inr partial ↦
          let (kept, more) = create_lem next_key mea kind missing a (assign mea kind ids mcs) own in
          rw partial (
            ground (
              arith,
              kept,
              more,
              rows,
              c,
              contains-filter a (λ x. not (contains x (updated_ids kind ids mcs))) ids,
              updated_ids-row kind ids a mcs,
            ))
    ]

-- Where the owner of the selected recipients has one main account, they have no other owner, and no
-- recipient has more than one row, the action returns a table in which every selected recipient has a
-- row, and belongs to that account with all its rows.
pub specify_vip_recipients_lem :
    (next_key : List MassContact → ℕ) (accounts : List EmailAccount) (owner : Option ℕ)
    (owners : List (Option ℕ)) (kind : Kind) (selected : List ℕ) (mcs : List MassContact)
    (ea : EmailAccount)
    → filter (λ e. e.main && opt_eq e.owner owner) accounts ≡ ea ∷ []
    → multiple_owners owners ≡ false
    → ((x : ℕ) → rows_for kind x mcs ≤ 1)
    → (mcs' : List MassContact) × (specify_vip_recipients next_key accounts owner owners kind
          selected mcs
        ≡ some mcs')
      × ((a : ℕ) → contains a selected ≡ (contains a selected && is_served_by ea.ident kind a mcs'))
unfolding specify_vip_recipients
specify_vip_recipients_lem next_key accounts owner owners kind selected mcs ea main same single = (
  assigned next_key ea.ident kind (list_set selected) mcs,
  rw main (rw same refl),
  λ a. ground (
    arith,
    contains-list_set a selected,
    assigned_lem next_key ea.ident kind (list_set selected) mcs a (list_set-IsDistinct selected)
        single,
  ),
)
