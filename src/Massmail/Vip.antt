-- ===== src/Massmail/Vip.antt =====
-- massmail/admin_actions.py, `specify_vip_recipients`: the selected recipients get mailings from the
-- main account of their owner.
pub mod Served
use django_crm_marscode.Prelude.{
  ℕ, zero, suc, ◌+◌, ◌-◌, ◌*◌, ◌/◌, ◌%◌, ◌≤◌, ◌<◌, String, ◌≡◌, refl, sym, ap, ◌∙◌, ◌≢◌, ◌↔◌, ◌⊎◌,
  inl, inr, Bool, true, false, not, ◌&&◌, ◌||◌, Option, none, some, List, [], ◌∷◌, ◌++◌, map,
  append_assoc, append-nil, arith, ltb, leb, ◌==◌, if◌then◌else◌, opt_eq, is_some, ltb→lt, lt→ltb,
  leb→le, ==_iff, ==_self, Bool-cases, Option-cases, length, length-append, All, filter, find, any,
  all, contains, remove_first, count, count-append, contains-append, remove_first-contains,
  remove_first_missing, count-remove_first,
}
use django_crm_marscode.Massmail.MailingOut.{Kind, kind_eq}
use django_crm_marscode.Massmail.Accounts.{EmailAccount}
use django_crm_marscode.Massmail.Sending.Tables.{MassContact}
use django_crm_marscode.Massmail.Actions.{list_set, multiple_owners}

-- `MassContact.objects.filter(object_id__in=ids, content_type=kind)`
abbrev pub is_chosen : Kind → List ℕ → MassContact → Bool
is_chosen kind ids mc = kind_eq mc.kind kind && contains mc.object_id ids

-- `mcs.update(email_account=mea)`
abbrev pub assign : ℕ → Kind → List ℕ → List MassContact → List MassContact
assign mea kind ids [] = []
assign mea kind ids (mc ∷ mcs) =
    (if is_chosen kind ids mc then record mc { email_account = some mea } else mc)
    ∷ assign mea kind ids mcs

abbrev pub updated_ids : Kind → List ℕ → List MassContact → List ℕ
updated_ids kind ids mcs = map (λ mc. mc.object_id) (filter (is_chosen kind ids) mcs)

abbrev new_contact : ℕ → ℕ → Kind → ℕ → MassContact
new_contact key mea kind x = record {
  ident = key;
  kind = kind;
  object_id = x;
  email_account = some mea;
  massmail = true;
}

-- The loop over `create_ids`; the database gives the key.
abbrev pub create : (List MassContact → ℕ) → ℕ → Kind → List ℕ → List MassContact → List MassContact
create next_key mea kind [] mcs = mcs
create next_key mea kind (x ∷ xs) mcs =
    create next_key mea kind xs (mcs ++ (new_contact (next_key mcs) mea kind x ∷ []))

abbrev pub assigned :
    (List MassContact → ℕ) → ℕ → Kind → List ℕ → List MassContact → List MassContact
assigned next_key mea kind ids mcs =
    if not (length (filter (is_chosen kind ids) mcs) == length ids)
    then create next_key mea kind (filter (λ x. not (contains x (updated_ids kind ids mcs))) ids)
        (assign mea kind ids mcs)
    else assign mea kind ids mcs

-- `EmailAccount.objects.get(owner=owner, main=True)`: the two messages leave the table as it is, and
-- `none` is MultipleObjectsReturned.
abbrev with_account :
    List EmailAccount → List MassContact → (ℕ → List MassContact) → Option (List MassContact)
with_account [] mcs act = some mcs
with_account (ea ∷ []) mcs act = some (act ea.ident)
with_account (ea ∷ fa ∷ rest) mcs act = none

-- `owner` is that of the first selected object and `owners` those of all; `selected` are the keys that
-- the form sends.
unfoldable pub specify_vip_recipients :
    (List MassContact → ℕ)
    → List EmailAccount
    → Option ℕ
    → List (Option ℕ)
    → Kind
    → List ℕ
    → List MassContact
    → Option (List MassContact)
unfolding multiple_owners
specify_vip_recipients next_key accounts owner owners kind selected mcs =
    with_account (filter (λ ea. ea.main && opt_eq ea.owner owner) accounts) mcs (λ mea.
      if multiple_owners owners then mcs else assigned next_key mea kind (list_set selected) mcs)
