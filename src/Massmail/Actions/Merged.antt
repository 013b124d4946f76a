-- ===== src/Massmail/Actions/Merged.antt =====
-- massmail/admin_actions.py: what a merged mailing holds, and what a new one does.
use django_crm_marscode.Prelude.{
  ℕ, ◌+◌, ◌≡◌, refl, ap, inl, inr, true, false, some, List, [], ◌∷◌, map, arith, ◌==◌, ==_iff,
  Bool-cases, length, filter, any, contains, count,
}
use django_crm_marscode.Massmail.Ids.{get_ids-join_ids, get_ids-nil}
use django_crm_marscode.Massmail.Accounts.{EmailAccount}
use django_crm_marscode.Massmail.MailingOut.{MailingOut, Kind}
use django_crm_marscode.Massmail.MailingOut.Transfer.{Recipients, Holds}
use django_crm_marscode.Massmail.Actions.{
  list_set, Selected, have_massmail_accounts, is_eligible, ids_of, multiple_owners,
  make_mailing_out, Gathered, new_mailing,
}

pub contains-list_set : (a : ℕ) (xs : List ℕ) → contains a (list_set xs) ≡ contains a xs
contains-list_set a [] = refl
contains-list_set a (x ∷ xs) = elim (Bool-cases (a == x)) [
  | inl same ↦
      ground (arith, contains-list_set a xs, ap (λ (b : ℕ). contains b xs) ((==_iff a x).0 same))
  | inr other ↦ ground (arith, contains-list_set a xs)
]

-- The mailings hold the lists, one after the other.
abbrev pub Held : List MailingOut → List Recipients → Type 0
Held [] [] = Unit
Held (mo ∷ mos) (r ∷ rs) = Holds mo r × Held mos rs
Held _ _ = ⊥

abbrev pub reached_times : ℕ → List Recipients → ℕ
reached_times a [] = 0
reached_times a (r ∷ rs) = count a r.reached + reached_times a rs

abbrev pub failed_times : ℕ → List Recipients → ℕ
failed_times a [] = 0
failed_times a (r ∷ rs) = count a r.failed + failed_times a rs

record Gathers (g : Gathered) (rs : List Recipients) : Type 0 where
  pending : (a : ℕ) → contains a g.recipient_ids ≡ any (λ r. contains a r.pending) rs
  reached : (a : ℕ) → count a g.successful_ids ≡ reached_times a rs
  failed : (a : ℕ) → count a g.failed_ids ≡ failed_times a rs

length-ids_of : (objs : List Selected) → length (ids_of objs) ≡ length objs
length-ids_of [] = refl
length-ids_of (obj ∷ objs) = omega (arith, length-ids_of objs)

-- For a user with an account for mailings, and selected recipients of one owner, some of whom have
-- not unsubscribed and are not disqualified, a mailing of that user is created that waits for
-- exactly those, in their order, has reached and failed to reach nobody, and counts its recipients.
pub make_mailing_out_lem :
    (key user : ℕ) (accounts : List EmailAccount) (kind : Kind) (queryset : List Selected)
    (obj : Selected) (objs : List Selected)
    → have_massmail_accounts user accounts ≡ true
    → multiple_owners (map (λ (o : Selected). o.owner) queryset) ≡ false
    → filter is_eligible queryset ≡ obj ∷ objs
    → (mo : MailingOut) × (make_mailing_out key user accounts kind queryset ≡ some mo)
      × Holds mo
          (record { pending = ids_of (filter is_eligible queryset); reached = []; failed = [] })
      × (mo.recipients_number ≡ length (ids_of (filter is_eligible queryset)))
      × (mo.owner ≡ some user)
unfolding make_mailing_out
make_mailing_out_lem key user accounts kind queryset obj objs allowed same eligible = (
  new_mailing key user kind (obj ∷ objs),
  rw allowed (rw same (rw eligible refl)),
  record {
    pending = rw eligible (get_ids-join_ids (ids_of (obj ∷ objs)));
    reached = get_ids-nil;
    failed = get_ids-nil;
  },
  rw eligible (omega (arith, length-ids_of objs)),
  refl,
)
