-- ===== src/Massmail/MailingOut/Transfer.antt =====
-- The id fields refine three lists of ids, between which the methods move recipients.
use django_crm_marscode.Prelude.{
  ℕ, ◌+◌, ◌≡◌, refl, true, false, none, some, List, [], ◌∷◌, ◌++◌, arith, contains, remove_first,
  count, count-append, remove_first-contains, remove_first_missing, count-remove_first,
}
use django_crm_marscode.Massmail.Ids.{get_ids, join_ids, get_ids-join_ids, get_ids-nil}
use django_crm_marscode.Massmail.MailingOut.{
  MailingOut, active, move_to_successful_ids, move_to_failed_ids, send_failed_recipients,
}

-- The abstract mailing: whom it still has to reach, whom it reached, whom it failed to reach.
pub record Recipients : Type 0 where
  pub pending : List ℕ
  pub reached : List ℕ
  pub failed : List ℕ

-- The fields of the mailing hold these lists.
pub record Holds (mo : MailingOut) (r : Recipients) : Type 0 where
  pub pending : get_ids mo.recipient_ids ≡ some r.pending
  pub reached : get_ids mo.successful_ids ≡ some r.reached
  pub failed : get_ids mo.failed_ids ≡ some r.failed

-- How often an id stands in the three lists together.
abbrev pub tally : ℕ → Recipients → ℕ
tally a r = count a r.pending + count a r.reached + count a r.failed

move_to_successful-step :
    (mo : MailingOut) (r : Recipients) (rid : ℕ) (rest : List ℕ)
    → Holds mo r
    → remove_first rid r.pending ≡ some rest
    → move_to_successful_ids rid mo ≡ (
      some tt,
      record mo {
        recipient_ids = join_ids rest;
        successful_ids = join_ids (r.reached ++ (rid ∷ []));
      },
    )
unfolding move_to_successful_ids
move_to_successful-step mo r rid rest h e = ground (arith, h.pending, h.reached, e)

move_to_failed-step :
    (mo : MailingOut) (r : Recipients) (rid : ℕ) (rest : List ℕ)
    → Holds mo r
    → remove_first rid r.pending ≡ some rest
    → move_to_failed_ids rid mo ≡ (
      some tt,
      record mo { recipient_ids = join_ids rest; failed_ids = join_ids (r.failed ++ (rid ∷ [])) },
    )
unfolding move_to_failed_ids
move_to_failed-step mo r rid rest h e = ground (arith, h.pending, h.failed, e)

-- The rest of the mailing is what it was.
abbrev pub SameButIds : MailingOut → MailingOut → Type 0
SameButIds mo mo' =
    (mo'.ident ≡ mo.ident)
    × (mo'.owner ≡ mo.owner)
    × (mo'.status ≡ mo.status)
    × (mo'.kind ≡ mo.kind)
    × (mo'.message ≡ mo.message)
    × (mo'.recipients_number ≡ mo.recipients_number)
    × (mo'.today_count ≡ mo.today_count)
    × (mo'.sending_date ≡ mo.sending_date)
    × (mo'.report ≡ mo.report)

-- A mailing whose fields hold three lists of ids, one of them pending id `rid`, marks `rid` as
-- reached: the call returns, `rid` is appended to the reached ids, its first occurrence goes from the
-- pending ones, whose order stays, the failed ids and all other fields stay, and every id stands in
-- the three fields together as often as before.
pub move_to_successful_ids_lem :
    (mo : MailingOut) (r : Recipients) (rid : ℕ)
    → Holds mo r
    → contains rid r.pending ≡ true
    → (mo' : MailingOut) × (r' : Recipients) × (move_to_successful_ids rid mo ≡ (some tt, mo'))
      × Holds mo' r'
      × (r'.reached ≡ r.reached ++ (rid ∷ []))
      × (r'.failed ≡ r.failed)
      × (remove_first rid r.pending ≡ some r'.pending)
      × ((a : ℕ) → tally a r' ≡ tally a r)
      × SameButIds mo mo'
move_to_successful_ids_lem mo r rid h pending =
    let (rest, e) = remove_first-contains rid r.pending pending in
    (
      record mo {
        recipient_ids = join_ids rest;
        successful_ids = join_ids (r.reached ++ (rid ∷ []));
      },
      record r { pending = rest; reached = r.reached ++ (rid ∷ []) },
      move_to_successful-step mo r rid rest h e,
      record { pending = get_ids-join_ids rest; reached = get_ids-join_ids _; failed = h.failed },
      refl,
      refl,
      e,
      λ a.
          ground
            (arith, count-remove_first a rid r.pending rest e, count-append a r.reached (rid ∷ [])),
      (refl, refl, refl, refl, refl, refl, refl, refl, refl),
    )

-- A mailing whose fields hold three lists of ids, one of them pending id `rid`, marks `rid` as
-- failed: the call returns, `rid` is appended to the failed ids, its first occurrence goes from the
-- pending ones, whose order stays, the reached ids and all other fields stay, and every id stands in
-- the three fields together as often as before.
pub move_to_failed_ids_lem :
    (mo : MailingOut) (r : Recipients) (rid : ℕ)
    → Holds mo r
    → contains rid r.pending ≡ true
    → (mo' : MailingOut) × (r' : Recipients) × (move_to_failed_ids rid mo ≡ (some tt, mo'))
      × Holds mo' r'
      × (r'.reached ≡ r.reached)
      × (r'.failed ≡ r.failed ++ (rid ∷ []))
      × (remove_first rid r.pending ≡ some r'.pending)
      × ((a : ℕ) → tally a r' ≡ tally a r)
      × SameButIds mo mo'
move_to_failed_ids_lem mo r rid h pending =
    let (rest, e) = remove_first-contains rid r.pending pending in
    (
      record mo { recipient_ids = join_ids rest; failed_ids = join_ids (r.failed ++ (rid ∷ [])) },
      record r { pending = rest; failed = r.failed ++ (rid ∷ []) },
      move_to_failed-step mo r rid rest h e,
      record { pending = get_ids-join_ids rest; reached = h.reached; failed = get_ids-join_ids _ },
      refl,
      refl,
      e,
      λ a.
          ground
            (arith, count-remove_first a rid r.pending rest e, count-append a r.failed (rid ∷ [])),
      (refl, refl, refl, refl, refl, refl, refl, refl, refl),
    )

-- An id that is not pending is neither marked as reached nor as failed: both calls raise, and leave
-- the mailing as it was. So an id is never moved twice.
pub move_missing :
    (mo : MailingOut) (r : Recipients) (rid : ℕ)
    → Holds mo r
    → contains rid r.pending ≡ false
    → (move_to_successful_ids rid mo ≡ (none, mo)) × (move_to_failed_ids rid mo ≡ (none, mo))
unfolding move_to_successful_ids move_to_failed_ids
move_missing mo r rid h missing = (
  ground (arith, h.pending, remove_first_missing rid r.pending missing),
  ground (arith, h.pending, remove_first_missing rid r.pending missing),
)

-- Sending to the failed recipients again returns, makes the mailing active, puts the failed ids
-- behind the pending ones, empties the failed ones, keeps the reached ones, and so loses no id.
pub send_failed_recipients_lem :
    (mo : MailingOut) (r : Recipients)
    → Holds mo r
    → (mo' : MailingOut) × (r' : Recipients) × (send_failed_recipients mo ≡ (some tt, mo'))
      × Holds mo' r'
      × (mo'.status ≡ active)
      × (r'.pending ≡ r.pending ++ r.failed)
      × (r'.reached ≡ r.reached)
      × (r'.failed ≡ [])
      × ((a : ℕ) → tally a r' ≡ tally a r)
unfolding send_failed_recipients
send_failed_recipients_lem mo r h = (
  record mo { status = active; recipient_ids = join_ids (r.pending ++ r.failed); failed_ids = [] },
  record { pending = r.pending ++ r.failed; reached = r.reached; failed = [] },
  ground (arith, h.pending, h.failed),
  record { pending = get_ids-join_ids _; reached = h.reached; failed = get_ids-nil },
  refl,
  refl,
  refl,
  refl,
  λ a. ground (arith, count-append a r.pending r.failed),
)
