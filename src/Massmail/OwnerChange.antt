-- ===== src/Massmail/OwnerChange.antt =====
-- crm/utils/change_massconts.py: a company has a new owner, whose accounts take over the mailing
-- contacts of the company and of its people. `none` is an exception.
pub mod Turns
use django_crm_marscode.Prelude.{
  ℕ, zero, suc, ◌≡◌, refl, sym, ◌∙◌, ap, Bool, true, false, not, ◌&&◌, ◌||◌, Option, none, some,
  List, [], ◌∷◌, ◌++◌, ◌==◌, if◌then◌else◌, opt_eq, Bool-cases, inl, inr, filter, find, map,
  contains, length, All, arith,
}
use django_crm_marscode.Prelude.Options.{◌>>=◌}
use django_crm_marscode.Massmail.MailingOut.{contact, company, kind_eq}
use django_crm_marscode.Massmail.Queue.{EmlAccountsQueue, get_next}
use django_crm_marscode.Massmail.Queue.Rotation.{holding, get_next_times}
use django_crm_marscode.Massmail.Accounts.{Queues, save_queue}
use django_crm_marscode.Massmail.Sending.Tables.{MassContact}

-- What is read of the company: its key, its owner, and the keys of `company.contacts`.
pub record Firm : Type 0 where
  pub ident : ℕ
  pub owner : Option ℕ
  pub contacts : List ℕ

abbrev pub of_company : Firm → MassContact → Bool
of_company firm mc = kind_eq mc.kind company && mc.object_id == firm.ident

abbrev pub of_people : Firm → MassContact → Bool
of_people firm mc = kind_eq mc.kind contact && contains mc.object_id firm.contacts

abbrev pub is_touched : Firm → MassContact → Bool
is_touched firm mc = of_company firm mc || of_people firm mc

-- The keys that an account can have are not 0; `is_account` tells which of them have one.
abbrev pub has_account : (ℕ → Bool) → ℕ → Bool
has_account is_account zero = false
has_account is_account (suc a) = is_account (suc a)

abbrev pub with_mail_account : MassContact → ℕ → MassContact
with_mail_account mc a = record mc { email_account = some a }

-- `EmailAccount.objects.get(id=email_account_id)` for what `get_next` gives.
abbrev pub the_account :
    (ℕ → Bool) → Option (Option ℕ) → EmlAccountsQueue → Option (ℕ × EmlAccountsQueue)
the_account is_account none q = none
the_account is_account (some none) q = none
the_account is_account (some (some a)) q = if has_account is_account a then some (a, q) else none

abbrev pub take_account : (ℕ → Bool) → EmlAccountsQueue → Option (ℕ × EmlAccountsQueue)
take_account is_account q = the_account is_account (get_next q).0 (get_next q).1

-- `for mc in mcs`, over the table in its order.
unfoldable pub serve_people :
    (ℕ → Bool)
    → (MassContact → Bool)
    → List MassContact
    → EmlAccountsQueue
    → Option (List MassContact × EmlAccountsQueue)
serve_people is_account chosen [] q = some ([], q)
serve_people is_account chosen (mc ∷ mcs) q =
    if chosen mc
    then (do
      taken ← take_account is_account q
      rest ← serve_people is_account chosen mcs taken.1
      some (with_mail_account mc taken.0 ∷ rest.0, rest.1))
    else (do rest ← serve_people is_account chosen mcs q; some (mc ∷ rest.0, rest.1))

-- `account_mc.update(email_account=email_account)`
abbrev pub serve_company : Firm → ℕ → List MassContact → List MassContact
serve_company firm a mcs = map (λ mc. if of_company firm mc then with_mail_account mc a else mc) mcs

-- `account_mc.delete()` and `mcs.delete()`
abbrev pub drop_contacts : Firm → List MassContact → List MassContact
drop_contacts firm mcs = filter (λ mc. not (is_touched firm mc)) mcs

-- From the first value of `email_account_id` on; `q` is the queue after that call of `get_next`.
abbrev pub hand_over :
    (ℕ → Bool)
    → Firm
    → Queues
    → List MassContact
    → Option (Option ℕ)
    → EmlAccountsQueue
    → Option (Queues × List MassContact)
hand_over is_account firm queues mcs none q = none
hand_over is_account firm queues mcs (some none) q =
    some (save_queue q queues, drop_contacts firm mcs)
hand_over is_account firm queues mcs (some (some zero)) q =
    some (save_queue q queues, drop_contacts firm mcs)
hand_over is_account firm queues mcs (some (some (suc a))) q =
    if is_account (suc a)
    then (do
      served ← serve_people is_account (of_people firm) (serve_company firm (suc a) mcs) q
      some (save_queue served.1 queues, served.0))
    else none

abbrev pub with_first :
    (ℕ → Bool)
    → Firm
    → Queues
    → List MassContact
    → Option EmlAccountsQueue
    → Option (Queues × List MassContact)
with_first is_account firm queues mcs none = some (queues, drop_contacts firm mcs)
with_first is_account firm queues mcs (some q) =
    hand_over is_account firm queues mcs (get_next q).0 (get_next q).1

-- `change_massconts`
unfoldable pub change_massconts :
    (ℕ → Bool) → Firm → Queues → List MassContact → Option (Queues × List MassContact)
change_massconts is_account firm queues mcs =
    with_first is_account firm queues mcs (find (λ q. opt_eq q.owner firm.owner) queues)
