-- ===== src/Massmail/Actions.antt =====
-- massmail/admin_actions.py: a mailing is made from selected recipients, and selected mailings are
-- merged into one.
pub mod Merged
use django_crm_marscode.Prelude.{
  ℕ, zero, suc, ◌+◌, ◌-◌, ◌*◌, ◌/◌, ◌%◌, ◌≤◌, ◌<◌, String, ◌≡◌, refl, sym, ap, ◌∙◌, ◌≢◌, ◌↔◌, ◌⊎◌,
  inl, inr, Bool, true, false, not, ◌&&◌, ◌||◌, Option, none, some, List, [], ◌∷◌, ◌++◌, map,
  append_assoc, append-nil, arith, ltb, leb, ◌==◌, if◌then◌else◌, opt_eq, is_some, ltb→lt, lt→ltb,
  leb→le, ==_iff, ==_self, Bool-cases, Option-cases, length, length-append, All, filter, find, any,
  all, contains, remove_first, count, count-append, contains-append, remove_first-contains,
  remove_first_missing, count-remove_first,
}
use django_crm_marscode.Massmail.Ids.{join_ids}
use django_crm_marscode.Massmail.Accounts.{EmailAccount}
use django_crm_marscode.Massmail.MailingOut.{
  MailingOut, Status, active, paused, Kind, contact, company, lead, Line, merged_mark,
  get_recipient_ids, get_successful_ids, get_failed_ids,
}

-- `list(set(ids))`; the order of a set is not fixed, and is that of the last occurrences here.
abbrev pub list_set : List ℕ → List ℕ
list_set [] = []
list_set (x ∷ xs) = if contains x xs then list_set xs else x ∷ list_set xs

-- Whether a value other than the first one occurs: `len(set(values)) > 1`.
unfoldable pub multiple_value : List (Option ℕ) → Bool
multiple_value [] = false
multiple_value (v ∷ vs) = any (λ w. not (opt_value_eq v w)) vs
  where
    opt_value_eq : Option ℕ → Option ℕ → Bool
    opt_value_eq none none = true
    opt_value_eq (some a) (some b) = a == b
    opt_value_eq _ _ = false

abbrev pub kind_key : Kind → Option ℕ
kind_key contact = some 0
kind_key company = some 1
kind_key lead = some 2

unfoldable pub multiple_owners : List (Option ℕ) → Bool
unfolding multiple_value
multiple_owners owners = multiple_value owners

-- A selected company, contact person or lead.
pub record Selected : Type 0 where
  pub ident : ℕ
  pub owner : Option ℕ
  pub massmail : Bool
  pub disqualified : Bool

-- `have_massmail_accounts`
unfoldable pub have_massmail_accounts : ℕ → List EmailAccount → Bool
have_massmail_accounts user = any (λ ea. ea.massmail && opt_eq ea.owner (some user))

abbrev pub is_eligible : Selected → Bool
is_eligible obj = not (not obj.massmail || obj.disqualified)

abbrev pub ids_of : List Selected → List ℕ
ids_of = map (λ obj. obj.ident)

abbrev pub new_mailing : ℕ → ℕ → Kind → List Selected → MailingOut
new_mailing key user kind objs = record {
  ident = key;
  owner = some user;
  status = paused;
  kind = kind;
  message = none;
  recipients_number = length objs;
  recipient_ids = join_ids (ids_of objs);
  successful_ids = [];
  failed_ids = [];
  report = [];
  today_count = 0;
  sending_date = none;
}

abbrev made : ℕ → ℕ → Kind → List Selected → Option MailingOut
made key user kind [] = none
made key user kind (obj ∷ objs) = some (new_mailing key user kind (obj ∷ objs))

-- The mailing that is created, if any; the field's default status is paused.
unfoldable pub make_mailing_out :
    ℕ → ℕ → List EmailAccount → Kind → List Selected → Option MailingOut
unfolding have_massmail_accounts multiple_owners
make_mailing_out key user accounts kind queryset =
    if not (have_massmail_accounts user accounts)
      || multiple_owners (map (λ obj. obj.owner) queryset)
    then none
    else made key user kind (filter is_eligible queryset)

-- What the loop over the mailings gathers.
pub record Gathered : Type 0 where
  pub recipient_ids : List ℕ
  pub successful_ids : List ℕ
  pub failed_ids : List ℕ
  pub recipients_number : ℕ
  pub report : List Line

abbrev pub marked : List Line → List Line
marked [] = []
marked (l ∷ ls) = merged_mark ∷ l ∷ ls

abbrev pub joined : MailingOut → List ℕ → List ℕ → List ℕ → Gathered → Gathered
joined mo rs ss fs g = record {
  recipient_ids = rs ++ g.recipient_ids;
  successful_ids = ss ++ g.successful_ids;
  failed_ids = fs ++ g.failed_ids;
  recipients_number = mo.recipients_number + g.recipients_number;
  report = marked mo.report ++ g.report;
}

abbrev gather_one :
    MailingOut
    → Option (List ℕ)
    → Option (List ℕ)
    → Option (List ℕ)
    → Option Gathered
    → Option Gathered
gather_one mo (some rs) (some ss) (some fs) (some g) = some (joined mo rs ss fs g)
gather_one mo _ _ _ _ = none

unfoldable pub gather : List MailingOut → Option Gathered
unfolding get_recipient_ids get_successful_ids get_failed_ids
gather [] = some (record {
  recipient_ids = [];
  successful_ids = [];
  failed_ids = [];
  recipients_number = 0;
  report = [];
})
gather (mo ∷ mos) =
    gather_one mo (get_recipient_ids mo) (get_successful_ids mo) (get_failed_ids mo) (gather mos)

-- The first mailing, under a new key and with what was gathered. Its name is left out.
abbrev pub united : ℕ → MailingOut → Gathered → MailingOut
united key first g = record first {
  ident = key;
  recipient_ids = join_ids (list_set g.recipient_ids);
  successful_ids = join_ids g.successful_ids;
  failed_ids = join_ids g.failed_ids;
  recipients_number = g.recipients_number;
  report = g.report;
}

pub data MergeResult : Type 0 where
  refused raised : MergeResult
  merged : MailingOut → List MailingOut → MergeResult

abbrev merge_gathered : ℕ → List MailingOut → List MailingOut → Option Gathered → MergeResult
merge_gathered key [] others g = raised
merge_gathered key (first ∷ rest) others none = raised
merge_gathered key (first ∷ rest) others (some g) =
    merged (united key first g) (others ++ (united key first g ∷ []))

-- The three checks of the selected mailings.
unfoldable pub differ : List MailingOut → Bool
unfolding multiple_owners multiple_value
differ mos =
    multiple_owners (map (λ mo. mo.owner) mos)
    || (multiple_value (map (λ mo. kind_key mo.kind) mos)
        || multiple_value (map (λ mo. mo.message) mos))

-- `rows` is the table of mailings, and `chosen` the test of those that are selected; the result has
-- the new mailing, and the table without the selected ones and with it.
unfoldable pub merge_mailing_outs : ℕ → (MailingOut → Bool) → List MailingOut → MergeResult
unfolding differ gather
merge_mailing_outs key chosen rows =
    let queryset = filter chosen rows in
    if differ queryset
    then refused
    else merge_gathered key queryset (filter (λ mo. not (chosen mo)) rows) (gather queryset)
