-- ===== src/Massmail/Accounts.antt =====
-- massmail/models/email_account.py and massmail/site/emailaccountadmin.py: an account and its place
-- in the queues of their owners. The table of queues is the list of its rows.
pub mod Membership
use django_crm_marscode.Prelude.Exec.{exec, Exec, ◌>>=◌, ◌>>◌, pure, then_do}
use django_crm_marscode.Prelude.{
  ℕ, zero, suc, ◌+◌, ◌-◌, ◌*◌, ◌/◌, ◌%◌, ◌≤◌, ◌<◌, String, ◌≡◌, refl, sym, ap, ◌∙◌, ◌≢◌, ◌↔◌, ◌⊎◌,
  inl, inr, Bool, true, false, not, ◌&&◌, ◌||◌, Option, none, some, List, [], ◌∷◌, ◌++◌, map,
  append_assoc, append-nil, arith, ltb, leb, ◌==◌, if◌then◌else◌, opt_eq, is_some, ltb→lt, lt→ltb,
  leb→le, ==_iff, ==_self, Bool-cases, Option-cases, length, length-append, All, filter, find, any,
  all, contains, remove_first, count, count-append, contains-append, remove_first-contains,
  remove_first_missing, count-remove_first,
}
use django_crm_marscode.Massmail.Queue.{
  EmlAccountsQueue, QueueText, dumped, get_next, add_id, remove_id,
}

pub record EmailAccount : Type 0 where
  pub ident : ℕ
  pub owner : Option ℕ
  pub main : Bool
  pub massmail : Bool
  pub do_import : Bool
  pub has_imap_host : Bool
  pub today_date : Option ℕ
  pub today_count : ℕ

-- `clean`: an import needs the imap host; `false` is ValidationError.
unfoldable pub clean : EmailAccount → Bool
clean ea = not (ea.do_import && not ea.has_imap_host)

abbrev pub Queues : Type 0
Queues = List EmlAccountsQueue

-- `EmlAccountsQueue.objects.get(owner=owner)`: DoesNotExist, the row, or MultipleObjectsReturned.
pub data Got : Type 0 where
  missing several : Got
  found : EmlAccountsQueue → Got

abbrev pub got : Queues → Got
got [] = missing
got (q ∷ []) = found q
got (q ∷ r ∷ table) = several

unfoldable pub get_queue_of : Option ℕ → Queues → Got
get_queue_of owner table = got (filter (λ q. opt_eq q.owner owner) table)

-- `self.save()` of a row that is in the table
abbrev pub save_queue : EmlAccountsQueue → Queues → Queues
save_queue q [] = []
save_queue q (r ∷ table) = (if r.ident == q.ident then q else r) ∷ save_queue q table

-- A method of the queue object, with the save that ends it.
abbrev pub on_queue : {A : Type 0} → EmlAccountsQueue → Exec EmlAccountsQueue A → Exec Queues A
on_queue q m table = ((m q).0, save_queue (m q).1 table)

-- `EmailAccount.delete`, up to the deletion of the row: `ObjectDoesNotExist` is passed over.
unfoldable pub leave_queue : EmailAccount → Exec Queues (Unit {0})
unfolding get_queue_of
leave_queue ea table = elim (get_queue_of ea.owner table) [
  | missing ↦ (some tt, table)
  | several ↦ (none, table)
  | found q ↦ on_queue q (remove_id ea.ident) table
]

abbrev pub then_rest :
    Option (Unit {0}) × EmlAccountsQueue
    → Queues
    → Option (Unit {0}) × Queues
    → Option (Unit {0}) × Queues
then_rest (none, q) table rest = (none, q ∷ table)
then_rest (some _, q) table (r, table') = (r, q ∷ table')

-- `for qobj in EmlAccountsQueue.objects.all(): qobj.remove_id(obj.pk)`
unfoldable pub remove_everywhere : ℕ → Exec Queues (Unit {0})
remove_everywhere pk [] = (some tt, [])
remove_everywhere pk (q ∷ table) = then_rest (remove_id pk q) table (remove_everywhere pk table)

-- What the admin form reports: whether a row is changed or added, and the changed fields.
pub record Form : Type 0 where
  pub change : Bool
  pub main_changed : Bool
  pub owner_changed : Bool

abbrev pub created : ℕ → Option ℕ → EmlAccountsQueue
created fresh owner = record { ident = fresh; owner = owner; queue = dumped [] }

abbrev pub with_queue : Got → ℕ → Option ℕ → Exec Queues EmlAccountsQueue
with_queue missing fresh owner table =
    (some (created fresh owner), table ++ (created fresh owner ∷ []))
with_queue several fresh owner table = (none, table)
with_queue (found q) fresh owner table = (some q, table)

-- `EmlAccountsQueue.objects.get_or_create(owner=owner)`; `fresh` is the key of a new row.
unfoldable pub get_or_create : ℕ → Option ℕ → Exec Queues EmlAccountsQueue
unfolding get_queue_of
get_or_create fresh owner table = with_queue (get_queue_of owner table) fresh owner table

abbrev pub when : Bool → Exec Queues (Unit {0}) → Exec Queues (Unit {0})
when b m = if b then m else pure tt

-- The object that `add_id` has changed is the one that `remove_id` is called on.
abbrev pub after_add : EmlAccountsQueue → ℕ → Bool → EmlAccountsQueue
after_add q pk b = if b then (add_id pk q).1 else q

-- The part of `save_model` that has the queue object of the owner.
unfoldable pub place : EmailAccount → Form → EmlAccountsQueue → Exec Queues (Unit {0})
place obj form q = do
  when (obj.massmail && not obj.main) (on_queue q (add_id obj.ident))
  when (form.change && form.main_changed && obj.main)
      (on_queue (after_add q obj.ident (obj.massmail && not obj.main)) (remove_id obj.ident))
  when (form.change && form.owner_changed) (remove_everywhere obj.ident)

-- `EmailAccountAdmin.save_model` after the row of the account is saved
unfoldable pub save_model : ℕ → EmailAccount → Form → Exec Queues (Unit {0})
unfolding get_or_create
save_model fresh obj form = get_or_create fresh obj.owner >>= place obj form
