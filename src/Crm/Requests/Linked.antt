-- ===== src/Crm/Requests/Linked.antt =====
-- crm/models/request.py: what the searches leave of a request.
use django_crm_marscode.Prelude.{
  ℕ, ◌≡◌, refl, ap, ◌∙◌, Bool, true, false, not, ◌&&◌, ◌||◌, Option, none, some, List, [], ◌∷◌, map,
  arith, ltb, if◌then◌else◌, opt_eq, is_some, ==_self, length, filter,
}
use django_crm_marscode.Crm.Requests.{Request, Base, is_given, Contact, some_row, Company}
use django_crm_marscode.Crm.Requests.Companies.{
  put_company, companies1, companies2, companies3, companies4, companies5, keys, put_only,
  put_first, put_first_or, put_by_domain, by_domain, among, find_company,
}
use django_crm_marscode.Crm.Requests.Texts.{get_email_domain}

-- The second request is the first one with another link to a company, at most; a company that is new
-- has to be verified.
pub record Linked (q q' : Request) : Type 0 where
  pub contact : q'.contact ≡ q.contact
  pub lead : q'.lead ≡ q.lead
  pub owner : q'.owner ≡ q.owner
  pub pending : q'.pending ≡ q.pending
  pub verified :
      (q'.verification_required || not (is_some q'.company) || opt_eq q'.company q.company) ≡ true
  pub still : (q.verification_required && not q'.verification_required) ≡ false

opt_eq_self : (o : Option ℕ) → opt_eq o o ≡ true
opt_eq_self none = refl
opt_eq_self (some a) = ==_self a

module _ (q : Request) where
  linked : Linked q q
  linked = record {
    contact = refl;
    lead = refl;
    owner = refl;
    pending = refl;
    verified = rw (opt_eq_self q.company) (ground arith);
    still = ground arith;
  }

  put_company-Linked : (c : ℕ) (q' : Request) → Linked q q' → Linked q (put_company c q')
  put_company-Linked c q' h = record {
    contact = h.contact;
    lead = h.lead;
    owner = h.owner;
    pending = h.pending;
    verified = refl;
    still = ground arith;
  }

  put_only-Linked : (l : List ℕ) (rest : Request) → Linked q rest → Linked q (put_only l q rest)
  put_only-Linked [] rest h = h
  put_only-Linked (c ∷ []) rest h = put_company-Linked c q linked
  put_only-Linked (c ∷ d ∷ more) rest h = h

  put_first-Linked : (l : List ℕ) (q' : Request) → Linked q q' → Linked q (put_first l q')
  put_first-Linked [] q' h = h
  put_first-Linked (c ∷ more) q' h = put_company-Linked c q' h

  put_first_or-Linked :
      (l : List ℕ) (rest : Request) → Linked q rest → Linked q (put_first_or l q rest)
  put_first_or-Linked [] rest h = h
  put_first_or-Linked (c ∷ more) rest h = put_company-Linked c q linked

  put_by_domain-Linked : (l : List ℕ) → Linked q (put_by_domain l q)
  put_by_domain-Linked [] = record {
    contact = refl;
    lead = refl;
    owner = refl;
    pending = refl;
    verified = ground arith;
    still = ground arith;
  }
  put_by_domain-Linked (c ∷ more) = put_company-Linked c q linked

  if-Linked :
      (b : Bool) (q1 q2 : Request) → Linked q q1 → Linked q q2 → Linked q (if b then q1 else q2)
  if-Linked true q1 q2 h1 h2 = h1
  if-Linked false q1 q2 h1 h2 = h2

  module _ (base : Base) where
    by_domain-Linked : Linked q (by_domain base q)
    by_domain-Linked =
        let domain = get_email_domain base q.email in
        let found = keys (filter (base.of_company.domain domain) base.companies) in
        if-Linked (is_given q.email) (if is_given domain then put_by_domain found q else q) q
          (if-Linked (is_given domain) (put_by_domain found q) q (put_by_domain-Linked found)
            linked)
          linked

    among-Linked : (one two three four : List ℕ) → Linked q (among base one two three four q)
    among-Linked one two three four =
        if-Linked (some_row four || some_row three || some_row two || some_row one)
          (put_first two (put_first three (put_first four q))) (by_domain base q)
          (put_first-Linked two _ (put_first-Linked three _ (put_first-Linked four q linked)))
          by_domain-Linked

-- The search for a company changes nothing of the counterparty, the owner and the state of the
-- request. Where it leaves another company than the request had, the link has to be verified.
pub find_company-Linked : (base : Base) (q : Request) → Linked q (find_company base q)
unfolding find_company
find_company-Linked base q =
    let one = companies1 base q in
    let two = companies2 base q one in
    let three = companies3 base q one two in
    let four = companies4 base q one two three in
    let five = companies5 base q four in
    let last = among base one two (keys three) (keys four) q in
    let rest = put_only one q (
      put_only two q
        (put_only (keys three) q (put_only (keys four) q (put_first_or (keys five) q last)))) in
    if-Linked q (is_some q.company && is_some q.contact && is_some q.lead) q rest (linked q) (
      put_only-Linked q one _ (
        put_only-Linked q two _ (
          put_only-Linked q (keys three) _ (
            put_only-Linked q (keys four) _ (
              put_first_or-Linked q (keys five) last
                (among-Linked q base one two (keys three) (keys four)))))))

-- The results where only the phone gives one.
only_phone :
    (base : Base) (q : Request) (k : ℕ) (more one two three four five : List ℕ)
    → one ≡ []
    → two ≡ k ∷ more
    → three ≡ []
    → four ≡ []
    → five ≡ []
    → (put_only one q (
        put_only two q (
          put_only three q
            (put_only four q (put_first_or five q (among base one two three four q)))))).company
      ≡ some k
only_phone base q k [] one two three four five h1 h2 h3 h4 h5 = rw h1 (rw h2 refl)
only_phone base q k (l ∷ more) one two three four five h1 h2 h3 h4 h5 =
    rw h1 (rw h2 (rw h3 (rw h4 (rw h5 refl))))

filter_every : {A : Type 0} (p : A → Bool) (l : List A) → ((x : A) → p x ≡ true) → filter p l ≡ l
filter_every p [] h = refl
filter_every p (x ∷ l) h = rw (h x) (ap (λ t. x ∷ t) (filter_every p l h))

module _ (base : Base) (q : Request) where
  companies1_no_email : is_given q.email ≡ false → companies1 base q ≡ []
  companies1_no_email none' = rw none' refl

  companies2_short :
      (one : List ℕ)
      → one ≡ []
      → is_given q.phone ≡ true
      → ltb 4 (length (filter base.isdigit q.phone)) ≡ false
      → companies2 base q one ≡ map (λ c. c.company) base.contacts
  companies2_short one h given short =
      rw h
        (rw given (ap (map (λ c. c.company)) (filter_every _ base.contacts (λ c. rw short refl))))

  companies3_no_name :
      (one two : List ℕ) → is_given q.company_name ≡ false → companies3 base q one two ≡ []
  companies3_no_name one two none' = rw none' refl

  companies4_no_name :
      (one two : List ℕ) (three : List Company)
      → is_given q.company_name ≡ false
      → companies4 base q one two three ≡ []
  companies4_no_name one two three none' = rw none' refl

  companies5_few : (four : List Company) → four ≡ [] → companies5 base q four ≡ []
  companies5_few four h = rw h (ground arith)

-- A phone with fewer than five digits, no email and no name of a company: the company of the first
-- contact in the table is set, if there is one.
find_company_short_phone :
    (base : Base) (q : Request) (c : Contact) (more : List Contact)
    → is_given q.email ≡ false
    → is_given q.company_name ≡ false
    → is_given q.phone ≡ true
    → ltb 4 (length (filter base.isdigit q.phone)) ≡ false
    → base.contacts ≡ c ∷ more
    → (is_some q.company && is_some q.contact && is_some q.lead) ≡ false
    → (find_company base q).company ≡ some c.company
unfolding find_company
find_company_short_phone base q c more no_email no_name given short table open' =
    let one = companies1 base q in
    let two = companies2 base q one in
    let three = companies3 base q one two in
    let four = companies4 base q one two three in
    let five = companies5 base q four in
    let h1 = companies1_no_email base q no_email in
    let h3 = companies3_no_name base q one two no_name in
    let h4 = companies4_no_name base q one two three no_name in
    rw open' (
      only_phone base q c.company (map (λ d. d.company) more) one two (keys three) (keys four)
        (keys five) h1
        (companies2_short base q one h1 given short ∙ ap (map (λ d. d.company)) table) (ap keys h3)
        (ap keys h4) (ap keys (companies5_few base q four h4)))
