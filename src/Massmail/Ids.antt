-- ===== src/Massmail/Ids.antt =====
-- The comma-separated id fields of massmail/models/mailing_out.py: `get_ids` and `",".join(map(str,
-- ids))`. A text is the list of its code points. `int` is Python's on a decimal numeral, which is
-- all that the program writes into these fields; on any other text it is ValueError, `none`.
use django_crm_marscode.Prelude.{
  refl, ◌∙◌, ℕ, zero, suc, ◌+◌, ◌-◌, ◌*◌, ◌/◌, ◌%◌, Bool, ◌&&◌, Option, none, some, List, [], ◌∷◌,
  inl, inr, Bool-cases, ltb, leb, ◌==◌, if◌then◌else◌, ◌<◌, arith, All, map, ◌≡◌, ◌++◌, true, ap,
  ◌≢◌, false, ◌⊎◌,
}

abbrev pub Text : Type 0
Text = List ℕ

-- `str(n)`, digits put in front of `acc`; the fuel bounds the number of digits.
dec_digits : ℕ → ℕ → Text → Text
dec_digits zero n acc = acc
dec_digits (suc f) n acc =
    let more = dec_digits f (n / 10) ((48 + n % 10) ∷ acc) in
    if ltb n 10 then (48 + n) ∷ acc else more

pub str : ℕ → Text
unfolding dec_digits
str n = dec_digits (suc n) n []

abbrev is_digit : ℕ → Bool
is_digit c = leb 48 c && leb c 57

int_from : ℕ → Text → Option ℕ
int_from n [] = some n
int_from n (c ∷ cs) = if is_digit c then int_from (n * 10 + (c - 48)) cs else none

pub int : Text → Option ℕ
unfolding int_from
int [] = none
int (c ∷ cs) = int_from 0 (c ∷ cs)

abbrev push : ℕ → List Text → List Text
push c [] = (c ∷ []) ∷ []
push c (p ∷ ps) = (c ∷ p) ∷ ps

-- `text.split(',')`: always at least one piece.
pub split : Text → List Text
split [] = [] ∷ []
split (c ∷ cs) = let rest = split cs in if c == b',' then [] ∷ rest else push c rest

-- `",".join(pieces)`
pub join : List Text → Text
join [] = []
join (p ∷ []) = p
join (p ∷ q ∷ ps) = p ++ (b',' ∷ join (q ∷ ps))

-- `",".join(map(str, ids))`
pub join_ids : List ℕ → Text
join_ids ids = join (map str ids)

int_all : List Text → Option (List ℕ)
int_all [] = some []
int_all (p ∷ ps) = elim (int p) [
  | none ↦ none
  | some n ↦ elim (int_all ps) [ none ↦ none | some ns ↦ some (n ∷ ns) ]
]

-- `MailingOut.get_ids(field)`
pub get_ids : Text → Option (List ℕ)
get_ids [] = some []
get_ids (c ∷ cs) = int_all (split (c ∷ cs))

get_ids_sample : get_ids (join_ids (7 ∷ 120 ∷ 0 ∷ [])) ≡ some (7 ∷ 120 ∷ 0 ∷ [])
unfolding get_ids int_all int split join_ids join str
get_ids_sample = refl

abbrev IsDigits : Text → Type 0
IsDigits t = All (λ c. is_digit c ≡ true) t

dec_digits-IsDigits : (f n : ℕ) (acc : Text) → IsDigits acc → IsDigits (dec_digits f n acc)
unfolding dec_digits
dec_digits-IsDigits zero n acc h = h
dec_digits-IsDigits (suc f) n acc h = elim (Bool-cases (ltb n 10)) [
  | inl small ↦ rw small (ground arith, h)
  | inr large ↦ rw large (dec_digits-IsDigits f (n / 10) _ (ground arith, h))
]

int_from-digit :
    (n d : ℕ) (cs : Text) → d < 10 → int_from n ((48 + d) ∷ cs) ≡ int_from (n * 10 + d) cs
unfolding int_from
int_from-digit n d cs h =
    let e : n * 10 + (48 + d - 48) ≡ n * 10 + d = omega arith in
    let yes_digit : is_digit (48 + d) ≡ true = ground arith in rw (yes_digit, e)

-- Reading the digits from the left gives the number back, and goes on with what follows.
int_from-dec_digits :
    (f n : ℕ) (acc : Text) → n < f → int_from 0 (dec_digits f n acc) ≡ int_from n acc
unfolding dec_digits
int_from-dec_digits zero n acc h = absurd (omega arith)
int_from-dec_digits (suc f) n acc h = elim (Bool-cases (ltb n 10)) [
  | inl small ↦
      rw small
        (int_from-digit 0 n acc (ground arith) ∙ ap (λ (k : ℕ). int_from k acc) (omega arith))
  | inr large ↦ rw large (
      int_from-dec_digits f (n / 10) _ (ground arith)
      ∙ int_from-digit (n / 10) (n % 10) acc (omega arith)
      ∙ ap (λ (k : ℕ). int_from k acc) (omega arith))
]

int_of_int_from : (t : Text) (n : ℕ) → t ≢ [] → int_from 0 t ≡ some n → int t ≡ some n
unfolding int
int_of_int_from [] n h e = absurd (h refl)
int_of_int_from (c ∷ cs) n h e = e

-- The code's recursion puts at least one digit.
dec_digits-ne-nil : (f n : ℕ) (acc : Text) → (f ≢ 0) ⊎ (acc ≢ []) → dec_digits f n acc ≢ []
unfolding dec_digits
dec_digits-ne-nil zero n acc (inl h) = absurd (h refl)
dec_digits-ne-nil zero n acc (inr h) = h
dec_digits-ne-nil (suc f) n acc h = elim (Bool-cases (ltb n 10)) [
  | inl small ↦ rw small (λ e. cc)
  | inr large ↦ rw large (dec_digits-ne-nil f (n / 10) _ (inr (λ e. cc)))
]

str-ne-nil : (n : ℕ) → str n ≢ []
unfolding str
str-ne-nil n = dec_digits-ne-nil (suc n) n [] (inl (λ e. omega arith))

pub int-str : (n : ℕ) → int (str n) ≡ some n
int-str n =
    int_of_int_from (str n) n (str-ne-nil n)
      (unfold str int_from in int_from-dec_digits (suc n) n [] (omega arith))

str-IsDigits : (n : ℕ) → IsDigits (str n)
unfolding str
str-IsDigits n = dec_digits-IsDigits (suc n) n [] tt

-- A piece of digits holds no comma, so `split` ends it at the comma.
split-digits : (p : Text) → IsDigits p → split p ≡ p ∷ []
unfolding split
split-digits [] h = refl
split-digits (c ∷ cs) h =
    let other : (c == b',') ≡ false = ground arith in rw (other, split-digits cs h.1)

split-digits-comma : (p rest : Text) → IsDigits p → split (p ++ (b',' ∷ rest)) ≡ p ∷ split rest
unfolding split
split-digits-comma [] rest h = refl
split-digits-comma (c ∷ cs) rest h =
    let other : (c == b',') ≡ false = ground arith in rw (other, split-digits-comma cs rest h.1)

split-join-str : (n : ℕ) (ns : List ℕ) → split (join (map str (n ∷ ns))) ≡ map str (n ∷ ns)
unfolding join
split-join-str n [] = split-digits (str n) (str-IsDigits n)
split-join-str n (m ∷ ns) = split-digits-comma (str n) _ (str-IsDigits n) ∙ rw (split-join-str m ns)

int_all-str : (ns : List ℕ) → int_all (map str ns) ≡ some ns
unfolding int_all
int_all-str [] = refl
int_all-str (n ∷ ns) = cc (int-str n, int_all-str ns)

get_ids-eq-int_all : (t : Text) → t ≢ [] → get_ids t ≡ int_all (split t)
unfolding get_ids
get_ids-eq-int_all [] h = absurd (h refl)
get_ids-eq-int_all (c ∷ cs) h = refl

append-ne-nil : (p q : Text) → p ≢ [] → p ++ q ≢ []
append-ne-nil [] q h = absurd (h refl)
append-ne-nil (c ∷ cs) q h = λ e. cc

join-str-ne-nil : (n : ℕ) (ns : List ℕ) → join (map str (n ∷ ns)) ≢ []
unfolding join
join-str-ne-nil n [] = str-ne-nil n
join-str-ne-nil n (m ∷ ns) = append-ne-nil (str n) _ (str-ne-nil n)

-- The ids that `",".join(map(str, ids))` stores are read back by `get_ids`, for every list of ids.
pub get_ids-join_ids : (ids : List ℕ) → get_ids (join_ids ids) ≡ some ids
unfolding join_ids
get_ids-join_ids [] = unfold get_ids join in refl
get_ids-join_ids (n ∷ ns) =
    get_ids-eq-int_all _ (join-str-ne-nil n ns)
    ∙ ap int_all (split-join-str n ns)
    ∙ int_all-str (n ∷ ns)

pub get_ids-nil : get_ids [] ≡ some []
unfolding get_ids
get_ids-nil = refl
