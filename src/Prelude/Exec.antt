-- ===== src/Prelude/Exec.antt =====
-- Code that changes a state and may raise an exception. A raise keeps the changes made before it,
-- as Python does: `none` is a raised exception, whatever its class.
use mathlib.Core.Path.{◌≡◌, refl, sym, subst}
use mathlib.Core.Option.{Option, none, some, some-injective}
use mathlib.Core.Bool.{Bool, true, false}
use django_crm_marscode.Prelude.Tests.{if◌then◌else◌}
use mathlib.Core.List.{List, [], ◌∷◌}

abbrev pub Exec : Type 0 → Type 0 → Type 0
Exec S A = S → Option A × S

abbrev pub then_do : {S A B : Type 0} → Option A → S → (A → Exec S B) → Option B × S
then_do none s f = (none, s)
then_do (some a) s f = f a s

infixl 5 ◌>>=◌ ◌>>◌
unfoldable pub ◌>>=◌ : {S A B : Type 0} → Exec S A → (A → Exec S B) → Exec S B
◌>>=◌ m f s = then_do (m s).0 (m s).1 f

unfoldable pub ◌>>◌ : {S B : Type 0} → Exec S (Unit {0}) → Exec S B → Exec S B
unfolding ◌>>=◌
m >> k = m >>= λ _. k

unfoldable pub pure : {S A : Type 0} → A → Exec S A
pure a s = (some a, s)

unfoldable pub raise : {S A : Type 0} → Exec S A
raise s = (none, s)

unfoldable pub gets : {S A : Type 0} → (S → A) → Exec S A
gets f s = (some (f s), s)

unfoldable pub modify : {S : Type 0} → (S → S) → Exec S (Unit {0})
modify f s = (some tt, f s)

-- A value that is missing is an exception.
unfoldable pub lift : {S A : Type 0} → Option A → Exec S A
lift o s = (o, s)

-- `try: m except Exception: h`, the handler run in the state that the raise left.
abbrev pub catch_do : {S A : Type 0} → Option A → S → Exec S A → Option A × S
catch_do none s h = h s
catch_do (some a) s h = (some a, s)

unfoldable pub try_except : {S A : Type 0} → Exec S A → Exec S A → Exec S A
try_except m h s = catch_do (m s).0 (m s).1 h

-- `for x in xs: body(x)`
unfoldable pub for_each : {S A : Type 0} → List A → (A → Exec S (Unit {0})) → Exec S (Unit {0})
for_each [] body = pure tt
for_each (x ∷ xs) body = body x >> for_each xs body

-- To compute with all of these, name this on an `unfolding` line.
unfoldable pub exec : Unit {0}
unfolding ◌>>=◌ ◌>>◌ pure raise gets modify lift try_except for_each
exec = tt

-- `m` keeps `P`, whether it returns or raises.
pub record Keeps {S A : Type 0} (P : S → Type 0) (m : Exec S A) : Type 0 where
  pub kept : (s : S) → P s → P (m s).1

module _ {S A : Type 0} {P : S → Type 0} where
  pub Keeps-raise : Keeps P (raise {A = A})
  unfolding raise
  Keeps-raise = record { kept = λ s h. h }

  pub Keeps-pure : (value : A) → Keeps P (pure value)
  unfolding pure
  Keeps-pure value = record { kept = λ state p. p }

  pub Keeps-gets : (read : S → A) → Keeps P (gets read)
  unfolding gets
  Keeps-gets read = record { kept = λ state p. p }

  pub Keeps-if : (b : Bool) (m n : Exec S A) → Keeps P m → Keeps P n → Keeps P (if b then m else n)
  Keeps-if true m n km kn = km
  Keeps-if false m n km kn = kn

  pub catch_do-keeps :
      (o : Option A) (s : S) (k : Exec S A) → P s → Keeps P k → P (catch_do o s k).1
  catch_do-keeps none s k h kk = kk.kept s h
  catch_do-keeps (some a) s k h kk = h

  pub Keeps-try_except : (m k : Exec S A) → Keeps P m → Keeps P k → Keeps P (try_except m k)
  unfolding try_except
  Keeps-try_except m k km kk = record {
    kept = λ s h. catch_do-keeps (m s).0 (m s).1 k (km.kept s h) kk;
  }

pub Keeps-modify :
    {S : Type 0} {P : S → Type 0} (f : S → S) → ((s : S) → P s → P (f s)) → Keeps P (modify f)
unfolding modify
Keeps-modify f k = record { kept = k }

module _ {S A B : Type 0} {P : S → Type 0} where
  then_do-keeps :
      (o : Option A) (s : S) (f : A → Exec S B)
      → P s
      → ((a : A) → Keeps P (f a))
      → P (then_do o s f).1
  then_do-keeps none s f h kf = h
  then_do-keeps (some a) s f h kf = (kf a).kept s h

  pub Keeps-bind :
      (start : Exec S A) (rest : A → Exec S B)
      → Keeps P start
      → ((result : A) → Keeps P (rest result))
      → Keeps P (start >>= rest)
  unfolding ◌>>=◌
  Keeps-bind start rest first then_rest = record {
    kept = λ s h. then_do-keeps (start s).0 (start s).1 rest (first.kept s h) then_rest;
  }

  -- The rest may use what is read from a state in `P`.
  pub Keeps-gets_bind :
      (g : S → A) (f : A → Exec S B) → ((s : S) → P s → P (f (g s) s).1) → Keeps P (gets g >>= f)
  unfolding ◌>>=◌ gets
  Keeps-gets_bind g f k = record { kept = k }

module _ {S B : Type 0} {P : S → Type 0} where
  pub Keeps-seq : (m : Exec S (Unit {0})) (k : Exec S B) → Keeps P m → Keeps P k → Keeps P (m >> k)
  unfolding ◌>>◌
  Keeps-seq m k km kk = Keeps-bind m (λ _. k) km (λ _. kk)

module _ {S A : Type 0} {P : S → Type 0} where
  pub Keeps-for_each :
      (xs : List A) (body : A → Exec S (Unit {0}))
      → ((x : A) → Keeps P (body x))
      → Keeps P (for_each xs body)
  unfolding for_each
  Keeps-for_each [] body kb = Keeps-pure tt
  Keeps-for_each (x ∷ xs) body kb =
      Keeps-seq (body x) (for_each xs body) (kb x) (Keeps-for_each xs body kb)

-- A computation that starts with one that returns.
pub bind-run :
    {S A B : Type 0} (m : Exec S A) (f : A → Exec S B) (a : A) (s s' : S)
    → m s ≡ (some a, s')
    → (m >>= f) s ≡ f a s'
unfolding ◌>>=◌
bind-run m f a s s' e = rw e refl

pub ruleset keeps_rules = (
  Keeps-pure, Keeps-raise, Keeps-gets, Keeps-if, Keeps-try_except, Keeps-bind, Keeps-seq,
  Keeps-for_each,
)

-- Total correctness: from a state in `P`, `m` returns a value with `Q` of it and of the new state.
abbrev pub Returns : {S A : Type 0} → (S → Type 0) → Exec S A → (A → S → Type 0) → Type 0
Returns {A} P m Q = (s : _) → P s → (a : A) × ((m s).0 ≡ some a) × Q a (m s).1

module _ {S A B : Type 0} (P : S → Type 0) (Q : A → S → Type 0) (R : B → S → Type 0) where
  pub then_do-returns :
      (o : Option A) (s : S) (f : A → Exec S B) (a : A)
      → o ≡ some a
      → Q a s
      → ((a : A) → Returns (Q a) (f a) R)
      → (b : B) × ((then_do o s f).0 ≡ some b) × R b (then_do o s f).1
  then_do-returns none s f a e q k = cc
  then_do-returns (some a') s f a e q k = k a' s (subst (λ x. Q x s) (sym (some-injective _ _ e)) q)

  pub >>=-returns :
      (m : Exec S A) (f : A → Exec S B)
      → Returns P m Q
      → ((a : A) → Returns (Q a) (f a) R)
      → Returns P (m >>= f) R
  unfolding ◌>>=◌
  >>=-returns m f rm k = λ s p. let (a, e, q) = rm s p in then_do-returns (m s).0 (m s).1 f a e q k
