-- ===== src/Prelude/Options.antt =====
-- Steps that may fail, one after the other: the `>>=` of `do` blocks for options.
use mathlib.Core.Option.{Option, none, some}

infixl 5 ◌>>=◌
abbrev pub ◌>>=◌ : {A B : Type 0} → Option A → (A → Option B) → Option B
none >>= f = none
some a >>= f = f a
