-- ===== src/Prelude/Choice.antt =====
-- The option monad, for code whose loops run on fuel (`none` is fuel that ran out).
use mathlib.Core.Option.{Option, none, some}

infixl 5 ◌>>=◌
abbrev pub ◌>>=◌ {ℓ κ} : {A : Type ℓ} {B : Type κ} → Option A → (A → Option B) → Option B
none >>= f = none
some a >>= f = f a
