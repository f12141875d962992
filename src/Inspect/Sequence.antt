-- ===== src/Inspect/Sequence.antt =====
-- Actions of tools/inspect_runtime_state.py that read and may raise, one behind the other.
use army.Common.{Bool, true, false}
use army.Exec.{Error, Result, ok, err}

module _ {A B : Type 0} where
  infixl 5 ◌>>=◌
  abbrev pub ◌>>=◌ : Result A → (A → Result B) → Result B
  ok a >>= f = f a
  err e >>= f = err e

  infixl 5 ◌>>◌
  abbrev pub ◌>>◌ : Result A → Result B → Result B
  m >> n = m >>= λ _. n

-- `if test: raise e`
abbrev pub check : Bool → Error → Result (Unit {0})
check true e = err e
check false e = ok tt
