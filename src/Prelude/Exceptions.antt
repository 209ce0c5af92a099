-- ===== src/Prelude/Exceptions.antt =====
-- Exceptions as values: what a call returns, or the exception that it raises.
use mathlib.Core.Path.{◌≡◌, ap, ◌∙◌}

-- The exception classes that the code raises, lets pass or catches.
pub data Exception : Type 0 where
  lookup_error type_error value_error index_error key_error struct_error : Exception
  unicode_error config_error runtime_error database_error redis_error : Exception
  web_socket_disconnect cancelled_error : Exception

pub data Outcome {ℓ} (A : Type ℓ) : Type ℓ where
  ok : A → Outcome A
  raised : Exception → Outcome A

infixl 5 ◌>>=◌
abbrev pub ◌>>=◌ {ℓ κ} : {A : Type ℓ} {B : Type κ} → Outcome A → (A → Outcome B) → Outcome B
ok a >>= f = f a
raised e >>= f = raised e

-- A chain of calls of which the first returns.
pub chain_ok {ℓ κ} :
    {A : Type ℓ} {B : Type κ} {m : Outcome A} (f : A → Outcome B) {x : A} {out : Outcome B}
    → m ≡ ok x
    → f x ≡ out
    → (m >>= f) ≡ out
chain_ok f h k = ap (λ r. r >>= f) h ∙ k
