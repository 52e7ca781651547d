-- ===== src/Ingest/Outcomes.antt =====
-- app/ingest/errors.py: what a step of a refresh returns or raises, and what holds of a result.
use sre_tab.Common.{
  Text, text_eq, nat_eq, ℕ, ◌≡◌, refl, subst, Bool, true, false, Option, none, some, arith,
}

-- app/ingest/errors.py, with what a handler can tell of an error; `other_error` is an exception
-- that is no `IngestError`.
pub data IngestError : Type 0 where
  unsafe_target : (reason : Text) → IngestError
  source_configuration fetch_error response_too_large too_many_redirects : IngestError
  upstream_status : ℕ → IngestError
  fetch_timeout other_error : IngestError

-- What a call returns, or the error that it raises.
pub data Outcome (A : Type 0) : Type 0 where
  returned : A → Outcome A
  raised : IngestError → Outcome A

infixl 5 ◌>>=◌
abbrev pub ◌>>=◌ : {A B : Type 0} → Outcome A → (A → Outcome B) → Outcome B
returned a >>= f = f a
raised e >>= f = raised e

-- A guard of the source: raise if the test is true.
abbrev pub refuse_if : Bool → IngestError → Outcome Unit
refuse_if true e = raised e
refuse_if false e = returned tt

abbrev pub or_raise : {A B : Type 0} → IngestError → Option A → (A → Outcome B) → Outcome B
or_raise e none f = raised e
or_raise e (some a) f = f a

-- What holds of what a call returns, if it returns.
pub data Returns {A : Type 0} (P : A → Type 0) : Outcome A → Type 0 where
  by_value : {a : A} → P a → Returns P (returned a)
  by_error : {e : IngestError} → Returns P (raised e)

pub Returns-value :
    {A : Type 0} (P : A → Type 0) (a : A) (o : Outcome A) → Returns P o → o ≡ returned a → P a
Returns-value P a _ (by_value {a = b} h) e = subst P (same e) h
  where
    same : returned b ≡ returned a → b ≡ a
    same g = cc
Returns-value P a _ by_error e = absurd (ground (arith, e))

pub Returns-bind :
    {A B : Type 0} (P : B → Type 0) (o : Outcome A) (f : A → Outcome B)
    → ((a : A) → o ≡ returned a → Returns P (f a))
    → Returns P (o >>= f)
Returns-bind P (returned a) f h = h a refl
Returns-bind P (raised e) f h = by_error

pub Returns-or_raise :
    {A B : Type 0} (P : B → Type 0) (e : IngestError) (o : Option A) (f : A → Outcome B)
    → ((a : A) → o ≡ some a → Returns P (f a))
    → Returns P (or_raise e o f)
Returns-or_raise P e none f h = by_error
Returns-or_raise P e (some a) f h = h a refl

pub Returns-refuse_if :
    {B : Type 0} (P : B → Type 0) (test : Bool) (e : IngestError) (f : Unit {0} → Outcome B)
    → (test ≡ false → Returns P (f tt))
    → Returns P (refuse_if test e >>= f)
Returns-refuse_if P true e f h = by_error
Returns-refuse_if P false e f h = h refl
