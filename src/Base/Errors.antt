-- ===== src/Base/Errors.antt =====
-- Python's exceptions: the name of the class, those of the classes that it derives from, and the
-- message. A call returns a value or raises one of these.
use Prim.Native.String.{String}
use mathlib.Core.Path.{◌≡◌, refl}
use mathlib.Core.Bool.{Bool, false, ◌||◌}
use mathlib.Core.List.{List, [], ◌∷◌}
use text.Mathlib.Text.{◌==◌}

pub record Exc : Type 0 where
  pub name : String
  pub bases : List String
  pub message : String

abbrev pub contains : List String → String → Bool
contains [] s = false
contains (x ∷ xs) s = x == s || contains xs s

abbrev pub any_of : (String → Bool) → List String → Bool
any_of p [] = false
any_of p (x ∷ xs) = p x || any_of p xs

-- `isinstance(exc, classes)`, for a tuple of classes.
unfoldable pub is_instance : List String → Exc → Bool
is_instance classes e = contains classes e.name || any_of (contains classes) e.bases

pub data Outcome {ℓ} (A : Type ℓ) : Type ℓ where
  returned : A → Outcome A
  raised : Exc → Outcome A

-- `raise` goes past the rest of a block.
infixl 5 ◌>>=◌ ◌>>◌
abbrev pub ◌>>=◌ {ℓ κ} : {A : Type ℓ} {B : Type κ} → Outcome A → (A → Outcome B) → Outcome B
returned a >>= f = f a
raised e >>= f = raised e

abbrev pub ◌>>◌ {ℓ} : {B : Type ℓ} → Outcome (Unit {0}) → Outcome B → Outcome B
m >> k = m >>= λ _. k

-- The exceptions that the code raises, or that Python raises in its name, by their classes.
module _ (message : String) where
  abbrev pub key_error : Exc
  key_error = record {
    name = "KeyError";
    bases = "LookupError" ∷ "Exception" ∷ "BaseException" ∷ [];
    message = message;
  }

  abbrev pub type_error : Exc
  type_error = record {
    name = "TypeError";
    bases = "Exception" ∷ "BaseException" ∷ [];
    message = message;
  }

  abbrev pub value_error : Exc
  value_error = record {
    name = "ValueError";
    bases = "Exception" ∷ "BaseException" ∷ [];
    message = message;
  }

  abbrev pub attribute_error : Exc
  attribute_error = record {
    name = "AttributeError";
    bases = "Exception" ∷ "BaseException" ∷ [];
    message = message;
  }

pub >>=-eq-returned {ℓ κ} :
    {A : Type ℓ} {B : Type κ} (m : Outcome A) (f : A → Outcome B) {b : B}
    → (m >>= f) ≡ returned b
    → (a : A) × (m ≡ returned a) × (f a ≡ returned b)
>>=-eq-returned (returned a) f h = (a, refl, h)
>>=-eq-returned (raised e) f h = cc
