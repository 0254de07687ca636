-- ===== src/Kernel/Errors.antt =====
-- The typed errors, kernel/errors/errors.go.
-- A message is kept as its format and the format's arguments; the text that `fmt` makes of them is
-- not modelled.
use hermi_nas.Prelude.{
  Bool, List, Option, String, arith, false, inl, inr, none, refl, some, true, ℕ, ◌≡◌, ◌⊎◌,
}
use mathlib.Core.Logic.{ite}

pub data Code : Type 0 where
  invalid_argument not_found unauthorized internal unavailable already_exists resource_exhausted :
      Code

unfoldable pub Code-discrete : Discrete Code
Code-discrete = hlevel

-- A byte string: a body, or a text that the program takes apart.
abbrev pub Bytes : Type 0
Bytes = List ℕ

pub data Arg : Type 0 where
  str : String → Arg
  num : ℕ → Arg
  text : Bytes → Arg

pub record Message : Type 0 where
  pub format : String
  pub args : List Arg

-- The `error` values that the program meets: an error of another library, one that
-- `fmt.Errorf("…: %w", err)` wraps, and the two shapes of `*Error`.
pub data Error : Type 0 where
  foreign : Message → Error
  annotated : Message → Error → Error
  coded : Code → Message → Error
  caused : Code → Message → Error → Error

unfoldable pub new : Code → Message → Error
new code message = coded code message

unfoldable pub wrap : Code → Message → Error → Error
wrap code message cause = caused code message cause

unfoldable pub unwrap : Error → Option Error
unwrap (foreign m) = none
unwrap (annotated m e) = some e
unwrap (coded c m) = none
unwrap (caused c m e) = some e

-- `errors.As(err, &herr)`: the first `*Error` of the chain.
first_code : Error → Option Code
first_code (foreign m) = none
first_code (annotated m e) = first_code e
first_code (coded c m) = some c
first_code (caused c m e) = some c

unfoldable pub is_code : Error → Code → Bool
unfolding first_code Code-discrete
is_code err code = elim (first_code err) [
  | none ↦ false
  | some c ↦ ite (Code-discrete c code) true false
]

unfoldable pub is_not_found : Error → Bool
unfolding is_code
is_not_found err = is_code err not_found

unfoldable pub is_already_exists : Error → Bool
unfolding is_code
is_already_exists err = is_code err already_exists

unfoldable pub is_invalid_argument : Error → Bool
unfolding is_code
is_invalid_argument err = is_code err invalid_argument

unfoldable pub is_resource_exhausted : Error → Bool
unfolding is_code
is_resource_exhausted err = is_code err resource_exhausted

pub data Result {ℓ} (A : Type ℓ) : Type ℓ where
  ok : A → Result A
  err : Error → Result A

-- The early return `if err != nil { return err }`, with and without a value that goes on.
infixl 5 ◌>>=◌
abbrev pub ◌>>=◌ {ℓ κ} : {V : Type ℓ} {W : Type κ} → Result V → (V → Result W) → Result W
err failure >>= next = err failure
ok value >>= next = next value

infixl 5 ◌>>◌
abbrev pub ◌>>◌ {ℓ} : {W : Type ℓ} → Result (Unit {0}) → Result W → Result W
err failure >> next = err failure
ok _ >> next = next

pub Result-cases {ℓ} :
    {A : Type ℓ} (r : Result A) → ((a : A) × (r ≡ ok a)) ⊎ ((e : Error) × (r ≡ err e))
Result-cases (ok a) = inl (a, refl)
Result-cases (err e) = inr (e, refl)

-- An error has at most one code.
pub is_code_unique : (e : Error) (c d : Code) → is_code e c ≡ true → is_code e d ≡ true → c ≡ d
unfolding is_code
is_code_unique (foreign m) c d h k = cc
is_code_unique (annotated m e) c d h k = is_code_unique e c d h k
is_code_unique (coded x m) c d h k = ground arith
is_code_unique (caused x m e) c d h k = ground arith
