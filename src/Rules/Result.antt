-- ===== src/Rules/Result.antt =====
-- What a parse comes to, and its errors.
use vtt_platform.Prelude.{
  ℕ, ◌≡◌, ◌≢◌, Bool, true, false, refl, subst, Option, none, some, if◌then◌else◌,
}

-- One constructor for each message of a ParseError.
pub data Reason : Type 0 where
  unexpected_character literal_out_of_range : Reason
  dice_count_out_of_bounds dice_sides_out_of_bounds : Reason
  trailing_input nested_too_deeply ambiguous_dice_chain : Reason
  expected_rparen expected_expression expected_identifier expected_identifier_after_dot : Reason
  unknown_scope bare_identifier unknown_function expected_rparen_or_comma : Reason
  wrong_arity : Reason

pub record ParseError : Type 0 where
  pub pos : ℕ
  pub reason : Reason

-- `out_of_fuel` has no counterpart in the code.
pub data Result {ℓ} (A : Type ℓ) : Type ℓ where
  ok : A → Result A
  err : ParseError → Result A
  out_of_fuel : Result A

module _ {ℓ κ} {A : Type ℓ} {B : Type κ} where
  infixl 1 ◌>>=◌
  abbrev pub ◌>>=◌ : Result A → (A → Result B) → Result B
  ok a >>= next = next a
  err e >>= next = err e
  out_of_fuel >>= next = out_of_fuel

abbrev pub fail {ℓ} : {A : Type ℓ} → ℕ → Reason → Result A
fail at reason = err (record { pos = at; reason = reason })

-- The run stays within its fuel, and what it returns, if anything, satisfies `P`.
pub data Yields {ℓ κ} {A : Type ℓ} (P : A → Type κ) : Result A → Type (ℓ ⊔ κ) where
  yields : {a : A} → P a → Yields P (ok a)
  refuses : {e : ParseError} → Yields P (err e)

module _ {ℓ κ} {A : Type ℓ} {P : A → Type κ} where
  pub Yields-ok : {r : Result A} (a : A) → r ≡ ok a → Yields P r → P a
  Yields-ok a e (yields p) = subst P (cc) p
  Yields-ok a e refuses = cc

  pub Yields-fuel : {r : Result A} → Yields P r → r ≢ out_of_fuel
  Yields-fuel (yields p) = cc
  Yields-fuel refuses = cc

  pub Yields-then {ℓ' κ'} :
      {B : Type ℓ'} {Q : B → Type κ'} {r : Result A} {next : A → Result B}
      → ((a : A) → P a → Yields Q (next a))
      → Yields P r
      → Yields Q (r >>= next)
  Yields-then k (yields {a} p) = k a p
  Yields-then k refuses = refuses

  pub Yields-test :
      (test : Bool) {yes no : Result A}
      → (test ≡ true → Yields P yes)
      → (test ≡ false → Yields P no)
      → Yields P (if test then yes else no)
  Yields-test true y n = y refl
  Yields-test false y n = n refl

  pub Yields-option {β} :
      {B : Type β} (o : Option B) {no : Result A} {some_of : B → Result A}
      → (o ≡ none → Yields P no)
      → ((b : B) → o ≡ some b → Yields P (some_of b))
      → Yields P (elim o [ none ↦ no | some b ↦ some_of b ])
  Yields-option none n s = n refl
  Yields-option (some b) n s = s b refl

  pub Yields-map {κ'} :
      {Q : A → Type κ'} {r : Result A} → ((a : A) → P a → Q a) → Yields P r → Yields Q r
  Yields-map f (yields {a} p) = yields (f a p)
  Yields-map f refuses = refuses
