-- ===== src/Rules/Legal.antt =====
-- What the parser checks of a tree.
use vtt_platform.Prelude.{ℕ, ◌≡◌, Bool, true, false, none, some, String}
use vtt_platform.Rules.Syntax.{Node, Args, int, dice, ref, bin_op, func, no_args, arg}
use vtt_platform.Rules.Parser.{
  Primary, Parser, func_arity, fits, length_args, literal_count_ok, literal_sides_ok,
}
use vtt_platform.Rules.Progress.{IsLiteral, IsBelow}

-- A known function with as many arguments as it wants.
abbrev pub call_ok : String → ℕ → Bool
call_ok name n = elim (func_arity name) [ none ↦ false | some a ↦ fits a n ]

abbrev mutual
  pub IsLegal : Node → Type 0
  IsLegal (int n) = IsLiteral n
  IsLegal (dice n s) =
      IsLegal n × IsLegal s × (literal_count_ok n ≡ true) × (literal_sides_ok s ≡ true)
  IsLegal (ref g s id) = Unit
  IsLegal (bin_op o l r) = IsLegal l × IsLegal r
  IsLegal (func f xs) = (call_ok f (length_args xs) ≡ true) × AreLegal xs

  pub AreLegal : Args → Type 0
  AreLegal no_args = Unit
  AreLegal (arg x xs) = IsLegal x × AreLegal xs

-- A legal tree, and a parser behind it that is smaller than `n`.
abbrev pub IsRead : ℕ → Node × Parser → Type 0
IsRead n (x, p) = IsLegal x × IsBelow n p

abbrev pub AreRead : ℕ → Args × Parser → Type 0
AreRead n (xs, p) = AreLegal xs × IsBelow n p

abbrev pub IsReadPrimary : ℕ → Primary → Type 0
IsReadPrimary n x = IsLegal x.node × IsBelow n x.parser
