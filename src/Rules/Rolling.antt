-- ===== src/Rules/Rolling.antt =====
-- What the evaluation of an expression asks of its roller.
use vtt_platform.Prelude.{◌≡◌, refl, false, none, some, Option, arith, Bool-cases, inl, inr}
use vtt_platform.Prelude.Int.{ℤ, pos, ◌≤ℤ◌}
use vtt_platform.Rules.Syntax.{
  Node, Args, int, dice, ref, bin_op, func, no_args, arg, has_dice, any_dice,
}
use vtt_platform.Rules.Lexer.{count_in_bounds, sides_in_bounds}
use vtt_platform.Rules.Eval.{
  Roller, Resolver, Outcome, value, error, and_then, roll_dice, eval_tree, eval_args,
}

-- A count from 1 to 100, and sides from 1 to 1000.
abbrev pub IsRoll : ℤ → ℤ → Type 0
IsRoll c s = (pos 1 ≤ℤ c) × (c ≤ℤ pos 100) × (pos 1 ≤ℤ s) × (s ≤ℤ pos 1000)

module _ {Gen : Type 0} (P : Gen → Type 0) (roll : Roller Gen)
    (keep : (c s : ℤ) (g : Gen) → IsRoll c s → P g → P (roll c s g).2) (resolve : Resolver) where
  and_then-keeps {ℓ κ} :
      {A : Type ℓ} {B : Type κ} (o : Outcome A × Gen) (next : A → Gen → Outcome B × Gen)
      → P o.1
      → ((a : A) (g : Gen) → P g → P (next a g).1)
      → P (and_then o next).1
  and_then-keeps (value a, g) next h k = k a g h
  and_then-keeps (error e, g) next h k = h

  roll_dice-keeps : (c s : ℤ) (g : Gen) → P g → P (roll_dice (some roll) c s g).1
  unfolding roll_dice
  roll_dice-keeps c s g h = elim (Bool-cases (count_in_bounds c)) [
    | inr out ↦ rw (out, roll_dice) h
    | inl a ↦ elim (Bool-cases (sides_in_bounds s)) [
      | inr out ↦ rw (a, out, roll_dice) h
      | inl b ↦
          rw (a, b, roll_dice)
            (keep c s g (ground arith, ground arith, ground arith, ground arith) h)
    ]
  ]

  mutual
    unfolding eval_tree

    eval_tree-keeps : (n : Node) (g : Gen) → P g → P (eval_tree resolve (some roll) n g).1
    eval_tree-keeps (int n) g h = h
    eval_tree-keeps (ref s scope id) g h = h
    eval_tree-keeps (dice c s) g h =
        and_then-keeps (eval_tree resolve (some roll) c g) _ (eval_tree-keeps c g h) (λ a g₁ h₁.
          and_then-keeps (eval_tree resolve (some roll) s g₁) _ (eval_tree-keeps s g₁ h₁)
            (λ b g₂ h₂. roll_dice-keeps a b g₂ h₂))
    eval_tree-keeps (bin_op o l r) g h =
        and_then-keeps (eval_tree resolve (some roll) l g) _ (eval_tree-keeps l g h) (λ a g₁ h₁.
          and_then-keeps (eval_tree resolve (some roll) r g₁) _ (eval_tree-keeps r g₁ h₁)
            (λ b g₂ h₂. h₂))
    eval_tree-keeps (func name xs) g h =
        and_then-keeps (eval_args resolve (some roll) xs g) _ (eval_args-keeps xs g h)
          (λ vals g₁ h₁. h₁)

    eval_args-keeps : (xs : Args) (g : Gen) → P g → P (eval_args resolve (some roll) xs g).1
    eval_args-keeps no_args g h = h
    eval_args-keeps (arg x xs) g h =
        and_then-keeps (eval_tree resolve (some roll) x g) _ (eval_tree-keeps x g h) (λ v g₁ h₁.
          and_then-keeps (eval_args resolve (some roll) xs g₁) _ (eval_args-keeps xs g₁ h₁)
            (λ vals g₂ h₂. h₂))

  -- The evaluation of any tree asks its roller for 1 to 100 dice of 1 to 1000 sides only: what every
  -- such roll keeps true of the roller's state is still true after it.
  pub eval_tree-rolls : (n : Node) (g : Gen) → P g → P (eval_tree resolve (some roll) n g).1
  eval_tree-rolls n g h = eval_tree-keeps n g h

module _ (resolve : Resolver) {Gen : Type 0} (roller : Option (Roller Gen)) where
  and_then-idle {ℓ κ} :
      {A : Type ℓ} {B : Type κ} (g : Gen) (o : Outcome A × Gen) (o' : Outcome A × Unit {0})
      → (next : A → Gen → Outcome B × Gen) (next' : A → Unit {0} → Outcome B × Unit {0})
      → o ≡ (o'.0, g)
      → ((a : A) (u : Unit {0}) → next a g ≡ ((next' a u).0, g))
      → and_then o next ≡ ((and_then o' next').0, g)
  and_then-idle g o (value a, u) next next' h k = rw h (k a u)
  and_then-idle g o (error e, u) next next' h k = rw h refl

  mutual
    unfolding eval_tree has_dice

    idle_tree :
        (n : Node) (g : Gen) (u : Unit {0})
        → has_dice n ≡ false
        → eval_tree resolve roller n g ≡ ((eval_tree resolve none n u).0, g)
    idle_tree (int n) g u h = refl
    idle_tree (ref s scope id) g u h = refl
    idle_tree (dice c s) g u h = cc
    idle_tree (bin_op o l r) g u h =
        and_then-idle g (eval_tree resolve roller l g) (eval_tree resolve none l u) _ _
          (idle_tree l g u (ground arith))
          (λ a v.
            and_then-idle g (eval_tree resolve roller r g) (eval_tree resolve none r v) _ _
              (idle_tree r g v (ground arith)) (λ b w. refl))
    idle_tree (func name xs) g u h =
        and_then-idle g (eval_args resolve roller xs g) (eval_args resolve none xs u) _ _
          (idle_args xs g u h) (λ vals v. refl)

    idle_args :
        (xs : Args) (g : Gen) (u : Unit {0})
        → any_dice xs ≡ false
        → eval_args resolve roller xs g ≡ ((eval_args resolve none xs u).0, g)
    idle_args no_args g u h = refl
    idle_args (arg x xs) g u h =
        and_then-idle g (eval_tree resolve roller x g) (eval_tree resolve none x u) _ _
          (idle_tree x g u (ground arith))
          (λ v w.
            and_then-idle g (eval_args resolve roller xs g) (eval_args resolve none xs w) _ _
              (idle_args xs g w (ground arith)) (λ vals z. refl))

  -- An expression without dice evaluates, whatever the roller, to what it comes to with no roller at
  -- all, and leaves the roller's state as it was.
  pub eval_tree-has_dice :
      (n : Node) (g : Gen)
      → has_dice n ≡ false
      → eval_tree resolve roller n g ≡ ((eval_tree resolve none n tt).0, g)
  eval_tree-has_dice n g h = idle_tree n g tt h
