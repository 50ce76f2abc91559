-- ===== src/Rules/Evaluation.antt =====
-- Evaluation of the trees that the parser returns.
use vtt_platform.Prelude.{
  ℕ, suc, ◌≡◌, refl, ap, true, none, some, Option, arith, if◌then◌else◌, String, List, [], ◌∷◌,
  length, All, Option-cases, inl, inr,
}
use vtt_platform.Prelude.Int.{ℤ, pos, ◌+ℤ◌, ◌-ℤ◌, ltb_ℤ}
use vtt_platform.Rules.Int64.{IsInt64, ◌*ℤ◌}
use vtt_platform.Rules.Floor.{wrap64-IsInt64, floor_div-IsInt64}
use vtt_platform.Go.GoMap.{get}
use vtt_platform.Rules.Syntax.{
  Node, Args, Sigil, Op, plus, minus, times, divide, at, hash, int, dice, ref, bin_op, func,
  no_args, arg, Scope, scope_none, scope_caster, scope_target,
}
use vtt_platform.Rules.Result.{ok, Yields-ok}
use vtt_platform.Rules.Parser.{parse, length_args, func_arity, fits}
use vtt_platform.Rules.Eval.{
  Roller, Resolver, greatest, least, Outcome, value, error, EvalError, unknown_operator_or_function,
  index_panic, binary, apply_func, and_then, roll_dice, eval_tree, eval_args, EvalContext, look_up,
  resolve_single, resolve_scoped, eval, eval_scoped,
}
use vtt_platform.Rules.Legal.{IsLegal, AreLegal, call_ok}
use vtt_platform.Rules.Total.{parse-IsLegal}

abbrev pub IsExpected : EvalError → Type 0
IsExpected unknown_operator_or_function = ⊥
IsExpected index_panic = ⊥
IsExpected _ = Unit

abbrev pub IsClean {ℓ} : {A : Type ℓ} → (A → Type 0) → Outcome A → Type 0
IsClean P (value a) = P a
IsClean P (error e) = IsExpected e

greatest-IsInt64 : (m : ℤ) (vs : List ℤ) → IsInt64 m → All IsInt64 vs → IsInt64 (greatest m vs)
unfolding greatest
greatest-IsInt64 m [] h k = h
greatest-IsInt64 m (v ∷ vs) h k =
    greatest-IsInt64 (if ltb_ℤ m v then v else m) vs (ground arith) k.1

least-IsInt64 : (m : ℤ) (vs : List ℤ) → IsInt64 m → All IsInt64 vs → IsInt64 (least m vs)
unfolding least
least-IsInt64 m [] h k = h
least-IsInt64 m (v ∷ vs) h k = least-IsInt64 (if ltb_ℤ v m then v else m) vs (ground arith) k.1

abbrev AreInts : ℕ → List ℤ → Type 0
AreInts n vals = (length vals ≡ n) × All IsInt64 vals

apply_func-IsClean :
    (name : String) (vals : List ℤ)
    → call_ok name (length vals) ≡ true
    → All IsInt64 vals
    → IsClean IsInt64 (apply_func name vals)
unfolding apply_func func_arity fits
apply_func-IsClean name [] h k = ground arith
apply_func-IsClean name (v ∷ vs) h k = ground (
  arith,
  greatest-IsInt64 v vs k.0 k.1,
  least-IsInt64 v vs k.0 k.1,
  floor_div-IsInt64 v (pos 2) k.0,
)

binary-IsClean : (o : Op) (a b : ℤ) → IsInt64 a → IsClean IsInt64 (binary o a b)
unfolding binary
binary-IsClean plus a b h = wrap64-IsInt64 (a +ℤ b)
binary-IsClean minus a b h = wrap64-IsInt64 (a -ℤ b)
binary-IsClean times a b h = wrap64-IsInt64 (a *ℤ b)
binary-IsClean divide a b h = ground (arith, floor_div-IsInt64 a b h)

module _ {Gen : Type 0} where
  -- The totals of a roller are ints.
  abbrev pub RollsInts : Option (Roller Gen) → Type 0
  RollsInts none = Unit
  RollsInts (some roll) = (c s : ℤ) (g : Gen) → IsInt64 (roll c s g).1

  and_then-IsClean {ℓ κ} :
      {A : Type ℓ} {B : Type κ} (P : A → Type 0) (Q : B → Type 0)
      → (o : Outcome A × Gen) (next : A → Gen → Outcome B × Gen) → IsClean P o.0
      → ((a : A) (g : Gen) → P a → IsClean Q (next a g).0)
      → IsClean Q (and_then o next).0
  and_then-IsClean P Q (value a, g) next h k = k a g h
  and_then-IsClean P Q (error e, g) next h k = h

  roll_dice-IsClean :
      (roller : Option (Roller Gen)) (c s : ℤ) (g : Gen)
      → RollsInts roller
      → IsClean IsInt64 (roll_dice roller c s g).0
  unfolding roll_dice
  roll_dice-IsClean none c s g h = ground arith
  roll_dice-IsClean (some r) c s g h = ground (arith, h c s g)

  module _ (resolve : Resolver) (roller : Option (Roller Gen)) (ints : RollsInts roller)
      (clean : (g : Sigil) (s : Scope) (id : String) → IsClean IsInt64 (resolve g s id)) where
    mutual
      unfolding eval_tree length_args

      eval_tree-IsClean :
          (n : Node) (g : Gen) → IsLegal n → IsClean IsInt64 (eval_tree resolve roller n g).0
      eval_tree-IsClean (int n) g h = omega arith
      eval_tree-IsClean (ref s scope id) g h = clean s scope id
      eval_tree-IsClean (dice c s) g h =
          and_then-IsClean IsInt64 IsInt64 (eval_tree resolve roller c g) _
            (eval_tree-IsClean c g h.0)
            (λ a g₁ _.
              and_then-IsClean IsInt64 IsInt64 (eval_tree resolve roller s g₁) _
                (eval_tree-IsClean s g₁ h.1) (λ b g₂ _. roll_dice-IsClean roller a b g₂ ints))
      eval_tree-IsClean (bin_op o l r) g h =
          and_then-IsClean IsInt64 IsInt64 (eval_tree resolve roller l g) _
            (eval_tree-IsClean l g h.0)
            (λ a g₁ x.
              and_then-IsClean IsInt64 IsInt64 (eval_tree resolve roller r g₁) _
                (eval_tree-IsClean r g₁ h.1) (λ b g₂ _. binary-IsClean o a b x))
      eval_tree-IsClean (func name xs) g h =
          and_then-IsClean (AreInts (length_args xs)) IsInt64 (eval_args resolve roller xs g) _
            (eval_args-IsClean xs g h.1)
            (λ vals g₁ e. apply_func-IsClean name vals (rw e.0 h.0) e.1)

      eval_args-IsClean :
          (xs : Args) (g : Gen)
          → AreLegal xs
          → IsClean (AreInts (length_args xs)) (eval_args resolve roller xs g).0
      eval_args-IsClean no_args g h = (refl, tt)
      eval_args-IsClean (arg x xs) g h =
          and_then-IsClean IsInt64 (AreInts (suc (length_args xs))) (eval_tree resolve roller x g) _
            (eval_tree-IsClean x g h.0)
            (λ v g₁ x.
              and_then-IsClean (AreInts (length_args xs)) (AreInts (suc (length_args xs)))
                (eval_args resolve roller xs g₁) _ (eval_args-IsClean xs g₁ h.1)
                (λ vals g₂ e. (ap suc e.0, (x, e.1))))

-- The numbers of an actor are ints.
abbrev pub HoldsInts : EvalContext → Type 0
HoldsInts ctx =
    (id : String) (v : ℤ)
    → (get ctx.attrs id ≡ some v → IsInt64 v) × (get ctx.resources id ≡ some v → IsInt64 v)

look_up-IsClean :
    (ctx : EvalContext) (g : Sigil) (id : String)
    → HoldsInts ctx
    → IsClean IsInt64 (look_up ctx g id)
unfolding look_up
look_up-IsClean ctx at id h = elim (Option-cases (get ctx.attrs id)) [
  | inl e ↦ rw (e, look_up) tt
  | inr (v, e) ↦ rw (e, look_up) ((h id v).0 e)
]
look_up-IsClean ctx hash id h = elim (Option-cases (get ctx.resources id)) [
  | inl e ↦ rw (e, look_up) tt
  | inr (v, e) ↦ rw (e, look_up) ((h id v).1 e)
]

resolve_single-IsClean :
    (ctx : EvalContext) (h : HoldsInts ctx) (g : Sigil) (s : Scope) (id : String)
    → IsClean IsInt64 (resolve_single ctx g s id)
unfolding resolve_single
resolve_single-IsClean ctx h g scope_none id = look_up-IsClean ctx g id h
resolve_single-IsClean ctx h g scope_caster id = tt
resolve_single-IsClean ctx h g scope_target id = tt

resolve_scoped-IsClean :
    (c t : EvalContext) (h : HoldsInts c) (k : HoldsInts t) (g : Sigil) (s : Scope) (id : String)
    → IsClean IsInt64 (resolve_scoped c t g s id)
unfolding resolve_scoped
resolve_scoped-IsClean c t h k g scope_none id = tt
resolve_scoped-IsClean c t h k g scope_caster id = look_up-IsClean c g id h
resolve_scoped-IsClean c t h k g scope_target id = look_up-IsClean t g id k

module _ {Gen : Type 0} where
  -- A tree that the parser returned, evaluated for one actor or for a caster and a target whose
  -- numbers are ints, with a roller that is nil or returns ints, comes to an int or to an error
  -- other than the unknown operator or function, and never indexes arguments that are not there.
  pub eval-parse :
      (s : String) (n : Node)
      → parse s ≡ ok n
      → (c t : EvalContext) → HoldsInts c
      → HoldsInts t
      → (roller : Option (Roller Gen)) (g : Gen) → RollsInts roller
      → IsClean IsInt64 (eval n c roller g).0 × IsClean IsInt64 (eval_scoped n c t roller g).0
  unfolding eval eval_scoped
  eval-parse s n e c t h k roller g ints = (
    eval_tree-IsClean (resolve_single c) roller ints (resolve_single-IsClean c h) n g
        (Yields-ok n e (parse-IsLegal s)),
    eval_tree-IsClean (resolve_scoped c t) roller ints (resolve_scoped-IsClean c t h k) n g
        (Yields-ok n e (parse-IsLegal s)),
  )
