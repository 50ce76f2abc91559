-- ===== src/Rules/Eval.antt =====
-- Eval, EvalScoped and evalTree of internal/rules/expr.go. The state of the roller is passed on, so
-- that what was rolled is part of the outcome.
use vtt_platform.Prelude.{String, not, ◌||◌, Option, none, some, List, [], ◌∷◌, ◌==◌, if◌then◌else◌}
use vtt_platform.Prelude.Int.{ℤ, pos, ltb_ℤ, eq_ℤ, ◌+ℤ◌, ◌-ℤ◌}
use vtt_platform.Go.GoMap.{Map, get}
use vtt_platform.Rules.Int64.{wrap64, ◌*ℤ◌, floor_div}
use vtt_platform.Rules.Syntax.{
  Node, Args, int, dice, ref, bin_op, func, no_args, arg, Op, plus, minus, times, divide, Sigil, at,
  hash, Scope, scope_none, scope_caster, scope_target,
}
use vtt_platform.Rules.Lexer.{count_in_bounds, sides_in_bounds}

-- The Roller interface: the single results, their total, and the roller's next state.
abbrev pub Roller : Type 0 → Type 0
Roller Gen = ℤ → ℤ → Gen → List ℤ × ℤ × Gen

-- The errors of an evaluation; `index_panic` is the run-time panic of an index out of range.
pub data EvalError : Type 0 where
  scoped_reference bare_reference unknown_attribute unknown_resource : String → EvalError
  count_out_of_bounds sides_out_of_bounds : ℤ → EvalError
  no_roller division_by_zero : EvalError
  unknown_operator_or_function index_panic : EvalError

pub data Outcome {ℓ} (A : Type ℓ) : Type ℓ where
  value : A → Outcome A
  error : EvalError → Outcome A

abbrev pub Resolver : Type 0
Resolver = Sigil → Scope → String → Outcome ℤ

unfoldable pub binary : Op → ℤ → ℤ → Outcome ℤ
unfolding wrap64 ◌*ℤ◌ floor_div
binary plus l r = value (wrap64 (l +ℤ r))
binary minus l r = value (wrap64 (l -ℤ r))
binary times l r = value (wrap64 (l *ℤ r))
binary divide l r = if eq_ℤ r (pos 0) then error division_by_zero else value (floor_div l r)

unfoldable pub greatest : ℤ → List ℤ → ℤ
greatest m [] = m
greatest m (v ∷ vs) = greatest (if ltb_ℤ m v then v else m) vs

unfoldable pub least : ℤ → List ℤ → ℤ
least m [] = m
least m (v ∷ vs) = least (if ltb_ℤ v m then v else m) vs

-- The switch on the function's name, over its arguments' values.
unfoldable pub apply_func : String → List ℤ → Outcome ℤ
unfolding greatest least floor_div
apply_func name [] =
    if name == "floor" || name == "half" || name == "max" || name == "min"
    then error index_panic
    else error unknown_operator_or_function
apply_func name (v ∷ vs) =
    if name == "floor"
    then value v
    else if name == "half"
    then value (floor_div v (pos 2))
    else if name == "max"
    then value (greatest v vs)
    else if name == "min"
    then value (least v vs)
    else error unknown_operator_or_function

module _ {Gen : Type 0} where
  abbrev pub with_state {ℓ} : {A : Type ℓ} → Gen → Outcome A → Outcome A × Gen
  with_state g o = (o, g)

  -- if err != nil { return 0, err }, with the roller's state.
  abbrev pub and_then {ℓ κ} :
      {A : Type ℓ} {B : Type κ} → Outcome A × Gen → (A → Gen → Outcome B × Gen) → Outcome B × Gen
  and_then (value a, g) next = next a g
  and_then (error e, g) next = (error e, g)

  -- The dice case, past its two operands; `none` is a nil roller.
  unfoldable pub roll_dice : Option (Roller Gen) → ℤ → ℤ → Gen → Outcome ℤ × Gen
  roll_dice roller count sides g =
      if not (count_in_bounds count)
      then (error (count_out_of_bounds count), g)
      else if not (sides_in_bounds sides)
      then (error (sides_out_of_bounds sides), g)
      else elim roller [
        | none ↦ (error no_roller, g)
        | some roll ↦ (value (roll count sides g).1, (roll count sides g).2)
      ]

  module _ (resolve : Resolver) (roller : Option (Roller Gen)) where
    unfoldable mutual
      unfolding roll_dice binary apply_func

      pub eval_tree : Node → Gen → Outcome ℤ × Gen
      eval_tree (int n) g = (value n, g)
      eval_tree (ref s scope id) g = (resolve s scope id, g)
      eval_tree (dice c s) g =
          and_then (eval_tree c g)
            (λ count g₁. and_then (eval_tree s g₁) (λ sides g₂. roll_dice roller count sides g₂))
      eval_tree (bin_op o l r) g =
          and_then (eval_tree l g) (λ a g₁. and_then (eval_tree r g₁) (λ b g₂. (binary o a b, g₂)))
      eval_tree (func name xs) g = and_then (eval_args xs g) (λ vals g₁. (apply_func name vals, g₁))

      pub eval_args : Args → Gen → Outcome (List ℤ) × Gen
      eval_args no_args g = (value [], g)
      eval_args (arg x xs) g =
          and_then (eval_tree x g)
            (λ v g₁. and_then (eval_args xs g₁) (λ vals g₂. (value (v ∷ vals), g₂)))

-- The numbers of one actor.
pub record EvalContext : Type 0 where
  pub attrs : Map ℤ
  pub resources : Map ℤ

abbrev pub known : EvalError → Option ℤ → Outcome ℤ
known e none = error e
known e (some v) = value v

-- A reference looked up in one context.
unfoldable pub look_up : EvalContext → Sigil → String → Outcome ℤ
look_up ctx at id = known (unknown_attribute id) (get ctx.attrs id)
look_up ctx hash id = known (unknown_resource id) (get ctx.resources id)

-- The resolver of Eval.
unfoldable pub resolve_single : EvalContext → Resolver
unfolding look_up
resolve_single ctx s scope_none id = look_up ctx s id
resolve_single ctx s _ id = error (scoped_reference id)

-- The resolver of EvalScoped.
unfoldable pub resolve_scoped : EvalContext → EvalContext → Resolver
unfolding look_up
resolve_scoped caster target s scope_none id = error (bare_reference id)
resolve_scoped caster target s scope_caster id = look_up caster s id
resolve_scoped caster target s scope_target id = look_up target s id

module _ {Gen : Type 0} where
  unfoldable pub eval : Node → EvalContext → Option (Roller Gen) → Gen → Outcome ℤ × Gen
  unfolding resolve_single eval_tree
  eval n ctx roller g = eval_tree (resolve_single ctx) roller n g

  unfoldable pub eval_scoped :
      Node → EvalContext → EvalContext → Option (Roller Gen) → Gen → Outcome ℤ × Gen
  unfolding resolve_scoped eval_tree
  eval_scoped n caster target roller g = eval_tree (resolve_scoped caster target) roller n g
