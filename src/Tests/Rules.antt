-- ===== src/Tests/Rules.antt =====
-- The theorems about rulesets at concrete inputs.
use vtt_platform.Prelude.{
  ◌≡◌, ◌≢◌, refl, ap, subst, String, Bool, true, false, none, some, Option, List, [], ◌∷◌, ◌+◌, ◌-◌,
  ◌^◌, map, arith, ◌==◌, contains, eq_iff, if◌then◌else◌, is_some, ◌||◌, Bool-cases, inl, inr,
}
use vtt_platform.Prelude.Int.{ℤ, pos, negsuc, IsInt32, ◌≤ℤ◌, ◌+ℤ◌}
use vtt_platform.Go.GoMap
use vtt_platform.Go.GoMap.{Map, get, lookup, get-empty}
use vtt_platform.Contract.Event.{Actor, Envelope, Payload, party_member, non_party}
use vtt_platform.Engine.State.{State, Token, ActorCondition, new_state}
use vtt_platform.Campaign.Append.{apply_all}
use vtt_platform.Rules.Int64.{IsInt64, ◌*ℤ◌, floor_div}
use vtt_platform.Rules.Floor.{IsRest, floor_div-rounds}
use vtt_platform.Rules.Syntax.{
  Node, int, dice, ref, bin_op, func, no_args, arg, plus, minus, at, hash, scope_none, scope_caster,
  scope_target, refs, has_dice,
}
use vtt_platform.Rules.Result.{ok, out_of_fuel}
use vtt_platform.Rules.Parser.{parse}
use vtt_platform.Rules.Total.{parse-ends}
use vtt_platform.Rules.Eval.{Roller, EvalContext, eval, eval_scoped, eval_tree, resolve_single}
use vtt_platform.Rules.Evaluation.{IsClean, HoldsInts, eval-parse}
use vtt_platform.Rules.Rolling.{IsRoll, eval_tree-rolls, eval_tree-has_dice}
use vtt_platform.Rules.References.{eval-refs}
use vtt_platform.Rules.Ruleset.{
  Ruleset, CompiledPower, LimitedUsage, resource_change, apply_condition,
}
use vtt_platform.Rules.Attempt.{Attempt, done, failed}
use vtt_platform.Rules.Running.{resource_of}
use vtt_platform.Contract.Command.{UseAbility}
use vtt_platform.Rules.Resolve.{Batch, payloads_of, resolve}
use vtt_platform.Rules.Checked.{PowerFits}
use vtt_platform.Rules.Parity.{RulesetFits, StateFits, apply_all-resolve}
use vtt_platform.Tests.Data.{event}

parse-ends_example : parse "2 d (1 + #pool" ≢ out_of_fuel
parse-ends_example = parse-ends "2 d (1 + #pool"

-- Each die shows its sides.
abbrev highest : Roller (Unit {0})
highest n sides g = (sides ∷ [], sides, g)

abbrev strong : EvalContext
strong = record { attrs = record { entries = ("str", pos 3) ∷ [] }; resources = GoMap.empty }

strong-HoldsInts : HoldsInts strong
unfolding get lookup
strong-HoldsInts id v = (λ e. ground arith, λ e. cc)

abbrev swing : Node
swing = bin_op plus (func "half" (arg (int (pos 7)) no_args)) (ref at scope_none "str")

parsed : parse "half(7) + @str" ≡ ok swing
unfolding parse
parsed = refl

eval-parse_example :
    IsClean IsInt64 (eval {Gen = Unit {0}} swing strong none tt).0
    × IsClean IsInt64 (eval_scoped {Gen = Unit {0}} swing strong strong none tt).0
eval-parse_example =
    eval-parse "half(7) + @str" swing parsed strong strong strong-HoldsInts strong-HoldsInts none tt
      tt

-- What was rolled, each roll within its bounds.
abbrev Rolls : Type 0
Rolls = List (ℤ × ℤ)

abbrev noting : Roller Rolls
noting n sides g = ([], sides, (n, sides) ∷ g)

abbrev AllRolls : Rolls → Type 0
AllRolls [] = Unit
AllRolls ((n, sides) ∷ rest) = IsRoll n sides × AllRolls rest

abbrev two_dice : Node
two_dice =
    bin_op plus (dice (int (pos 2)) (int (pos 6))) (dice (int (pos 1)) (ref at scope_none "str"))

eval_tree-rolls_example : AllRolls (eval_tree (resolve_single strong) (some noting) two_dice []).1
eval_tree-rolls_example =
    eval_tree-rolls AllRolls noting (λ c s g h k. (h, k)) (resolve_single strong) two_dice [] tt

eval_tree-has_dice_example :
    eval_tree (resolve_single strong) (some highest) swing tt
    ≡ ((eval_tree (resolve_single strong) none swing tt).0, tt)
unfolding has_dice
eval_tree-has_dice_example = eval_tree-has_dice (resolve_single strong) (some highest) swing tt refl

abbrev stronger : EvalContext
stronger = record {
  attrs = record { entries = ("dex", pos 1) ∷ ("str", pos 3) ∷ [] };
  resources = record { entries = ("hp", pos 9) ∷ [] };
}

same_attrs :
    (id : String)
    → contains (refs swing).attrs id ≡ true
    → get strong.attrs id ≡ get stronger.attrs id
unfolding get lookup refs
same_attrs id h =
    let named : ("str" == id || false) ≡ true = h in
    subst (λ i. get strong.attrs i ≡ get stronger.attrs i)
      ((eq_iff "str" id).0 (ground (arith, named))) refl

same_resources :
    (id : String)
    → contains (refs swing).resources id ≡ true
    → get strong.resources id ≡ get stronger.resources id
unfolding refs
same_resources id h = cc

eval-refs_example : eval swing strong (some highest) tt ≡ eval swing stronger (some highest) tt
eval-refs_example = eval-refs strong stronger (some highest) swing tt same_attrs same_resources

floor_div-rounds_example :
    (r : ℤ) × (floor_div (negsuc 6) (pos 2) *ℤ pos 2 +ℤ r ≡ negsuc 6) × IsRest (pos 2) r
floor_div-rounds_example =
    floor_div-rounds (negsuc 6) (pos 2) (omega arith) (cc) (λ both. cc both.1)

abbrev fighter : Actor
fighter = record {
  actor_id = "fighter";
  name = "Fighter";
  module_id = "";
  attributes = record { entries = ("str", pos 3) ∷ [] };
  resources = record { entries = ("grit", record { current = pos 2; max = pos 2 }) ∷ [] };
  controller_id = "";
  controller_ids = [];
  kind = party_member;
}

abbrev rat : Actor
rat = record {
  actor_id = "rat";
  name = "Rat";
  module_id = "";
  attributes = record { entries = ("ac", pos 9) ∷ [] };
  resources = record { entries = ("hp", record { current = pos 4; max = pos 4 }) ∷ [] };
  controller_id = "";
  controller_ids = [];
  kind = non_party;
}

abbrev stands : String → ℤ → Token
stands actor x = record {
  id = actor;
  scene_id = "pit";
  actor_id = actor;
  x = x;
  y = pos 0;
  name = "";
  notes = "";
  gm_name = "";
  gm_notes = "";
}

abbrev pit : State
pit = record new_state {
  actors = record { entries = ("fighter", fighter) ∷ ("rat", rat) ∷ [] };
  tokens = record { entries = ("a", stands "fighter" (pos 0)) ∷ ("b", stands "rat" (pos 1)) ∷ [] };
}

abbrev strike : CompiledPower
strike = record {
  id = "strike";
  name = "Strike";
  limited = some (record { resource = "grit"; cost = pos 1 });
  targeting = record { range = pos 1; max_targets = pos 1 };
  resolution = some (record {
    roll = bin_op plus (dice (int (pos 1)) (int (pos 20))) (ref at scope_caster "str");
    vs = ref at scope_target "ac";
    roll_src = "1d20 + @caster.str";
    vs_src = "@target.ac";
    branches = ("hit", "miss");
  });
  branch_outcomes = (
    resource_change (record {
      resource = "hp";
      delta_expr = bin_op minus (int (pos 0)) (ref at scope_caster "str");
      delta_expr_src = "0 - @caster.str";
    })
        ∷ [],
    [],
  );
  effects = apply_condition "marked" ∷ [];
}

abbrev brawl : Ruleset
brawl = record {
  properties =
      record {
        key = "hp";
        resource = some (record {
          thresholds =
              record {
                when_expr = bin_op minus (ref hash scope_none "hp") (int (pos 4));
                apply_condition = "hurt";
                remove_when_false = true;
              }
              ∷ [];
        });
      }
      ∷ [];
  compiled = record { entries = ("strike", strike) ∷ [] };
}

abbrev order : UseAbility
order = record { actor_id = "fighter"; ability_id = "strike"; target_ids = "rat" ∷ [] }

abbrev CostFits : Option LimitedUsage → Type 0
CostFits none = Unit
CostFits (some u) = pos 0 ≤ℤ u.cost

abbrev no_batch : Batch
no_batch = record {
  used = record {
    actor_id = "";
    ability_id = "";
    target_ids = [];
    rolls = [];
    outcome_summary = "";
    outcomes = [];
  };
  events = [];
}

abbrev batch_of : Attempt (Batch × Unit {0}) → Batch
batch_of (done (b, g)) = b
batch_of (failed e) = no_batch

struck : Batch
unfolding resolve
struck = batch_of (resolve brawl pit (some highest) order tt)

strike_resolves : resolve brawl pit (some highest) order tt ≡ done (struck, tt)
unfolding resolve struck get vtt_platform.Prelude.Int.◌-ℤ◌ ◌+ℤ◌ GoMap.put
strike_resolves = refl

strike-PowerFits : PowerFits strike
strike-PowerFits = record {
  id = refl;
  at_least = (tt, tt);
  less = tt;
  effects = (refl, tt);
  cost = λ u e. subst (λ (l : Option LimitedUsage). CostFits l) e (omega arith);
}

brawl-RulesetFits : RulesetFits brawl
unfolding get lookup
brawl-RulesetFits = record {
  powers = λ id power e.
      let same : strike ≡ power = ground arith in subst PowerFits same strike-PowerFits;
  thresholds = ((refl, tt), tt);
}

pit-StateFits : StateFits pit
unfolding get lookup resource_of
pit-StateFits = record {
  conditions = record { at_holder = λ id l e. cc (get-empty {V = List ActorCondition} id, e) };
  resources = λ a n res h. ground arith;
}

stamped_payloads :
    (ps : List Payload) → map (λ (env : Envelope). env.payload) (map (event (pos 7)) ps) ≡ ps
stamped_payloads [] = refl
stamped_payloads (p ∷ ps) = ap (λ rest. p ∷ rest) (stamped_payloads ps)

apply_all-resolve_example : (apply_all pit (map (event (pos 7)) (payloads_of struck))).0 ≡ none
apply_all-resolve_example =
    apply_all-resolve brawl pit (some highest) order tt tt struck
      (map (event (pos 7)) (payloads_of struck)) brawl-RulesetFits pit-StateFits strike_resolves
      (stamped_payloads (payloads_of struck))
