-- ===== src/Rules/Outcomes.antt =====
-- applyOutcomes, evalThresholds and the recording evaluation of internal/rules/resolve.go. What the
-- roller did before a failure is not part of the result: the caller drops the roller with the error.
use vtt_platform.Prelude.{
  ◌-◌, ◌^◌, String, Bool, true, false, ◌||◌, not, Option, none, some, List, [], ◌∷◌, ◌++◌, map,
  is_some, if◌then◌else◌,
}
use vtt_platform.Prelude.Int.{ℤ, pos, negsuc, ltb_ℤ, eq_ℤ, wrap32}
use vtt_platform.Go.GoMap.{Map, get, put}
use vtt_platform.Contract.Event.{Payload, resource_changed, condition_applied, condition_removed}
use vtt_platform.Engine.State.{State}
use vtt_platform.Rules.Syntax.{Node}
use vtt_platform.Rules.Eval.{Roller, Outcome, value, error, EvalContext, eval, eval_scoped}
use vtt_platform.Rules.Ruleset.{
  Property, ResourceDef, Threshold, OutcomeDef, ResourceChangeOutcome, resource_change,
  apply_condition, remove_condition,
}
use vtt_platform.Rules.Wording.{threshold_reason}
use vtt_platform.Rules.Attempt.{
  Attempt, done, failed, ◌>>=◌, ◌>>◌, refuse_if, evaluation, outside_int32, no_such_resource,
}
use vtt_platform.Rules.Running.{
  ResKey, ResolveState, resource_of, apply_delta, context_of, holds_condition, set_condition,
}

-- One entry of AbilityUsed.rolls.
pub record RollEntry : Type 0 where
  pub expression : String
  pub results : List ℤ
  pub total : ℤ

-- The roller's state, and every single die since it was wrapped.
pub record Recorded (Gen : Type 0) : Type 0 where
  pub gen : Gen
  pub results : List ℤ

-- What one expression came to: its value, its dice and the roller's next state.
pub record Evaluated (Gen : Type 0) : Type 0 where
  pub total : ℤ
  pub dice : List ℤ
  pub gen : Gen

unfoldable pub int32_checked : ℤ → Attempt ℤ
int32_checked v =
    if ltb_ℤ v (negsuc (2 ^ 31 - 1)) || ltb_ℤ (pos (2 ^ 31 - 1)) v
    then failed outside_int32
    else done v

abbrev pub resource_changed_event : String → String → ℤ → ℤ → String → Payload
resource_changed_event actor_id resource delta new_value reason = resource_changed (record {
  actor_id = actor_id;
  resource = resource;
  delta = wrap32 delta;
  new_value = wrap32 new_value;
  reason = reason;
})

abbrev pub condition_applied_event : String → String → String → Payload
condition_applied_event actor_id id source =
    condition_applied (record { actor_id = actor_id; condition_id = id; source = source })

abbrev pub condition_removed_event : String → String → String → Payload
condition_removed_event actor_id id reason =
    condition_removed (record { actor_id = actor_id; condition_id = id; reason = reason })

unfoldable pub add_def : Map ResourceDef → String → Option ResourceDef → Map ResourceDef
add_def defs key none = defs
add_def defs key (some def) = put defs key def

-- byName of evalThresholds: a later property of the same key wins.
unfoldable pub by_name : Map ResourceDef → List Property → Map ResourceDef
unfolding add_def
by_name defs [] = defs
by_name defs (p ∷ rest) = by_name (add_def defs p.key p.resource) rest

-- A step of the resolution: the state and the roller it leaves, its events and its rolls.
pub record Progress (Gen : Type 0) : Type 0 where
  pub state : ResolveState
  pub gen : Gen
  pub events : List Payload
  pub rolls : List RollEntry

abbrev pub has_dice_results : List ℤ → Bool
has_dice_results [] = false
has_dice_results (d ∷ rest) = true

abbrev pub roll_entry : String → List ℤ → ℤ → RollEntry
roll_entry source dice total = record {
  expression = source;
  results = map wrap32 dice;
  total = total;
}

-- An entry for an expression that rolled.
abbrev pub entry_if_rolled : String → List ℤ → ℤ → List RollEntry
entry_if_rolled source dice total =
    if has_dice_results dice then roll_entry source dice total ∷ [] else []

module _ {Gen : Type 0} where
  unfoldable pub recording : Roller Gen → Roller (Recorded Gen)
  recording roll n sides r =
      let rolled = roll n sides r.gen in
      (rolled.0, rolled.1, record { gen = rolled.2; results = r.results ++ rolled.0 })

  unfoldable pub unrecorded : Gen → Outcome ℤ → Attempt (Evaluated Gen)
  unrecorded g (value v) = done (record { total = v; dice = []; gen = g })
  unrecorded g (error e) = failed (evaluation e)

  unfoldable pub recorded : Outcome ℤ × Recorded Gen → Attempt (Evaluated Gen)
  recorded (value v, r) = done (record { total = v; dice = r.results; gen = r.gen })
  recorded (error e, r) = failed (evaluation e)

  unfoldable pub eval_recording_scoped :
      Option (Roller Gen) → Node → EvalContext → EvalContext → Gen → Attempt (Evaluated Gen)
  unfolding recording recorded unrecorded eval_scoped
  eval_recording_scoped none e caster target g = unrecorded g (eval_scoped e caster target none g).0
  eval_recording_scoped (some roll) e caster target g =
      recorded
        (eval_scoped e caster target (some (recording roll)) (record { gen = g; results = [] }))

  abbrev pub idle : ResolveState → Gen → Progress Gen
  idle r g = record { state = r; gen = g; events = []; rolls = [] }

  -- The events and rolls of two steps, the second from where the first ended.
  abbrev pub after : Progress Gen → Progress Gen → Progress Gen
  after a b = record b { events = a.events ++ b.events; rolls = a.rolls ++ b.rolls }

  -- Applying a condition that is there, or removing one that is not, does nothing.
  unfoldable pub apply_if_absent :
      State → ResolveState → Gen → String → String → String → Progress Gen
  unfolding holds_condition set_condition
  apply_if_absent st r g actor_id id reason =
      if not (holds_condition st r actor_id id)
      then record {
        state = set_condition r actor_id id true;
        gen = g;
        events = condition_applied_event actor_id id reason ∷ [];
        rolls = [];
      }
      else idle r g

  unfoldable pub remove_if_present :
      State → ResolveState → Gen → String → String → String → Progress Gen
  unfolding holds_condition set_condition
  remove_if_present st r g actor_id id reason =
      if holds_condition st r actor_id id
      then record {
        state = set_condition r actor_id id false;
        gen = g;
        events = condition_removed_event actor_id id reason ∷ [];
        rolls = [];
      }
      else idle r g

  module _ (st : State) (rng : Option (Roller Gen)) where
    -- A resource_change, past the check that the actor has the resource.
    unfoldable pub change_existing :
        ResolveState
        → Gen
        → String
        → String
        → String
        → ResourceChangeOutcome
        → Attempt (Progress Gen)
    unfolding eval_recording_scoped int32_checked apply_delta context_of
    change_existing r g caster_id actor_id reason rc = do
      e ←
          eval_recording_scoped rng rc.delta_expr (context_of st r caster_id)
            (context_of st r actor_id) g
      delta32 ← int32_checked e.total
      let changed = apply_delta st r actor_id rc.resource e.total
      checked ← int32_checked changed.0
      done (record {
        state = changed.1;
        gen = e.gen;
        events = resource_changed_event actor_id rc.resource e.total changed.0 reason ∷ [];
        rolls = entry_if_rolled rc.delta_expr_src e.dice delta32;
      })

    unfoldable pub change_resource :
        ResolveState
        → Gen
        → String
        → String
        → String
        → ResourceChangeOutcome
        → Attempt (Progress Gen)
    unfolding change_existing resource_of
    change_resource r g caster_id actor_id reason rc =
        refuse_if (not (is_some (resource_of st actor_id rc.resource))) no_such_resource
        >> change_existing r g caster_id actor_id reason rc

    unfoldable pub apply_outcome :
        ResolveState → Gen → String → String → String → OutcomeDef → Attempt (Progress Gen)
    unfolding change_resource apply_if_absent remove_if_present
    apply_outcome r g caster_id actor_id reason (resource_change rc) =
        change_resource r g caster_id actor_id reason rc
    apply_outcome r g caster_id actor_id reason (apply_condition id) =
        done (apply_if_absent st r g actor_id id reason)
    apply_outcome r g caster_id actor_id reason (remove_condition id) =
        done (remove_if_present st r g actor_id id reason)

    unfoldable pub apply_outcomes :
        ResolveState → Gen → String → String → String → List OutcomeDef → Attempt (Progress Gen)
    unfolding apply_outcome
    apply_outcomes r g caster_id actor_id reason [] = done (idle r g)
    apply_outcomes r g caster_id actor_id reason (o ∷ rest) = do
      a ← apply_outcome r g caster_id actor_id reason o
      b ← apply_outcomes a.state a.gen caster_id actor_id reason rest
      done (after a b)

    unfoldable pub after_when :
        ResolveState → String → String → Threshold → Outcome ℤ × Gen → Attempt (Progress Gen)
    unfolding apply_if_absent remove_if_present
    after_when r actor_id reason th (error e, g) = failed (evaluation e)
    after_when r actor_id reason th (value v, g) =
        if not (eq_ℤ v (pos 0))
        then done (apply_if_absent st r g actor_id th.apply_condition reason)
        else if th.remove_when_false
        then done (remove_if_present st r g actor_id th.apply_condition reason)
        else done (idle r g)

    -- The thresholds of one resource, whose context was read before the first.
    unfoldable pub eval_thresholds_of :
        ResolveState → Gen → String → String → EvalContext → List Threshold → Attempt (Progress Gen)
    unfolding after_when eval
    eval_thresholds_of r g actor_id reason ctx [] = done (idle r g)
    eval_thresholds_of r g actor_id reason ctx (th ∷ rest) = do
      a ← after_when r actor_id reason th (eval th.when_expr ctx rng g)
      b ← eval_thresholds_of a.state a.gen actor_id reason ctx rest
      done (after a b)

    unfoldable pub eval_thresholds_at :
        ResolveState → Gen → ResKey → Option ResourceDef → Attempt (Progress Gen)
    unfolding eval_thresholds_of context_of threshold_reason
    eval_thresholds_at r g key none = done (idle r g)
    eval_thresholds_at r g key (some def) =
        eval_thresholds_of r g key.actor (threshold_reason key.resource) (context_of st r key.actor)
          def.thresholds

    unfoldable pub eval_thresholds :
        Map ResourceDef → ResolveState → Gen → List ResKey → Attempt (Progress Gen)
    unfolding eval_thresholds_at
    eval_thresholds defs r g [] = done (idle r g)
    eval_thresholds defs r g (key ∷ rest) = do
      a ← eval_thresholds_at r g key (get defs key.resource)
      b ← eval_thresholds defs a.state a.gen rest
      done (after a b)
