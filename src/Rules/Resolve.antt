-- ===== src/Rules/Resolve.antt =====
-- Resolve of internal/rules/resolve.go: the batch of events, past its checks.
use vtt_platform.Prelude.{String, Bool, true, false, Option, none, some, List, [], ◌∷◌, ◌++◌}
use vtt_platform.Prelude.Int.{ℤ, pos, leb_ℤ, ◌-ℤ◌}
use vtt_platform.Go.GoMap.{empty, get}
use vtt_platform.Contract.Event.{Payload, ability_used}
use vtt_platform.Engine.State.{State}
use vtt_platform.Rules.Eval.{Roller}
use vtt_platform.Rules.Ruleset.{
  Ruleset, CompiledPower, CompiledResolution, LimitedUsage, OutcomeDef,
}
use vtt_platform.Rules.Wording.{outcome_reason, used_on, verdict, join_parts}
use vtt_platform.Rules.Attempt.{Attempt, done, failed, ◌>>=◌, ◌>>◌, unknown_ability}
use vtt_platform.Rules.Running.{ResolveState, start, context_of, apply_delta}
use vtt_platform.Contract.Command.{UseAbility}
use vtt_platform.Rules.Checks.{check_command}
use vtt_platform.Rules.Outcomes.{
  RollEntry, Progress, idle, after, int32_checked, eval_recording_scoped, roll_entry,
  entry_if_rolled, resource_changed_event, by_name, apply_outcomes, eval_thresholds,
}

pub record OutcomeEntry : Type 0 where
  pub target_id : String
  pub result : String
  pub total : ℤ

pub record AbilityUsed : Type 0 where
  pub actor_id : String
  pub ability_id : String
  pub target_ids : List String
  pub rolls : List RollEntry
  pub outcome_summary : String
  pub outcomes : List OutcomeEntry

-- The returned envelopes: AbilityUsed first, then the payloads of the rest.
pub record Batch : Type 0 where
  pub used : AbilityUsed
  pub events : List Payload

abbrev pub payloads_of : Batch → List Payload
payloads_of b = ability_used b.used.ability_id ∷ b.events

-- What the loop over the targets has built.
pub record Tally (Gen : Type 0) : Type 0 where
  pub progress : Progress Gen
  pub summary : List String
  pub outcomes : List OutcomeEntry

abbrev pub branch_word : Bool → String × String → String
branch_word true words = words.0
branch_word false words = words.1

abbrev pub branch_list : Bool → List OutcomeDef × List OutcomeDef → List OutcomeDef
branch_list true lists = lists.0
branch_list false lists = lists.1

module _ {Gen : Type 0} where
  abbrev pub with_rolls : List RollEntry → Progress Gen → Progress Gen
  with_rolls rolls p = record p { rolls = rolls ++ p.rolls }

  abbrev pub join_tallies : Tally Gen → Tally Gen → Tally Gen
  join_tallies a b = record {
    progress = after a.progress b.progress;
    summary = a.summary ++ b.summary;
    outcomes = a.outcomes ++ b.outcomes;
  }

  module _ (st : State) (rng : Option (Roller Gen)) (power : CompiledPower)
      (caster_id : String) where
    -- The resolution against one target: the roll, what it is compared with, and the branch.
    unfoldable pub resolve_target :
        CompiledResolution → ResolveState → Gen → String → Attempt (Tally Gen)
    unfolding eval_recording_scoped int32_checked apply_outcomes context_of outcome_reason verdict
    resolve_target res r g id = do
      rolled ← eval_recording_scoped rng res.roll (context_of st r caster_id) (context_of st r id) g
      total32 ← int32_checked rolled.total
      against ←
          eval_recording_scoped rng res.vs (context_of st r caster_id) (context_of st r id)
            rolled.gen
      vs32 ← int32_checked against.total
      let hit = leb_ℤ against.total rolled.total
      let word = branch_word hit res.branches
      p ←
          apply_outcomes st rng r against.gen caster_id id (outcome_reason power.id word)
            (branch_list hit power.branch_outcomes)
      done (record {
        progress =
            with_rolls
              (roll_entry res.roll_src rolled.dice total32
                ∷ entry_if_rolled res.vs_src against.dice vs32)
              p;
        summary = verdict power.name id word rolled.total against.total ∷ [];
        outcomes = record { target_id = id; result = word; total = total32 } ∷ [];
      })

    unfoldable pub resolution_part :
        Option CompiledResolution → ResolveState → Gen → String → Attempt (Tally Gen)
    unfolding resolve_target used_on
    resolution_part none r g id =
        done (record { progress = idle r g; summary = used_on power.name id ∷ []; outcomes = [] })
    resolution_part (some res) r g id = resolve_target res r g id

    unfoldable pub run_target : ResolveState → Gen → String → Attempt (Tally Gen)
    unfolding resolution_part apply_outcomes outcome_reason
    run_target r g id = do
      a ← resolution_part power.resolution r g id
      p ←
          apply_outcomes st rng a.progress.state a.progress.gen caster_id id
            (outcome_reason power.id "effect") power.effects
      done (record a { progress = after a.progress p })

    unfoldable pub run_targets : ResolveState → Gen → List String → Attempt (Tally Gen)
    unfolding run_target
    run_targets r g [] = done (record { progress = idle r g; summary = []; outcomes = [] })
    run_targets r g (id ∷ rest) = do
      a ← run_target r g id
      b ← run_targets a.progress.state a.progress.gen rest
      done (join_tallies a b)

  -- A limited use is paid for first.
  unfoldable pub spend : State → Option LimitedUsage → String → String → Gen → Progress Gen
  unfolding apply_delta outcome_reason
  spend st none ability_id caster_id g = idle start g
  spend st (some usage) ability_id caster_id g =
      let delta = pos 0 -ℤ usage.cost in
      let changed = apply_delta st start caster_id usage.resource delta in
      record {
        state = changed.1;
        gen = g;
        events =
            resource_changed_event caster_id usage.resource delta changed.0
              (outcome_reason ability_id "usage")
            ∷ [];
        rolls = [];
      }

  -- The second half of Resolve, past its checks.
  unfoldable pub execute :
      Ruleset
      → State
      → Option (Roller Gen)
      → CompiledPower
      → UseAbility
      → Gen
      → Attempt (Batch × Gen)
  unfolding spend run_targets eval_thresholds by_name join_parts
  execute rs st rng power cmd g = do
    let paid = spend st power.limited power.id cmd.actor_id g
    t ← run_targets st rng power cmd.actor_id paid.state paid.gen cmd.target_ids
    th ←
        eval_thresholds st rng (by_name empty rs.properties) t.progress.state t.progress.gen
          t.progress.state.changed_order
    done (
      record {
        used = record {
          actor_id = cmd.actor_id;
          ability_id = power.id;
          target_ids = cmd.target_ids;
          rolls = t.progress.rolls;
          outcome_summary = join_parts t.summary;
          outcomes = t.outcomes;
        };
        events = paid.events ++ (t.progress.events ++ th.events);
      },
      th.gen,
    )

  unfoldable pub resolve :
      Ruleset → State → Option (Roller Gen) → UseAbility → Gen → Attempt (Batch × Gen)
  unfolding check_command execute
  resolve rs st rng cmd g = elim (get rs.compiled cmd.ability_id) [
    | none ↦ failed unknown_ability
    | some power ↦ check_command st power cmd >> execute rs st rng power cmd g
  ]
