-- ===== src/Rules/Parity.antt =====
-- The batch that Resolve returns, folded by the engine.
use vtt_platform.Prelude.{
  ◌≡◌, refl, ap, String, Bool, true, false, Option, none, some, List, [], ◌∷◌, ◌==◌, is_some, arith,
  All, map, Bool-cases, Option-cases, inl, inr,
}
use vtt_platform.Prelude.Int.{pos, ltb_ℤ, leb_ℤ, ◌-ℤ◌, ◌≤ℤ◌, IsInt32}
use vtt_platform.Go.GoMap.{Map, empty, get, get-put, get-empty}
use vtt_platform.Contract.Event.{Envelope, Payload, Resource, ability_used}
use vtt_platform.Engine.State.{State, conditions_of}
use vtt_platform.Engine.Apply.Pools.{has_condition}
use vtt_platform.Engine.Apply.Feed.{apply_ability_used}
use vtt_platform.Engine.Apply.Dispatch.{apply, apply_payload}
use vtt_platform.Engine.Invariant.Conditions.{ConditionsAreHeld, distinct_at}
use vtt_platform.Campaign.Append.{apply_all}
use vtt_platform.Rules.Eval.{Roller}
use vtt_platform.Rules.Wording.{outcome_reason}
use vtt_platform.Rules.Ruleset.{
  Ruleset, Property, ResourceDef, CompiledPower, CompiledResolution, LimitedUsage,
}
use vtt_platform.Rules.Attempt.{done}
use vtt_platform.Rules.Running.{
  ResolveState, start, resource_of, apply_delta, max_of, current_of, current_resource,
  holds_condition, context_of,
}
use vtt_platform.Rules.Outcomes.{after, by_name, add_def, eval_recording_scoped, int32_checked}
use vtt_platform.Contract.Command.{UseAbility}
use vtt_platform.Rules.Resolve.{
  branch_word, branch_list, Batch, payloads_of, Tally, resolve_target, resolution_part, run_target,
  run_targets, spend, execute, resolve,
}
use vtt_platform.Rules.Accepted.{Accepts, InStep}
use vtt_platform.Rules.Stepping.{apply-as, changed-Accepts}
use vtt_platform.Rules.Soundness.{
  Returns, returns, fails, Returns-then, Returns-any, Returns-done, FitsId, FitsOutcome, FitsDef,
  IsGood, idle-IsGood, after-IsGood, apply_delta-changed, resource_of-held, apply_outcomes-IsGood,
  eval_thresholds-IsGood,
}
use vtt_platform.Rules.Checked.{AreHeld, Affords, check_command-checked, spend_fits, PowerFits}

spent-IsInt32 :
    (st : State) (usage : LimitedUsage) (caster : String) (res : Resource)
    → resource_of st caster usage.resource ≡ some res
    → ltb_ℤ res.current usage.cost ≡ false
    → pos 0 ≤ℤ usage.cost
    → IsInt32 (current_resource st start caster usage.resource)
    → IsInt32 (pos 0 -ℤ usage.cost)
      × IsInt32 (apply_delta st start caster usage.resource (pos 0 -ℤ usage.cost)).0
unfolding apply_delta
spent-IsInt32 st usage caster res known enough c i =
    let now : IsInt32 res.current = ground (arith, i, ap current_of known) in
    rw (known, apply_delta) (spend_fits (max_of (some res)) res.current usage.cost now c enough)

module _ (st : State) {Gen : Type 0} where
  -- A tally is good where its progress is.
  abbrev GoodTally : ResolveState → Tally Gen → Type 0
  GoodTally r t = IsGood st r t.progress

  spend-IsGood :
      (limited : Option LimitedUsage) (ability caster : String) (g : Gen)
      → Affords st caster limited
      → ((usage : LimitedUsage) → limited ≡ some usage → pos 0 ≤ℤ usage.cost)
      → IsGood st start (spend st limited ability caster g)
  unfolding spend
  spend-IsGood none ability caster g a c = idle-IsGood st start g
  spend-IsGood (some usage) ability caster g (res, known, enough) c = record {
    accepted = λ s i.
        let fits =
          spent-IsInt32 st usage caster res known enough (c usage refl)
            (i.resources caster usage.resource res known).1 in
        changed-Accepts st start s i caster usage.resource (pos 0 -ℤ usage.cost) res known fits.0
          fits.1 (outcome_reason ability "usage");
    changed =
        apply_delta-changed st start caster usage.resource (pos 0 -ℤ usage.cost)
          (resource_of-held st caster usage.resource res known);
  }

  module _ (rng : Option (Roller Gen)) (power : CompiledPower) (fits : PowerFits power)
      (caster : String) where
    resolve_target-IsGood :
        (res : CompiledResolution) (r : ResolveState) (g : Gen) (id : String)
        → is_some (get st.actors id) ≡ true
        → Returns (GoodTally r) (resolve_target st rng power caster res r g id)
    unfolding resolve_target
    resolve_target-IsGood res r g id k =
        Returns-then
          (λ rolled _.
            Returns-then
              (λ total32 _.
                Returns-then
                  (λ against _.
                    Returns-then
                      (λ vs32 _.
                        Returns-then
                          (λ p good.
                            returns (record { accepted = good.accepted; changed = good.changed }))
                          (apply_outcomes-IsGood st rng r against.gen caster id
                            (outcome_reason power.id
                              (branch_word (leb_ℤ against.total rolled.total) res.branches))
                            (branch_list (leb_ℤ against.total rolled.total) power.branch_outcomes)
                            (branch_fits (leb_ℤ against.total rolled.total)) k))
                      (Returns-any (int32_checked against.total)))
                  (Returns-any (
                    eval_recording_scoped rng res.vs (context_of st r caster) (context_of st r id)
                      rolled.gen)))
              (Returns-any (int32_checked rolled.total)))
          (Returns-any
            (eval_recording_scoped rng res.roll (context_of st r caster) (context_of st r id) g))
      where
        branch_fits : (hit : Bool) → All FitsOutcome (branch_list hit power.branch_outcomes)
        branch_fits true = fits.at_least
        branch_fits false = fits.less

    resolution_part-IsGood :
        (res : Option CompiledResolution) (r : ResolveState) (g : Gen) (id : String)
        → is_some (get st.actors id) ≡ true
        → Returns (GoodTally r) (resolution_part st rng power caster res r g id)
    unfolding resolution_part
    resolution_part-IsGood none r g id k = returns (idle-IsGood st r g)
    resolution_part-IsGood (some res) r g id k = resolve_target-IsGood res r g id k

    run_target-IsGood :
        (r : ResolveState) (g : Gen) (id : String)
        → is_some (get st.actors id) ≡ true
        → Returns (GoodTally r) (run_target st rng power caster r g id)
    unfolding run_target
    run_target-IsGood r g id k =
        Returns-then
          (λ a good.
            Returns-then (λ p more. returns (after-IsGood st r a.progress p good more))
              (apply_outcomes-IsGood st rng a.progress.state a.progress.gen caster id
                (outcome_reason power.id "effect") power.effects fits.effects k))
          (resolution_part-IsGood power.resolution r g id k)

    run_targets-IsGood :
        (r : ResolveState) (g : Gen) (ids : List String)
        → AreHeld st ids
        → Returns (GoodTally r) (run_targets st rng power caster r g ids)
    unfolding run_targets
    run_targets-IsGood r g [] k = returns (idle-IsGood st r g)
    run_targets-IsGood r g (id ∷ ids) k =
        Returns-then
          (λ a good.
            Returns-then (λ b more. returns (after-IsGood st r a.progress b.progress good more))
              (run_targets-IsGood a.progress.state a.progress.gen ids k.1))
          (run_target-IsGood r g id k.0)

add_def-fits :
    (defs : Map ResourceDef) (key : String) (def : Option ResourceDef) (name : String)
    → FitsDef def
    → FitsDef (get defs name)
    → FitsDef (get (add_def defs key def) name)
unfolding add_def
add_def-fits defs key none name h k = k
add_def-fits defs key (some def) name h k = elim (Bool-cases (key == name)) [
  | inl e ↦ rw (get-put defs key name def, e) h
  | inr e ↦ rw (get-put defs key name def, e) k
]

by_name-fits :
    (defs : Map ResourceDef) (ps : List Property) (name : String)
    → All (λ p. FitsDef p.resource) ps
    → ((k : String) → FitsDef (get defs k))
    → FitsDef (get (by_name defs ps) name)
unfolding by_name
by_name-fits defs [] name h k = k name
by_name-fits defs (p ∷ ps) name h k =
    by_name-fits (add_def defs p.key p.resource) ps name h.1
      (λ j. add_def-fits defs p.key p.resource j h.0 (k j))

empty-fits : (k : String) → FitsDef (get empty k)
empty-fits k = rw (get-empty {V = ResourceDef} k) tt

-- What loading a ruleset checks of its compiled powers and its thresholds.
pub record RulesetFits (rs : Ruleset) : Type 0 where
  pub powers :
      (id : String) (power : CompiledPower) → get rs.compiled id ≡ some power → PowerFits power
  pub thresholds : All (λ p. FitsDef p.resource) rs.properties

-- What the state holds: conditions without repetition, and resources that are int32s.
pub record StateFits (st : State) : Type 0 where
  pub conditions : ConditionsAreHeld st
  pub resources :
      (a n : String) (res : Resource) → resource_of st a n ≡ some res → IsInt32 res.current

start-resource :
    (st : State) (a n : String) (res : Resource)
    → resource_of st a n ≡ some res
    → current_resource st start a n ≡ res.current
unfolding current_resource
start-resource st a n res h = ap current_of h

start-condition :
    (st : State) (a c : String)
    → has_condition c (conditions_of st a) ≡ holds_condition st start a c
unfolding holds_condition
start-condition st a c = rw (get-empty {V = Map Bool} a, get-empty {V = Bool} c) refl

start-InStep : (st : State) → StateFits st → InStep st start st
start-InStep st fits = record {
  held = λ a h. h;
  resources = λ a n res h. rw (h, start-resource st a n res h) (refl, fits.resources a n res h);
  conditions = start-condition st;
  distinct = distinct_at st fits.conditions;
}

module _ (rs : Ruleset) (st : State) {Gen : Type 0} (rng : Option (Roller Gen)) where
  abbrev IsFoldable : Batch × Gen → Type 0
  IsFoldable (b, g) = Accepts (payloads_of b) (λ _. Unit {0}) st

  used-Accepts :
      (id : String) (events : List Payload) (Q : State → Type 0)
      → FitsId id
      → Accepts events Q st
      → Accepts (ability_used id ∷ events) Q st
  unfolding apply_payload apply_ability_used
  used-Accepts id events Q f h = λ env e. rw (apply-as st env _ e, f) (refl, h)

  Accepts-any :
      (ps : List Payload) (P : State → Type 0) (s : State)
      → Accepts ps P s
      → Accepts ps (λ _. Unit {0}) s
  Accepts-any [] P s h = tt
  Accepts-any (p ∷ ps) P s h = λ env e. ((h env e).0, Accepts-any ps P (apply s env).1 (h env e).1)

  execute-IsFoldable :
      (power : CompiledPower) (cmd : UseAbility) (g : Gen)
      → RulesetFits rs
      → StateFits st
      → PowerFits power
      → AreHeld st cmd.target_ids
      → Affords st cmd.actor_id power.limited
      → Returns IsFoldable (execute rs st rng power cmd g)
  unfolding execute
  execute-IsFoldable power cmd g rules state fits targets usage =
      let paid = spend st power.limited power.id cmd.actor_id g in
      let good = spend-IsGood st power.limited power.id cmd.actor_id g usage fits.cost in
      Returns-then
        (λ t good_t.
          Returns-then
            (λ th good_th. returns (
              used-Accepts power.id (after paid (after t.progress th)).events (λ _. Unit {0})
                fits.id
                (Accepts-any (after paid (after t.progress th)).events (InStep st th.state) st (
                  (after-IsGood st start paid (after t.progress th) good
                      (after-IsGood st paid.state t.progress th good_t good_th)).accepted
                    st (start-InStep st state)))))
            (eval_thresholds-IsGood st rng (by_name empty rs.properties) t.progress.state
              t.progress.gen t.progress.state.changed_order
              (λ name. by_name-fits empty rs.properties name rules.thresholds empty-fits)
              (good_t.changed (good.changed tt))))
        (run_targets-IsGood st rng power fits cmd.actor_id paid.state paid.gen cmd.target_ids
          targets)

  resolve-IsFoldable :
      (cmd : UseAbility) (g : Gen)
      → RulesetFits rs
      → StateFits st
      → Returns IsFoldable (resolve rs st rng cmd g)
  unfolding resolve
  resolve-IsFoldable cmd g rules state = elim (Option-cases (get rs.compiled cmd.ability_id)) [
    | inl e ↦ rw (e, resolve) fails
    | inr (power, e) ↦
        rw (e, resolve)
          (Returns-then
            (λ _ checked.
              execute-IsFoldable power cmd g rules state (rules.powers cmd.ability_id power e)
                checked.0 checked.1)
            (check_command-checked st power cmd))
  ]

-- Envelopes that carry the payloads, folded.
folded_all :
    (ps : List Payload) (envs : List Envelope) (Q : State → Type 0) (s : State)
    → map (λ (env : Envelope). env.payload) envs ≡ ps
    → Accepts ps Q s
    → (apply_all s envs).0 ≡ none
unfolding apply_all
folded_all [] [] Q s e h = refl
folded_all [] (env ∷ envs) Q s e h = cc
folded_all (p ∷ ps) [] Q s e h = cc
folded_all (p ∷ ps) (env ∷ envs) Q s e h =
    let now = h env (cc) in rw (now.0, apply_all) (folded_all ps envs Q (apply s env).1 (cc) now.1)

-- Whatever Resolve returns, the engine accepts: with a ruleset and a state that hold what loading and
-- the engine check, a returned batch folds without an error from the state it was resolved against,
-- AbilityUsed first, however its envelopes are stamped.
pub apply_all-resolve :
    {Gen : Type 0} (rs : Ruleset) (st : State) (rng : Option (Roller Gen)) (cmd : UseAbility)
    (g g' : Gen)
    → (batch : Batch) (envs : List Envelope) → RulesetFits rs
    → StateFits st
    → resolve rs st rng cmd g ≡ done (batch, g')
    → map (λ (env : Envelope). env.payload) envs ≡ payloads_of batch
    → (apply_all st envs).0 ≡ none
apply_all-resolve rs st rng cmd g g' batch envs rules state e same =
    folded_all (payloads_of batch) envs (λ _. Unit {0}) st same
      (Returns-done (batch, g') e (resolve-IsFoldable rs st rng cmd g rules state))
