-- ===== src/Rules/Checks.antt =====
-- The checks of Resolve, in the order of internal/rules/resolve.go.
use vtt_platform.Prelude.{
  String, Bool, true, false, ◌||◌, ◌&&◌, not, Option, none, some, List, [], ◌∷◌, ◌==◌, is_some,
  if◌then◌else◌, contains, length,
}
use vtt_platform.Prelude.Int.{ℤ, pos, ltb_ℤ, ◌-ℤ◌}
use vtt_platform.Go.GoMap.{get}
use vtt_platform.Go.Sort.{sort_by}
use vtt_platform.Contract.Command.{UseAbility}
use vtt_platform.Engine.State.{State, Token}
use vtt_platform.Rules.Syntax.{ScopedRef, Sigil, at, Scope, scope_caster, scope_target, scoped_refs}
use vtt_platform.Rules.Ruleset.{CompiledPower, CompiledResolution, LimitedUsage}
use vtt_platform.Rules.Attempt.{
  Attempt, done, failed, ◌>>=◌, ◌>>◌, refuse_if, unknown_caster, no_targets, too_many_targets,
  duplicate_target, unknown_target, missing_attribute, missing_defense, no_usage_resource,
  insufficient_resource, no_caster_token, no_target_token, out_of_range,
}
use vtt_platform.Rules.Running.{attributes_of, resource_of}

-- The ids of an actor's tokens, in one scene or, for "", in any.
unfoldable pub token_ids : String → String → List (String × Token) → List String
token_ids actor_id scene_id [] = []
token_ids actor_id scene_id ((id, tok) ∷ rest) =
    let more = token_ids actor_id scene_id rest in
    if not (tok.actor_id == actor_id) || (not (scene_id == "") && not (tok.scene_id == scene_id))
    then more
    else id ∷ more

abbrev first_of : List String → Option String
first_of [] = none
first_of (id ∷ rest) = some id

-- The token of the lowest id.
unfoldable pub find_token : State → String → String → Option Token
unfolding token_ids sort_by
find_token st actor_id scene_id =
    elim (first_of (sort_by (λ id. id) (token_ids actor_id scene_id st.tokens.entries))) [
      | none ↦ none
      | some id ↦ get st.tokens id
    ]

-- The coordinates are int32s, so that their difference does not overflow an int.
abbrev distance : ℤ → ℤ → ℤ
distance a b = let d = a -ℤ b in if ltb_ℤ d (pos 0) then pos 0 -ℤ d else d

unfoldable pub chebyshev_distance : Token → Token → ℤ
chebyshev_distance a b =
    let dx = distance a.x b.x in let dy = distance a.y b.y in if ltb_ℤ dy dx then dx else dy

unfoldable pub check_targets : State → List String → List String → Attempt (Unit {0})
check_targets st seen [] = done tt
check_targets st seen (id ∷ rest) =
    refuse_if (contains seen id) duplicate_target
    >> (refuse_if (not (is_some (get st.actors id))) unknown_target
        >> check_targets st (id ∷ seen) rest)

-- Every target carries an attribute.
unfoldable pub check_defense : State → String → List String → Attempt (Unit {0})
unfolding attributes_of
check_defense st name [] = done tt
check_defense st name (id ∷ rest) =
    refuse_if (not (is_some (get (attributes_of st id) name))) missing_defense
    >> check_defense st name rest

module _ (st : State) (caster_id : String) (target_ids : List String) where
  unfoldable pub check_ref : Sigil → Scope → String → Attempt (Unit {0})
  unfolding check_defense attributes_of
  check_ref at scope_caster name =
      refuse_if (not (is_some (get (attributes_of st caster_id) name))) missing_attribute
  check_ref at scope_target name = check_defense st name target_ids
  check_ref _ _ name = done tt

  unfoldable pub check_refs : List ScopedRef → Attempt (Unit {0})
  unfolding check_ref
  check_refs [] = done tt
  check_refs (ref ∷ rest) = check_ref ref.sigil ref.scope ref.name >> check_refs rest

  unfoldable pub check_resolution : Option CompiledResolution → Attempt (Unit {0})
  unfolding check_refs scoped_refs
  check_resolution none = done tt
  check_resolution (some res) = check_refs (scoped_refs res.roll) >> check_refs (scoped_refs res.vs)

  unfoldable pub check_usage : Option LimitedUsage → Attempt (Unit {0})
  unfolding resource_of
  check_usage none = done tt
  check_usage (some usage) = elim (resource_of st caster_id usage.resource) [
    | none ↦ failed no_usage_resource
    | some res ↦ refuse_if (ltb_ℤ res.current usage.cost) insufficient_resource
  ]

unfoldable pub check_range : State → ℤ → Token → List String → Attempt (Unit {0})
unfolding find_token chebyshev_distance
check_range st range caster_token [] = done tt
check_range st range caster_token (id ∷ rest) = elim (find_token st id caster_token.scene_id) [
  | none ↦ failed no_target_token
  | some tok ↦
      refuse_if (ltb_ℤ range (chebyshev_distance caster_token tok)) out_of_range
      >> check_range st range caster_token rest
]

abbrev pub no_targets_in : List String → Bool
no_targets_in [] = true
no_targets_in (id ∷ rest) = false

-- The checks of Resolve, in order.
unfoldable pub check_command : State → CompiledPower → UseAbility → Attempt (Unit {0})
unfolding check_targets check_resolution check_usage check_range find_token
check_command st power cmd =
    refuse_if (not (is_some (get st.actors cmd.actor_id))) unknown_caster >> do
      a ← refuse_if (no_targets_in cmd.target_ids) no_targets
      b ←
          refuse_if (ltb_ℤ power.targeting.max_targets (pos (length cmd.target_ids)))
            too_many_targets
      c ← check_targets st [] cmd.target_ids
      d ← check_resolution st cmd.actor_id cmd.target_ids power.resolution
      e ← check_usage st cmd.actor_id cmd.target_ids power.limited
      elim (find_token st cmd.actor_id "") [
        | none ↦ failed no_caster_token
        | some token ↦ check_range st power.targeting.range token cmd.target_ids
      ]
