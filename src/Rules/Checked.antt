-- ===== src/Rules/Checked.antt =====
-- What the checks of Resolve establish.
use vtt_platform.Prelude.{
  ◌≡◌, refl, String, true, false, not, Option, none, some, List, [], ◌∷◌, is_some, arith, All,
  Option-cases, inl, inr, contains, length,
}
use vtt_platform.Prelude.Int.{ℤ, pos, ltb_ℤ, ◌-ℤ◌, ◌+ℤ◌, ◌≤ℤ◌, IsInt32}
use vtt_platform.Go.GoMap.{get}
use vtt_platform.Contract.Event.{Resource}
use vtt_platform.Engine.State.{State}
use vtt_platform.Rules.Int64.{wrap64}
use vtt_platform.Rules.Ruleset.{CompiledPower, LimitedUsage}
use vtt_platform.Rules.Attempt.{
  unknown_caster, no_targets, too_many_targets, unknown_target, duplicate_target,
}
use vtt_platform.Rules.Running.{resource_of, clamp}
use vtt_platform.Contract.Command.{UseAbility}
use vtt_platform.Rules.Checks.{
  no_targets_in, check_targets, check_usage, check_command, check_resolution,
}
use vtt_platform.Rules.Soundness.{
  Returns, returns, fails, Returns-then, Returns-any, Returns-map, refuse_if-false, FitsId,
  FitsOutcome,
}

module _ (st : State) where
  abbrev pub AreHeld : List String → Type 0
  AreHeld ids = All (λ id. is_some (get st.actors id) ≡ true) ids

  check_targets-AreHeld :
      (seen ids : List String) → Returns (λ _. AreHeld ids) (check_targets st seen ids)
  unfolding check_targets
  check_targets-AreHeld seen [] = returns tt
  check_targets-AreHeld seen (id ∷ ids) =
      Returns-then
        (λ _ _.
          Returns-then
            (λ _ here.
              Returns-map (λ _ rest. (ground arith, rest)) (check_targets-AreHeld (id ∷ seen) ids))
            (refuse_if-false (not (is_some (get st.actors id))) unknown_target))
        (refuse_if-false (contains seen id) duplicate_target)

  -- The caster holds what a limited use costs.
  abbrev pub Affords : String → Option LimitedUsage → Type 0
  Affords caster none = Unit
  Affords caster (some usage) =
      (res : Resource) × (resource_of st caster usage.resource ≡ some res)
      × (ltb_ℤ res.current usage.cost ≡ false)

  check_usage-Affords :
      (caster : String) (ids : List String) (limited : Option LimitedUsage)
      → Returns (λ _. Affords caster limited) (check_usage st caster ids limited)
  unfolding check_usage
  check_usage-Affords caster ids none = returns tt
  check_usage-Affords caster ids (some usage) =
      elim (Option-cases (resource_of st caster usage.resource)) [
        | inl e ↦ rw (e, check_usage) fails
        | inr (res, e) ↦
            rw (e, check_usage) (Returns-map (λ _ h. (res, refl, h)) (refuse_if-false _ _))
      ]

  pub check_command-checked :
      (power : CompiledPower) (cmd : UseAbility)
      → Returns
          (λ _. AreHeld cmd.target_ids × Affords cmd.actor_id power.limited)
          (check_command st power cmd)
  unfolding check_command
  check_command-checked power cmd =
      Returns-then
        (λ _ _.
          Returns-then
            (λ _ _.
              Returns-then
                (λ _ _.
                  Returns-then
                    (λ _ targets.
                      Returns-then
                        (λ _ _.
                          Returns-then
                            (λ _ usage. Returns-map (λ _ _. (targets, usage)) (Returns-any _))
                            (check_usage-Affords cmd.actor_id cmd.target_ids power.limited))
                        (Returns-any
                          (check_resolution st cmd.actor_id cmd.target_ids power.resolution)))
                    (check_targets-AreHeld [] cmd.target_ids))
                (refuse_if-false (ltb_ℤ power.targeting.max_targets (pos (length cmd.target_ids)))
                  too_many_targets))
            (refuse_if-false (no_targets_in cmd.target_ids) no_targets))
        (refuse_if-false (not (is_some (get st.actors cmd.actor_id))) unknown_caster)

pub spend_fits :
    (upper current cost : ℤ)
    → IsInt32 current
    → pos 0 ≤ℤ cost
    → ltb_ℤ current cost ≡ false
    → IsInt32 (pos 0 -ℤ cost) × IsInt32 (clamp upper (wrap64 (current +ℤ (pos 0 -ℤ cost))))
unfolding clamp wrap64 ◌+ℤ◌ ◌-ℤ◌
spend_fits upper current cost i c h = ground arith

-- What loading checks of a power: the engine takes its ids, and its cost is not negative.
pub record PowerFits (power : CompiledPower) : Type 0 where
  pub id : FitsId power.id
  pub at_least : All FitsOutcome power.branch_outcomes.0
  pub less : All FitsOutcome power.branch_outcomes.1
  pub effects : All FitsOutcome power.effects
  pub cost : (usage : LimitedUsage) → power.limited ≡ some usage → pos 0 ≤ℤ usage.cost
