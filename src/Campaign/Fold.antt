-- ===== src/Campaign/Fold.antt =====
-- foldEvents of internal/campaign/campaign.go, and FoldPrefix of foldprefix.go.
use vtt_platform.Prelude.{Bool, true, false, none, some, List, [], ◌∷◌, if◌then◌else◌}
use vtt_platform.Prelude.Int.{ℤ}
use vtt_platform.Contract.Event.{Envelope}
use vtt_platform.Engine.State.{State, new_state}
use vtt_platform.Engine.Apply.Outcome.{EngineError, Outcome, unknown_variant}
use vtt_platform.Engine.Apply.Dispatch.{apply}

-- The state that the log folds to, with the calls of `after` in order; or the sequence at which the
-- log is corrupt, and why.
pub data Folded : Type 0 where
  folded : State → List (State × Envelope) → Folded
  corrupt : ℤ → EngineError → Folded

abbrev pub observed : State → Envelope → Folded → Folded
observed st env (folded final calls) = folded final ((st, env) ∷ calls)
observed st env (corrupt seq e) = corrupt seq e

-- errors.Is(err, engine.ErrUnknownVariant)
unfoldable pub is_unknown_variant : EngineError → Bool
is_unknown_variant unknown_variant = true
is_unknown_variant _ = false

-- What the loop does with the outcome of one event, given the fold of the rest.
unfoldable pub after_event : Outcome → Envelope → Folded → Folded
unfolding is_unknown_variant
after_event (none, st) env rest = observed st env rest
after_event (some e, st) env rest = if is_unknown_variant e then rest else corrupt env.sequence e

unfoldable pub fold_from : State → List Envelope → Folded
unfolding after_event
fold_from st [] = folded st []
fold_from st (env ∷ rest) = after_event (apply st env) env (fold_from (apply st env).1 rest)

unfoldable pub fold_events : List Envelope → Folded
unfolding fold_from
fold_events events = fold_from new_state events
