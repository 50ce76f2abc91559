-- ===== src/Engine/WellFormed.antt =====
-- The invariant of the derived state.
use vtt_platform.Prelude.{arith}
use vtt_platform.Contract.Event.{Envelope}
use vtt_platform.Go.GoMap.{get-empty}
use vtt_platform.Engine.State.{State, new_state}
use vtt_platform.Engine.Apply.Dispatch.{apply}
use vtt_platform.Engine.Invariant.Keys.{KeysAreUnique, apply_payload-KeysAreUnique}
use vtt_platform.Engine.Invariant.Tokens.{TokensArePlaced, apply_payload-TokensArePlaced}
use vtt_platform.Engine.Invariant.Actors.{ActorsAreFiled, apply_payload-ActorsAreFiled}
use vtt_platform.Engine.Invariant.Conditions.{ConditionsAreHeld, apply_payload-ConditionsAreHeld}
use vtt_platform.Engine.Invariant.Scenes.{ScenesAreBuilt, apply_payload-ScenesAreBuilt}
use vtt_platform.Engine.Invariant.Sessions.{OneIsOpen, open_count, apply_payload-OneIsOpen}

pub record IsWellFormed (st : State) : Type 0 where
  pub keys : KeysAreUnique st
  pub tokens : TokensArePlaced st
  pub actors : ActorsAreFiled st
  pub conditions : ConditionsAreHeld st
  pub scenes : ScenesAreBuilt st
  pub sessions : OneIsOpen st

pub new_state-IsWellFormed : IsWellFormed new_state
unfolding open_count
new_state-IsWellFormed = record {
  keys = record { scenes = tt; actors = tt; tokens = tt };
  tokens = record { at_token = λ id t e. cc (get-empty id, e) };
  actors = record { at_actor = λ id a e. cc (get-empty id, e) };
  conditions = record { at_holder = λ id l e. cc (get-empty id, e) };
  scenes = record { at_scene = λ id sc e. cc (get-empty id, e) };
  sessions = omega arith;
}

-- From a well-formed state every event, applied or refused, leaves a well-formed state.
pub apply-IsWellFormed :
    (st : State) (env : Envelope) → IsWellFormed st → IsWellFormed (apply st env).1
unfolding apply
apply-IsWellFormed st env v = record {
  keys = apply_payload-KeysAreUnique st env env.payload v.keys;
  tokens = apply_payload-TokensArePlaced st env env.payload v.tokens v.keys;
  actors = apply_payload-ActorsAreFiled st env env.payload v.actors;
  conditions = apply_payload-ConditionsAreHeld st env env.payload v.conditions;
  scenes = apply_payload-ScenesAreBuilt st env env.payload v.scenes;
  sessions = apply_payload-OneIsOpen st env env.payload v.sessions;
}
