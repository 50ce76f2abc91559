-- ===== src/Gateway/Handle.antt =====
-- handleCommand of internal/gateway/server.go up to what it hands to the campaign, with
-- handleUseAbility of ruleset.go and handleRemoveActor. What a connection's eyes see is a parameter:
-- perception decides it. The handlers that load files or change who sits at the table are left out.
use vtt_platform.Prelude.{
  ℕ, suc, String, Bool, not, Option, none, some, List, [], ◌∷◌, ◌++◌, map, if◌then◌else◌,
}
use vtt_platform.Contract.Event.{GridPosition, Envelope, Payload, token_removed, actor_removed}
use vtt_platform.Contract.Command.{
  ClientCommand, move_token, use_ability, open_door, close_door, remove_actor, load_adventure,
  load_map, remove_participant, promote_participant, set_join_door, rotate_join_link, MoveToken,
  UseAbility, WorkDoor,
}
use vtt_platform.Go.GoMap.{get}
use vtt_platform.Go.Sort.{sort_by}
use vtt_platform.Identity.{Participant}
use vtt_platform.Engine.State.{State, Token}
use vtt_platform.Engine.Apply.Scenes.{x_of, y_of}
use vtt_platform.Engine.Terrain.{Reason, blocked, is_door}
use vtt_platform.Gateway.Denial.{Denial}
use vtt_platform.Gateway.Rules.{authorize, is_player}
use vtt_platform.Gateway.Convert.{
  BadForm, validate_form, event_payload, envelope_of, voice, backfill,
}
use vtt_platform.Rules.Eval.{Roller}
use vtt_platform.Rules.Ruleset.{Ruleset}
use vtt_platform.Rules.Attempt.{Attempt, done, failed, ResolveError}
use vtt_platform.Rules.Checks.{token_ids}
use vtt_platform.Rules.Resolve.{Batch, payloads_of, resolve}

-- Why a command is answered with ok = false.
pub data Reply : Type 0 where
  denied : Denial → Reply
  unseen_square : Reply
  blocked_square : Reason → Reply
  unseen_target : String → Reply
  no_door_there : Reply
  bad_form : BadForm → Reply
  no_ruleset : Reply
  not_resolved : ResolveError → Reply
  no_event_id unknown_command : Reply

-- What handleCommand does with a command before the campaign sees it: it refuses, or hands a batch
-- (of one envelope, mostly) to the campaign's Append or AppendBatch, or leaves the command to one of
-- the six handlers that are not modelled.
pub data Handled : Type 0 where
  refuses : Reply → Handled
  hands_over : List Envelope → Handled
  elsewhere : Handled

abbrev pub or_refuse : Option Reply → Handled → Handled
or_refuse none next = next
or_refuse (some r) next = refuses r

abbrev pub reply_of : {A : Type 0} → (A → Reply) → Option A → Option Reply
reply_of f none = none
reply_of f (some a) = some (f a)

abbrev pub put_first :
    Participant → Payload → Option String → Option (List Envelope) → Option (List Envelope)
put_first p payload (some id) (some envs) = some (envelope_of id p payload ∷ envs)
put_first p payload none rest = none
put_first p payload _ none = none

-- The ids of the envelopes: `new_id i` is what the i-th call of newEventID gives.
unfoldable pub stamp_all :
    (ℕ → Option String) → ℕ → Participant → List Payload → Option (List Envelope)
stamp_all new_id i p [] = some []
stamp_all new_id i p (payload ∷ rest) =
    put_first p payload (new_id i) (stamp_all new_id (suc i) p rest)

unfoldable pub append_stamped : Option (List Envelope) → Handled
append_stamped none = refuses no_event_id
append_stamped (some envs) = hands_over envs

-- handleRemoveActor: the actor's tokens in the order of their ids, then the actor.
unfoldable pub removals : State → String → List Payload
unfolding token_ids sort_by
removals st actor_id =
    map token_removed (sort_by (λ id. id) (token_ids actor_id "" st.tokens.entries))
    ++ actor_removed actor_id ∷ []

abbrev pub door_square_of : ClientCommand → Option WorkDoor
door_square_of (open_door d) = some d
door_square_of (close_door d) = some d
door_square_of _ = none

unfoldable pub check_door : Option WorkDoor → State → Option Reply
unfolding is_door
check_door none st = none
check_door (some d) st =
    if not (is_door st d.scene_id (x_of d.at) (y_of d.at)) then some no_door_there else none

module _ (can_see : State → String → Option GridPosition → Bool)
    (sees_actor : State → String → Bool) where
  unfoldable pub check_square : State → Token → Option GridPosition → Option Reply
  unfolding blocked
  check_square st tok to =
      if not (can_see st tok.scene_id to)
      then some unseen_square
      else reply_of blocked_square (blocked st tok.scene_id (x_of to) (y_of to))

  unfoldable pub check_move : State → MoveToken → Option Reply
  unfolding check_square
  check_move st m = elim (get st.tokens m.token_id) [
    | none ↦ none
    | some tok ↦ check_square st tok m.to
  ]

  unfoldable pub check_targets_seen : State → List String → Option Reply
  check_targets_seen st [] = none
  check_targets_seen st (id ∷ rest) =
      let more = check_targets_seen st rest in
      if not (sees_actor st id) then some (unseen_target id) else more

  -- What is checked of a player alone.
  unfoldable pub check_player : ClientCommand → State → Option Reply
  unfolding check_move check_targets_seen
  check_player (move_token m) st = check_move st m
  check_player (use_ability u) st = check_targets_seen st u.target_ids
  check_player _ st = none

  module _ {Gen : Type 0} (new_id : ℕ → Option String) (rs : Option Ruleset)
      (rng : Option (Roller Gen)) (g : Gen) where
    unfoldable pub resolved_batch : Participant → Attempt (Batch × Gen) → Handled
    unfolding stamp_all append_stamped
    resolved_batch p (failed e) = refuses (not_resolved e)
    resolved_batch p (done (batch, _)) = append_stamped (stamp_all new_id 0 p (payloads_of batch))

    unfoldable pub handle_use_ability : Participant → UseAbility → State → Option Ruleset → Handled
    unfolding resolve resolved_batch
    handle_use_ability p u st none = refuses no_ruleset
    handle_use_ability p u st (some rules) = resolved_batch p (resolve rules st rng u g)

    -- One converted command, past ToEvent.
    unfoldable pub converted : Participant → ClientCommand → State → Option Payload → Handled
    unfolding stamp_all append_stamped backfill voice
    converted p cmd st none = refuses unknown_command
    converted p cmd st (some payload) =
        append_stamped (stamp_all new_id 0 p (voice (backfill payload st) cmd p st ∷ []))

    unfoldable pub dispatch : Participant → ClientCommand → State → Handled
    unfolding handle_use_ability stamp_all append_stamped removals converted event_payload
    dispatch p (use_ability u) st = handle_use_ability p u st rs
    dispatch p (remove_actor id) st = append_stamped (stamp_all new_id 0 p (removals st id))
    dispatch p (load_adventure id) st = elsewhere
    dispatch p (load_map id) st = elsewhere
    dispatch p remove_participant st = elsewhere
    dispatch p (promote_participant q) st = elsewhere
    dispatch p set_join_door st = elsewhere
    dispatch p rotate_join_link st = elsewhere
    dispatch p cmd st = converted p cmd st (event_payload cmd)

    unfoldable pub judge_command : Participant → ClientCommand → State → Handled
    unfolding authorize check_player check_door validate_form dispatch
    judge_command p cmd st = or_refuse (reply_of denied (authorize p cmd st)) (
        or_refuse (if is_player p.role then check_player cmd st else none) (
          or_refuse (check_door (door_square_of cmd) st)
            (or_refuse (reply_of bad_form (validate_form cmd)) (dispatch p cmd st))))
