-- ===== src/Gateway/Revoking.antt =====
-- A player's revocation from Authorize of internal/gateway/authz.go to the engine.
use vtt_platform.Prelude.{String, ◌≡◌, ◌∙◌, sym, false, none, some, len, ltb, eq_iff}
use vtt_platform.Contract.Event.{Envelope, actor_control_revoked}
use vtt_platform.Contract.Command.{revoke_actor_control, RevokeActorControl}
use vtt_platform.Go.GoMap.{get}
use vtt_platform.Identity.{player}
use vtt_platform.Engine.State.{State}
use vtt_platform.Engine.Apply.Outcome.{max_id_bytes}
use vtt_platform.Engine.Apply.Dispatch.{apply}
use vtt_platform.Gateway.Rules.{authorize, controls_option}
use vtt_platform.Gateway.Convert.{event_payload}
use vtt_platform.Gateway.ByCommand.{authorize_by_command}
use vtt_platform.Gateway.Ownership.{names_self, self_revoke_accepted}

-- A revocation of an actor's control that Authorize lets a player with an id no longer than the bound
-- issue is of the player's own control; the event that it converts to is accepted by the engine, and
-- leaves the player without that actor.
pub player_revokes_own :
    (id name : String) (req : RevokeActorControl) (st : State) (env : Envelope)
    → authorize (record { id = id; name = name; role = player }) (revoke_actor_control req) st
      ≡ none
    → ltb max_id_bytes (len id) ≡ false
    → event_payload (revoke_actor_control req) ≡ some env.payload
    → (req.participant_id ≡ id)
      × ((apply st env).0 ≡ none)
      × (controls_option (get (apply st env).1.actors req.actor_id) id ≡ false)
unfolding apply event_payload
player_revokes_own id name req st env h b e =
    let self =
      sym (
        authorize_by_command (record { id = id; name = name; role = player })
          (revoke_actor_control req) st)
      ∙ h in
    let is_revocation : actor_control_revoked
          (record { actor_id = req.actor_id; participant_id = req.participant_id })
        ≡ env.payload =
      cc in
    let (accepted, gone) =
      self_revoke_accepted (record { id = id; name = name; role = player }) req st self b in
    (
      (eq_iff req.participant_id id).0 (names_self _ req st self),
      rw (sym is_revocation) accepted,
      rw (sym is_revocation) gone,
    )
