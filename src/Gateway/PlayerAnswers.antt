-- ===== src/Gateway/PlayerAnswers.antt =====
-- handleCommand of internal/gateway/server.go for a player's move and a player's narration.
use vtt_platform.Prelude.{
  ℕ, String, Bool, true, ◌≡◌, ◌↔◌, refl, subst, Option, none, some, List, [], ◌∷◌,
}
use vtt_platform.Prelude.Int.{ℤ}
use vtt_platform.Contract.Event.{GridPosition, Envelope, token_moved, narration_added}
use vtt_platform.Contract.Command.{move_token, MoveToken, add_narration, AddNarration}
use vtt_platform.Go.GoMap.{get}
use vtt_platform.Identity.{player}
use vtt_platform.Engine.State.{State, Token}
use vtt_platform.Engine.Apply.Scenes.{x_of, y_of}
use vtt_platform.Engine.Terrain.{blocked}
use vtt_platform.Store.Log.{Database}
use vtt_platform.Campaign.Append.{Campaign, append_envelopes}
use vtt_platform.Rules.Eval.{Roller}
use vtt_platform.Rules.Ruleset.{Ruleset}
use vtt_platform.Gateway.Rules.{controls_option}
use vtt_platform.Gateway.Convert.{envelope_of}
use vtt_platform.Gateway.Moving.{as_player, move_from, player_move_handled}
use vtt_platform.Gateway.Voicing.{MaySpeakAs, spoken, player_narration_handled}
use vtt_platform.Gateway.Answer.{ok, handle_command}
use vtt_platform.Gateway.Answering.{IsAppended, settle-ok}

module _ (sql : Database) (session_ids : ℕ → Option String) (fan_out_fails : Bool) where
  module _ (can_see : State → String → Option GridPosition → Bool)
      (sees_actor : State → String → Bool) where
    module _ {Gen : Type 0} (new_id : ℕ → Option String) (rs : Option Ruleset)
        (rng : Option (Roller Gen)) (g : Gen) where
      -- A player's move is answered with ok = true exactly when the token is on the board and the
      -- player controls its actor, the player's eyes see the square, nothing blocks the square, an
      -- event id is drawn, and the campaign's append of one envelope succeeds: a move of the token, by
      -- the player, from where it stands in the scene it stands in. The campaign that is left is then
      -- what that append leaves.
      pub player_move_answered :
          (id name : String) (m : MoveToken) (c after : Campaign sql) (first : ℤ)
          → (handle_command sql session_ids fan_out_fails can_see sees_actor new_id rs rng g c
                (record { id = id; name = name; role = player })
                (move_token m)
              ≡ (ok first, after))
            ↔ ((tok : Token) × (get c.state.tokens m.token_id ≡ some tok)
                × (controls_option (get c.state.actors tok.actor_id) id ≡ true)
                × (can_see c.state tok.scene_id m.to ≡ true)
                × (blocked c.state tok.scene_id (x_of m.to) (y_of m.to) ≡ none)
                × ((event_id : String) × (new_id 0 ≡ some event_id)
                    × IsAppended sql
                        (append_envelopes sql session_ids fan_out_fails c (
                          envelope_of event_id (as_player id name) (token_moved (move_from m tok))
                          ∷ []))
                        first
                        after))
      unfolding handle_command
      player_move_answered id name m c after first =
          let handled = player_move_handled can_see sees_actor new_id rs rng g id name m c.state in
          let answered = settle-ok sql session_ids fan_out_fails c after _ first in
          (
            (λ q.
                let (envs, h, a) = answered.0 q in
                let (tok, on, own, seen, free, (event_id, drawn, shape)) = (handled envs).0 h in
                (
                  tok,
                  on,
                  own,
                  seen,
                  free,
                  (
                    event_id,
                    drawn,
                    subst
                        (λ (l : List Envelope).
                          IsAppended sql (append_envelopes sql session_ids fan_out_fails c l) first
                            after)
                        shape a,
                  ),
                )),
            (λ (tok, on, own, seen, free, (event_id, drawn, a)).
                answered.1
                  (_, (handled _).1 (tok, on, own, seen, free, (event_id, drawn, refl)), a)),
          )

      -- A player's narration is answered with ok = true exactly when it is out of character and names
      -- no actor, or names a party member that the player controls and that has a name, an event id is
      -- drawn, and the campaign's append of one envelope succeeds: the narration, by the player, spoken
      -- out of character as the player's own name and in character as that party member's, whatever
      -- speaker the command has. The campaign that is left is then what that append leaves.
      pub player_narration_answered :
          (id name : String) (n : AddNarration) (c after : Campaign sql) (first : ℤ)
          → (handle_command sql session_ids fan_out_fails can_see sees_actor new_id rs rng g c
                (record { id = id; name = name; role = player })
                (add_narration n)
              ≡ (ok first, after))
            ↔ ((speaker : String) × MaySpeakAs c.state id name n speaker
                × ((event_id : String) × (new_id 0 ≡ some event_id)
                    × IsAppended sql
                        (append_envelopes sql session_ids fan_out_fails c (
                          envelope_of event_id
                            (as_player id name)
                            (narration_added (spoken n speaker))
                          ∷ []))
                        first
                        after))
      unfolding handle_command
      player_narration_answered id name n c after first =
          let handled =
            player_narration_handled can_see sees_actor new_id rs rng g id name n c.state in
          let answered = settle-ok sql session_ids fan_out_fails c after _ first in
          (
            (λ q.
                let (envs, h, a) = answered.0 q in
                let (speaker, may, (event_id, drawn, shape)) = (handled envs).0 h in
                (
                  speaker,
                  may,
                  (
                    event_id,
                    drawn,
                    subst
                        (λ (l : List Envelope).
                          IsAppended sql (append_envelopes sql session_ids fan_out_fails c l) first
                            after)
                        shape a,
                  ),
                )),
            (λ (speaker, may, (event_id, drawn, a)).
                answered.1 (_, (handled _).1 (speaker, may, (event_id, drawn, refl)), a)),
          )
