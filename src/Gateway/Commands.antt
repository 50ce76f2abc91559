-- ===== src/Gateway/Commands.antt =====
-- What Authorize comes to for single commands.
use vtt_platform.Prelude.{
  String, ◌≡◌, ◌↔◌, ◌⊎◌, refl, sym, ap, subst, ◌∙◌, true, none, some, arith, Option-cases, inl, inr,
  eq_iff,
}
use vtt_platform.Contract.Command.{
  ClientCommand, move_token, MoveToken, promote_participant, PromoteParticipant,
}
use vtt_platform.Go.GoMap.{get, lookup}
use vtt_platform.Identity.{parse_role, Role, Participant, dm, agent, player, spectator}
use vtt_platform.Engine.State.{State, Token}
use vtt_platform.Gateway.Roles.{command_name, may_issue}
use vtt_platform.Gateway.Rules.{
  authorize, authorize_player, player_rules, authorize_token_ownership, authorize_promotion_target,
  controls_option,
}
use vtt_platform.Gateway.Access.{authorize-may_issue, spectator_column}

-- Authorize lets a spectator issue set_viewpoint alone.
pub spectator_only_watches :
    (p : Participant) (cmd : ClientCommand) (st : State)
    → p.role ≡ spectator
    → authorize p cmd st ≡ none
    → command_name cmd ≡ "set_viewpoint"
spectator_only_watches p cmd st r h = (eq_iff (command_name cmd) "set_viewpoint").0 (
    sym (spectator_column cmd)
    ∙ subst (λ s. may_issue s (command_name cmd) ≡ true) r (authorize-may_issue p cmd st h))

pub player_move :
    (id name : String) (m : MoveToken) (st : State)
    → authorize (record { id = id; name = name; role = player }) (move_token m) st
      ≡ authorize_token_ownership (record { id = id; name = name; role = player }) m st
unfolding authorize command_name may_issue authorize_player player_rules lookup
player_move id name m st = refl

pub owned_token :
    (p : Participant) (m : MoveToken) (st : State)
    → (authorize_token_ownership p m st ≡ none) ↔ (
        (tok : Token) × (get st.tokens m.token_id ≡ some tok)
        × (controls_option (get st.actors tok.actor_id) p.id ≡ true))
unfolding authorize_token_ownership
owned_token p m st = elim (Option-cases (get st.tokens m.token_id)) [
  | inl n ↦ (λ h. absurd (no_token n h), λ (tok, e, c). absurd (none_some n e))
  | inr (tok, e) ↦ (λ h. (tok, e, ground arith), λ (t, q, c). ground arith)
]
  where
    no_token : get st.tokens m.token_id ≡ none → authorize_token_ownership p m st ≡ none → ⊥
    no_token n h = ground arith

    none_some :
        {tok : Token} → get st.tokens m.token_id ≡ none → get st.tokens m.token_id ≡ some tok → ⊥
    none_some n e = cc

-- Authorize lets a player move a token exactly when the token is on the board and its actor is one
-- that the player controls.
pub player_moves_own :
    (id name : String) (m : MoveToken) (st : State)
    → (authorize (record { id = id; name = name; role = player }) (move_token m) st ≡ none) ↔ (
        (tok : Token) × (get st.tokens m.token_id ≡ some tok)
        × (controls_option (get st.actors tok.actor_id) id ≡ true))
player_moves_own id name m st =
    rw (player_move id name m st)
      (owned_token (record { id = id; name = name; role = player }) m st)

staff_promotes :
    (r : Role) (id name : String) (q : PromoteParticipant) (st : State)
    → authorize (record { id = id; name = name; role = r }) (promote_participant q) st ≡ none
    → authorize_promotion_target q.role ≡ none
unfolding authorize command_name may_issue lookup
staff_promotes dm id name q st h = ground arith
staff_promotes agent id name q st h = ground arith
staff_promotes player id name q st h = cc
staff_promotes spectator id name q st h = cc

promotable : (r : String) → authorize_promotion_target r ≡ none → (r ≡ "player") ⊎ (r ≡ "spectator")
unfolding authorize_promotion_target
promotable r h = ground (arith, eq_iff r "player", eq_iff r "spectator")

-- Whoever issues it, a promotion that Authorize lets through makes a participant a player or a
-- spectator, never a DM or an agent.
pub promotes_to_table :
    (p : Participant) (q : PromoteParticipant) (st : State)
    → authorize p (promote_participant q) st ≡ none
    → (parse_role q.role ≡ some player) ⊎ (parse_role q.role ≡ some spectator)
unfolding parse_role
promotes_to_table p q st h = elim (promotable q.role (staff_promotes p.role p.id p.name q st h)) [
  | inl e ↦ inl (ap parse_role e)
  | inr e ↦ inr (ap parse_role e)
]
