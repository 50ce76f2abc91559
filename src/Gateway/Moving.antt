-- ===== src/Gateway/Moving.antt =====
-- A player's move through handleCommand of internal/gateway/server.go, up to the campaign.
use vtt_platform.Prelude.{
  ℕ, String, Bool, true, ◌≡◌, ◌↔◌, refl, ap, Option, none, some, List, [], ◌∷◌, arith,
}
use vtt_platform.Contract.Event.{GridPosition, Envelope, Payload, TokenMoved, token_moved}
use vtt_platform.Contract.Command.{move_token, MoveToken}
use vtt_platform.Go.GoMap.{get}
use vtt_platform.Identity.{Participant, player}
use vtt_platform.Engine.State.{State, Token}
use vtt_platform.Engine.Apply.Scenes.{x_of, y_of}
use vtt_platform.Engine.Terrain.{blocked}
use vtt_platform.Rules.Eval.{Roller}
use vtt_platform.Rules.Ruleset.{Ruleset}
use vtt_platform.Gateway.Rules.{controls_option, authorize_token_ownership}
use vtt_platform.Gateway.Convert.{text_or_empty, with_origin, envelope_of}
use vtt_platform.Gateway.Commands.{player_move, owned_token}
use vtt_platform.Gateway.Handling.{reply_of-none}
use vtt_platform.Gateway.Handle.{
  Reply, Handled, hands_over, denied, or_refuse, reply_of, put_first, append_stamped, check_square,
  check_move, judge_command,
}

abbrev pub move_from : MoveToken → Token → TokenMoved
move_from m tok = record {
  token_id = m.token_id;
  scene_id = tok.scene_id;
  from = some (record { x = tok.x; y = tok.y });
  to = m.to;
  reason = text_or_empty m.reason;
}

abbrev bare_move : MoveToken → TokenMoved
bare_move m = record {
  token_id = m.token_id;
  scene_id = "";
  from = none;
  to = m.to;
  reason = text_or_empty m.reason;
}

abbrev pub as_player : String → String → Participant
as_player id name = record { id = id; name = name; role = player }

pub unrefused :
    (o : Option Reply) (h : Handled) (envs : List Envelope)
    → (or_refuse o h ≡ hands_over envs) ↔ ((o ≡ none) × (h ≡ hands_over envs))
unrefused none h envs = (λ e. (refl, e), λ e. e.1)
unrefused (some r) h envs = (λ e. cc, λ (e, _). cc)

pub sent :
    (p : Participant) (payload : Payload) (id : Option String) (envs : List Envelope)
    → (append_stamped (put_first p payload id (some [])) ≡ hands_over envs)
      ↔ ((event_id : String) × (id ≡ some event_id) × (envs ≡ envelope_of event_id p payload ∷ []))
unfolding append_stamped
sent p payload none envs = (λ e. cc, λ (i, e, f). cc)
sent p payload (some id) envs = (λ e. (id, refl, cc), λ (i, e, f). cc)

module _ (can_see : State → String → Option GridPosition → Bool)
    (sees_actor : State → String → Bool) where
  free_square :
      (st : State) (tok : Token) (to : Option GridPosition)
      → (check_square can_see sees_actor st tok to ≡ none) ↔ (
          (can_see st tok.scene_id to ≡ true)
          × (blocked st tok.scene_id (x_of to) (y_of to) ≡ none))
  unfolding check_square
  free_square st tok to = (λ h. ground arith, λ (s, b). ground arith)

  check_move-token :
      (st : State) (m : MoveToken) (tok : Token)
      → get st.tokens m.token_id ≡ some tok
      → check_move can_see sees_actor st m ≡ check_square can_see sees_actor st tok m.to
  unfolding check_move
  check_move-token st m tok h = ground arith

with_origin-token :
    (st : State) (m : MoveToken) (tok : Token)
    → get st.tokens m.token_id ≡ some tok
    → with_origin (bare_move m) st ≡ move_from m tok
unfolding with_origin
with_origin-token st m tok h = ground arith

module _ (can_see : State → String → Option GridPosition → Bool)
    (sees_actor : State → String → Bool) where
  abbrev move_tail : (ℕ → Option String) → Participant → MoveToken → State → Handled
  move_tail new_id p m st = or_refuse (check_move can_see sees_actor st m) (
      append_stamped
        (put_first p (token_moved (with_origin (bare_move m) st)) (new_id 0) (some [])))

  tail_handled :
      (new_id : ℕ → Option String) (p : Participant) (m : MoveToken) (st : State) (tok : Token)
      (envs : List Envelope)
      → get st.tokens m.token_id ≡ some tok
      → (move_tail new_id p m st ≡ hands_over envs) ↔ (
          (check_square can_see sees_actor st tok m.to ≡ none)
          × (append_stamped (put_first p (token_moved (move_from m tok)) (new_id 0) (some []))
              ≡ hands_over envs))
  tail_handled new_id p m st tok envs h =
      rw (check_move-token can_see sees_actor st m tok h, with_origin-token st m tok h)
        (unrefused (check_square can_see sees_actor st tok m.to) _ envs)

  module _ {Gen : Type 0} (new_id : ℕ → Option String) (rs : Option Ruleset)
      (rng : Option (Roller Gen)) (g : Gen) where
    move_handled :
        (id name : String) (m : MoveToken) (st : State)
        → judge_command can_see sees_actor new_id rs rng g (as_player id name) (move_token m) st
          ≡ or_refuse
              (reply_of denied (authorize_token_ownership (as_player id name) m st))
              (move_tail new_id (as_player id name) m st)
    unfolding judge_command
    move_handled id name m st =
        ap (λ o. or_refuse (reply_of denied o) (move_tail new_id (as_player id name) m st))
          (player_move id name m st)

    -- Exactly what is handed to the campaign.
    pub player_move_handled :
        (id name : String) (m : MoveToken) (st : State) (envs : List Envelope)
        → (judge_command can_see sees_actor new_id rs rng g
              (record { id = id; name = name; role = player })
              (move_token m)
              st
            ≡ hands_over envs)
          ↔ ((tok : Token) × (get st.tokens m.token_id ≡ some tok)
              × (controls_option (get st.actors tok.actor_id) id ≡ true)
              × (can_see st tok.scene_id m.to ≡ true)
              × (blocked st tok.scene_id (x_of m.to) (y_of m.to) ≡ none)
              × ((event_id : String) × (new_id 0 ≡ some event_id)
                  × (envs
                      ≡ envelope_of event_id (as_player id name) (token_moved (move_from m tok))
                        ∷ [])))
    player_move_handled id name m st envs = rw (move_handled id name m st) (
      (λ e.
          let (a, t) = (unrefused _ _ envs).0 e in
          let (tok, q, c) = (owned_token (as_player id name) m st).0 (reply_of-none denied _ a) in
          let (s, w) = (tail_handled new_id (as_player id name) m st tok envs q).0 t in
          let (seen, free) = (free_square can_see sees_actor st tok m.to).0 s in
          (tok, q, c, seen, free, (sent (as_player id name) _ (new_id 0) envs).0 w)),
      (λ (tok, q, c, seen, free, w). (unrefused _ _ envs).1 (
        ap (reply_of denied) ((owned_token (as_player id name) m st).1 (tok, q, c)),
        (tail_handled new_id (as_player id name) m st tok envs q).1 (
          (free_square can_see sees_actor st tok m.to).1 (seen, free),
          (sent (as_player id name) _ (new_id 0) envs).1 w,
        ),
      )),
    )
