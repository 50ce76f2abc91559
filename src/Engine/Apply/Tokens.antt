-- ===== src/Engine/Apply/Tokens.antt =====
-- The TokenPlaced, TokenDescribed, TokenMoved, TokenRemoved and TokenHidden arms.
use vtt_platform.Prelude.{String, not, none, some, len, ltb, is_some, if◌then◌else◌}
use vtt_platform.Contract.Event.{GridPosition, TokenPlaced, TokenDescribed, TokenMoved}
use vtt_platform.Go.GoMap.{get, put, delete}
use vtt_platform.Engine.State.{State, Token}
use vtt_platform.Engine.Apply.Outcome.{
  Outcome, refuse, done, bad_token_id, token_exists, unknown_scene, unknown_actor, without_position,
  unknown_token, reason_too_long, bad_move_scene_id, max_id_bytes, max_move_reason_bytes,
  empty_or_over,
}

unfoldable pub placed : TokenPlaced → GridPosition → Token
placed tp p = record {
  id = tp.token_id;
  scene_id = tp.scene_id;
  actor_id = tp.actor_id;
  x = p.x;
  y = p.y;
  name = tp.name;
  notes = tp.notes;
  gm_name = tp.gm_name;
  gm_notes = tp.gm_notes;
}

unfoldable pub apply_token_placed : State → TokenPlaced → Outcome
unfolding placed
apply_token_placed st tp =
    if empty_or_over max_id_bytes tp.token_id
    then refuse bad_token_id st
    else if is_some (get st.tokens tp.token_id)
    then refuse token_exists st
    else if not (is_some (get st.scenes tp.scene_id))
    then refuse unknown_scene st
    else if not (is_some (get st.actors tp.actor_id))
    then refuse unknown_actor st
    else elim tp.position [
      | none ↦ refuse without_position st
      | some p ↦ done (record st { tokens = put st.tokens tp.token_id (placed tp p) })
    ]

unfoldable pub apply_token_described : State → TokenDescribed → Outcome
apply_token_described st td = elim (get st.tokens td.token_id) [
  | none ↦ refuse unknown_token st
  | some tok ↦ done (record st {
    tokens = put st.tokens td.token_id (record tok {
      name = td.name;
      notes = td.notes;
      gm_name = td.gm_name;
      gm_notes = td.gm_notes;
    });
  })
]

move_to : State → TokenMoved → Token → GridPosition → Outcome
move_to st tm tok p =
    if ltb max_move_reason_bytes (len tm.reason)
    then refuse reason_too_long st
    else if empty_or_over max_id_bytes tm.scene_id
    then refuse bad_move_scene_id st
    else done (record st { tokens = put st.tokens tm.token_id (record tok { x = p.x; y = p.y }) })

-- The token stays in its scene: the event's scene id is bounded and not stored.
unfoldable pub apply_token_moved : State → TokenMoved → Outcome
unfolding move_to
apply_token_moved st tm = elim (get st.tokens tm.token_id) [
  | none ↦ refuse unknown_token st
  | some tok ↦ elim tm.to [ none ↦ refuse without_position st | some p ↦ move_to st tm tok p ]
]

unfoldable pub apply_token_removed : State → String → Outcome
apply_token_removed st token_id =
    if not (is_some (get st.tokens token_id))
    then refuse unknown_token st
    else done (record st { tokens = delete st.tokens token_id })

-- No refusal: a hide of a token already gone is tolerated.
unfoldable pub apply_token_hidden : State → String → Outcome
apply_token_hidden st token_id = done (record st { tokens = delete st.tokens token_id })
