-- ===== src/Engine/Removal.antt =====
-- The removal of an actor.
use vtt_platform.Prelude.{
  String, ◌≡◌, sym, true, false, none, some, [], ◌==◌, arith, All, eq_iff, eq_refl, is_some,
}
use vtt_platform.Go.Text.{str_lt}
use vtt_platform.Go.GoMap.{get, get-delete}
use vtt_platform.Engine.State.{State, Token, conditions_of}
use vtt_platform.Engine.Apply.Outcome.{still_has_token}
use vtt_platform.Engine.Apply.Actors.{standing_token, apply_actor_removed}
use vtt_platform.Engine.Standing.{IsNamed, standing_token-empty, standing_token-least}

removed_empty :
    (st : State) (id : String)
    → (apply_actor_removed st id).0 ≡ none
    → standing_token id "" st.tokens.entries ≡ ""
unfolding apply_actor_removed
removed_empty st id h = ground (arith, eq_iff (standing_token id "" st.tokens.entries) "")

removed_gone :
    (st : State) (id : String)
    → (apply_actor_removed st id).0 ≡ none
    → (is_some (get (apply_actor_removed st id).1.actors id) ≡ false)
      × (conditions_of (apply_actor_removed st id).1 id ≡ [])
      × ((apply_actor_removed st id).1.tokens ≡ st.tokens)
unfolding apply_actor_removed conditions_of
removed_gone st id h =
    ground (arith, get-delete st.actors id id, get-delete st.conditions id id, eq_refl id)

removed_named :
    (st : State) (id standing : String)
    → (apply_actor_removed st id).0 ≡ some (still_has_token standing)
    → standing_token id "" st.tokens.entries ≡ standing
unfolding apply_actor_removed
removed_named st id standing h = ground arith

-- When no token is filed under the empty id: an actor whose removal is accepted is gone, with its
-- conditions, and no token left on the board is the actor's.
pub removal_leaves_nothing :
    (st : State) (id token_id : String) (tok : Token)
    → All IsNamed st.tokens.entries
    → (apply_actor_removed st id).0 ≡ none
    → get (apply_actor_removed st id).1.tokens token_id ≡ some tok
    → (is_some (get (apply_actor_removed st id).1.actors id) ≡ false)
      × (conditions_of (apply_actor_removed st id).1 id ≡ [])
      × ((tok.actor_id == id) ≡ false)
unfolding get
removal_leaves_nothing st id token_id tok n h e =
    let (a, c, t) = removed_gone st id h in
    (
      a,
      c,
      standing_token-empty id "" token_id tok st.tokens.entries n (removed_empty st id h)
          (rw t at e),
    )

-- When no token is filed under the empty id: a removal that is refused for a token that still
-- stands names, of the actor's tokens, one that no other id is less than.
pub removal_names_least :
    (st : State) (id standing token_id : String) (tok : Token)
    → All IsNamed st.tokens.entries
    → (apply_actor_removed st id).0 ≡ some (still_has_token standing)
    → get st.tokens token_id ≡ some tok
    → (tok.actor_id == id) ≡ true
    → str_lt token_id standing ≡ false
unfolding get
removal_names_least st id standing token_id tok n h e o =
    rw (sym (removed_named st id standing h))
      (standing_token-least id "" token_id tok st.tokens.entries n e o)
