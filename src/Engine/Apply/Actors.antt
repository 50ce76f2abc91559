-- ===== src/Engine/Apply/Actors.antt =====
-- The ActorAdded and ActorRemoved arms.
use Prim.Native.Nat.{max}
use vtt_platform.Prelude.{
  ℕ, String, Bool, true, false, not, ◌&&◌, ◌||◌, Option, none, some, List, [], ◌∷◌, ◌==◌, len, ltb,
  nat_eq, is_some, if◌then◌else◌,
}
use vtt_platform.Go.Text.{str_lt}
use vtt_platform.Contract.Event.{Actor}
use vtt_platform.Go.GoMap.{Map, get, put, delete}
use vtt_platform.Engine.State.{State, Token}
use vtt_platform.Engine.Apply.Outcome.{
  Outcome, refuse, done, actor_without_id, actor_id_too_long, actor_exists, declares_controller,
  name_too_long, module_id_too_long, bad_resource_name, bad_attribute_name, unknown_actor,
  still_has_token, max_name_bytes, max_id_bytes,
}

-- The loop of keyLength: the longest key.
unfoldable pub longest_key {ℓ} : {V : Type ℓ} → ℕ → List (String × V) → ℕ
longest_key n [] = n
longest_key n ((k, v) ∷ l) = longest_key (max n (len k)) l

-- keyLength: `none` is (0, false).
unfoldable pub key_length {ℓ} : {V : Type ℓ} → Map V → Option ℕ
unfolding longest_key
key_length m = elim m.entries [
  | [] ↦ none
  | e ∷ rest ↦ if is_some (get m "") then some 0 else some (longest_key 0 (e ∷ rest))
]

-- n, ok := keyLength(m); ok && (n == 0 || n > maxIDBytes)
abbrev pub bad_length : Option ℕ → Bool
bad_length none = false
bad_length (some n) = nat_eq n 0 || ltb max_id_bytes n

abbrev pub any_id : List String → Bool
any_id [] = false
any_id (x ∷ xs) = true

unfoldable pub add_actor : State → Actor → Outcome
add_actor st a =
    if a.actor_id == ""
    then refuse actor_without_id st
    else if ltb max_id_bytes (len a.actor_id)
    then refuse actor_id_too_long st
    else if is_some (get st.actors a.actor_id)
    then refuse actor_exists st
    else if not (a.controller_id == "") || any_id a.controller_ids
    then refuse declares_controller st
    else if ltb max_name_bytes (len a.name)
    then refuse name_too_long st
    else if ltb max_id_bytes (len a.module_id)
    then refuse module_id_too_long st
    else if bad_length (key_length a.resources)
    then refuse bad_resource_name st
    else if bad_length (key_length a.attributes)
    then refuse bad_attribute_name st
    else done (record st { actors = put st.actors a.actor_id a })

-- `none` is a nil actor.
unfoldable pub apply_actor_added : State → Option Actor → Outcome
unfolding add_actor
apply_actor_added st none = refuse actor_without_id st
apply_actor_added st (some a) = add_actor st a

-- The loop over the tokens of an actor: the first in id order, "" before any.
unfoldable pub standing_token : String → String → List (String × Token) → String
standing_token actor_id standing [] = standing
standing_token actor_id standing ((id, tok) ∷ rest) =
    standing_token actor_id
      (if tok.actor_id == actor_id && (standing == "" || str_lt id standing) then id else standing)
      rest

unfoldable pub apply_actor_removed : State → String → Outcome
apply_actor_removed st actor_id =
    if not (is_some (get st.actors actor_id))
    then refuse unknown_actor st
    else let standing = standing_token actor_id "" st.tokens.entries in
      if not (standing == "")
      then refuse (still_has_token standing) st
      else done (record st {
        actors = delete st.actors actor_id;
        conditions = delete st.conditions actor_id;
      })
