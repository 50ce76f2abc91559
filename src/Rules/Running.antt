-- ===== src/Rules/Running.antt =====
-- resolveState of internal/rules/resolve.go: the values that a resolution has changed so far, over a
-- state that it does not touch.
use vtt_platform.Prelude.{
  String, Bool, ◌&&◌, Option, none, some, List, [], ◌∷◌, ◌++◌, ◌==◌, is_some, if◌then◌else◌,
}
use vtt_platform.Prelude.Int.{ℤ, pos, ltb_ℤ, ◌+ℤ◌}
use vtt_platform.Go.GoMap.{Map, empty, get, put}
use vtt_platform.Contract.Event.{Resource}
use vtt_platform.Engine.State.{State, or_empty, conditions_of}
use vtt_platform.Engine.Apply.Pools.{has_condition}
use vtt_platform.Rules.Int64.{wrap64}
use vtt_platform.Rules.Eval.{EvalContext}

pub record ResKey : Type 0 where
  pub actor : String
  pub resource : String

abbrev pub same_key : ResKey → ResKey → Bool
same_key a b = a.actor == b.actor && a.resource == b.resource

-- `running` holds the newest value of a key first.
pub record ResolveState : Type 0 where
  pub running : List (ResKey × ℤ)
  pub changed_order : List ResKey
  pub condition_overrides : Map (Map Bool)

abbrev pub start : ResolveState
start = record { running = []; changed_order = []; condition_overrides = empty }

unfoldable pub find_running : ResKey → List (ResKey × ℤ) → Option ℤ
find_running key [] = none
find_running key ((k, v) ∷ rest) = if same_key k key then some v else find_running key rest

-- st.Actors[actorID].GetResources()[name]
unfoldable pub resource_of : State → String → String → Option Resource
resource_of st actor_id name = elim (get st.actors actor_id) [
  | none ↦ none
  | some actor ↦ get actor.resources name
]

abbrev pub current_of : Option Resource → ℤ
current_of none = pos 0
current_of (some res) = res.current

abbrev pub max_of : Option Resource → ℤ
max_of none = pos 0
max_of (some res) = res.max

abbrev pub or_value : Option ℤ → ℤ → ℤ
or_value none v = v
or_value (some w) v = w

-- The clamp: not below 0, and not above a positive maximum.
unfoldable pub clamp : ℤ → ℤ → ℤ
clamp upper value =
    let floored = if ltb_ℤ value (pos 0) then pos 0 else value in
    if ltb_ℤ (pos 0) upper && ltb_ℤ upper floored then upper else floored

module _ (st : State) where
  unfoldable pub current_resource : ResolveState → String → String → ℤ
  unfolding find_running resource_of
  current_resource r actor_id name =
      or_value (find_running (record { actor = actor_id; resource = name }) r.running)
        (current_of (resource_of st actor_id name))

  unfoldable pub apply_delta : ResolveState → String → String → ℤ → ℤ × ResolveState
  unfolding current_resource clamp resource_of find_running wrap64
  apply_delta r actor_id name delta =
      let key : ResKey = record { actor = actor_id; resource = name } in
      let value =
        clamp (max_of (resource_of st actor_id name))
          (wrap64 (current_resource r actor_id name +ℤ delta)) in
      (
        value,
        record r {
          running = (key, value) ∷ r.running;
          changed_order =
              if is_some (find_running key r.running)
              then r.changed_order
              else r.changed_order ++ key ∷ [];
        },
      )

  unfoldable pub attributes_of : String → Map ℤ
  attributes_of actor_id = elim (get st.actors actor_id) [
    | none ↦ empty
    | some actor ↦ actor.attributes
  ]

  unfoldable pub current_values :
      ResolveState → String → List (String × Resource) → List (String × ℤ)
  unfolding current_resource
  current_values r actor_id [] = []
  current_values r actor_id ((name, res) ∷ rest) =
      (name, current_resource r actor_id name) ∷ current_values r actor_id rest

  unfoldable pub resources_of : ResolveState → String → Map ℤ
  unfolding current_values
  resources_of r actor_id = elim (get st.actors actor_id) [
    | none ↦ empty
    | some actor ↦ record { entries = current_values r actor_id actor.resources.entries }
  ]

  unfoldable pub context_of : ResolveState → String → EvalContext
  unfolding attributes_of resources_of
  context_of r actor_id = record {
    attrs = attributes_of actor_id;
    resources = resources_of r actor_id;
  }

  abbrev pub or_present : Option Bool → Bool → Bool
  or_present none b = b
  or_present (some c) b = c

  unfoldable pub holds_condition : ResolveState → String → String → Bool
  unfolding conditions_of has_condition
  holds_condition r actor_id id =
      or_present (get (or_empty (get r.condition_overrides actor_id)) id)
        (has_condition id (conditions_of st actor_id))

unfoldable pub set_condition : ResolveState → String → String → Bool → ResolveState
set_condition r actor_id id present = record r {
  condition_overrides =
      put r.condition_overrides actor_id
        (put (or_empty (get r.condition_overrides actor_id)) id present);
}
