-- ===== src/Rules/Accepted.antt =====
-- Events that the engine accepts one after the other, and a resolution in step with the engine.
use vtt_platform.Prelude.{
  ◌≡◌, String, Bool, true, ◌&&◌, none, some, List, [], ◌∷◌, ◌++◌, ◌==◌, eq_iff, is_some, arith,
  if◌then◌else◌,
}
use vtt_platform.Prelude.Int.{ℤ, IsInt32}
use vtt_platform.Go.GoMap.{get, put, get-put, get-empty}
use vtt_platform.Contract.Event.{Envelope, Payload, Actor, Resource}
use vtt_platform.Engine.State.{State, conditions_of, or_empty}
use vtt_platform.Engine.Apply.Pools.{with_resource, has_condition}
use vtt_platform.Engine.Apply.Dispatch.{apply}
use vtt_platform.Engine.Invariant.Conditions.{AreDistinct}
use vtt_platform.Rules.Running.{
  ResolveState, resource_of, current_resource, apply_delta, holds_condition, set_condition,
}

-- The engine accepts the payloads in order, however they are stamped, and ends in a state with `Q`.
abbrev pub Accepts : List Payload → (State → Type 0) → State → Type 0
Accepts [] Q s = Q s
Accepts (p ∷ rest) Q s =
    (env : Envelope) → env.payload ≡ p → ((apply s env).0 ≡ none) × Accepts rest Q (apply s env).1

pub Accepts-append :
    (ps qs : List Payload) (P Q : State → Type 0) (s : State)
    → Accepts ps P s
    → ((t : State) → P t → Accepts qs Q t)
    → Accepts (ps ++ qs) Q s
Accepts-append [] qs P Q s h k = k s h
Accepts-append (p ∷ ps) qs P Q s h k =
    λ env e. ((h env e).0, Accepts-append ps qs P Q (apply s env).1 (h env e).1 k)

module _ (st : State) where
  -- The engine's state holds what the resolution has computed.
  pub record InStep (r : ResolveState) (s : State) : Type 0 where
    pub held : (a : String) → is_some (get st.actors a) ≡ true → is_some (get s.actors a) ≡ true
    pub resources :
        (a n : String) (res : Resource)
        → resource_of st a n ≡ some res
        → (resource_of s a n ≡ some (record { current = current_resource st r a n; max = res.max }))
          × IsInt32 (current_resource st r a n)
    pub conditions : (a c : String) → has_condition c (conditions_of s a) ≡ holds_condition st r a c
    pub distinct : (a : String) → AreDistinct (conditions_of s a)

pub resource_of-put :
    (s : State) (a n : String) (actor : Actor) (res : Resource) (v : ℤ) (b m : String)
    → get s.actors a ≡ some actor
    → resource_of (record s { actors = put s.actors a (with_resource actor n res v) }) b m ≡ (
        if a == b && n == m
        then some (record { current = v; max = res.max })
        else resource_of s b m)
unfolding resource_of with_resource
resource_of-put s a n actor res v b m h = ground (
  arith,
  get-put s.actors a b (with_resource actor n res v),
  get-put actor.resources n m (record { current = v; max = res.max }),
  eq_iff a b,
)

pub current_resource-apply_delta :
    (st : State) (r : ResolveState) (a n : String) (d : ℤ) (b m : String)
    → current_resource st (apply_delta st r a n d).1 b m
      ≡ (if a == b && n == m then (apply_delta st r a n d).0 else current_resource st r b m)
unfolding apply_delta
current_resource-apply_delta st r a n d b m = ground arith

pub holds_condition-set_condition :
    (st : State) (r : ResolveState) (a c : String) (v : Bool) (b d : String)
    → holds_condition st (set_condition r a c v) b d
      ≡ (if a == b && c == d then v else holds_condition st r b d)
unfolding holds_condition set_condition
holds_condition-set_condition st r a c v b d = ground (
  arith,
  get-put r.condition_overrides a b (put (or_empty (get r.condition_overrides a)) c v),
  get-put (or_empty (get r.condition_overrides a)) c d v,
  get-put (or_empty (get r.condition_overrides b)) c d v,
  eq_iff a b,
  get-empty {V = Bool} d,
)
