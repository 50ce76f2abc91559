-- ===== src/Gateway/Watching.antt =====
-- Whose log a connection may watch.
use vtt_platform.Prelude.{
  String, ◌≡◌, ◌≢◌, ◌⊎◌, refl, sym, ◌∙◌, Bool, true, false, not, ◌&&◌, none, some, List, [], ◌∷◌,
  arith, is_some, eq_iff, eq_refl, All,
}
use vtt_platform.Contract.Event.{Actor}
use vtt_platform.Go.GoMap.{Map, get, lookup, UniqueKeys}
use vtt_platform.Go.Text.{str_lt, str_lt_irrefl}
use vtt_platform.Go.Sort.{sort_by, sort_by-IsSortedBy, has_key-sort_by, IsSortedBy, has_key}
use vtt_platform.Identity.{Participant, player}
use vtt_platform.Gateway.Denial.{not_watchable}
use vtt_platform.Gateway.Viewpoint.{
  own_party_member, own_ids, first_or_empty, default_viewpoint, watchable, watched, actor_key,
  may_watch, by_itself, may_watch_as,
}

pub own_ids_lem :
    (pid k : String) (l : List (String × Actor))
    → UniqueKeys l
    → has_key by_itself k (own_ids pid l) ≡ own_party_member (lookup k l) pid
unfolding own_ids lookup own_party_member
own_ids_lem pid k [] u = refl
own_ids_lem pid k ((j, a) ∷ l) u = ground (arith, own_ids_lem pid k l u.1, eq_iff j k)

sorted_below :
    (id x : String) (xs : List String)
    → All (λ b. str_lt b x ≡ false) xs
    → has_key by_itself id xs ≡ true
    → str_lt id x ≡ false
sorted_below id x [] a h = cc
sorted_below id x (y ∷ ys) a h = ground (arith, sorted_below id x ys a.1, eq_iff y id)

first_least :
    (id : String) (l : List String)
    → IsSortedBy by_itself l
    → has_key by_itself id l ≡ true
    → (has_key by_itself (first_or_empty l) l ≡ true) × (str_lt id (first_or_empty l) ≡ false)
first_least id [] s h = cc
first_least id (x ∷ xs) s h =
    ground (arith, eq_refl x, sorted_below id x xs s.0, eq_iff x id, str_lt_irrefl x)

least_own :
    (pid id : String) (l : List (String × Actor))
    → UniqueKeys l
    → own_party_member (lookup id l) pid ≡ true
    → (own_party_member (lookup (first_or_empty (sort_by by_itself (own_ids pid l))) l) pid ≡ true)
      × (str_lt id (first_or_empty (sort_by by_itself (own_ids pid l))) ≡ false)
least_own pid id l u h =
    let xs = sort_by by_itself (own_ids pid l) in
    let m =
      first_least id xs (sort_by-IsSortedBy by_itself (own_ids pid l))
        (has_key-sort_by by_itself id (own_ids pid l) ∙ own_ids_lem pid id l u ∙ h) in
    (
      sym (own_ids_lem pid (first_or_empty xs) l u)
          ∙ sym (has_key-sort_by by_itself (first_or_empty xs) (own_ids pid l))
          ∙ m.0,
      m.1,
    )

-- When the ids of the actors are distinct and a player controls the party member of some id, the
-- player's default viewpoint is a party member the player controls, and no id of such a party
-- member is less than it.
pub default_viewpoint_least :
    (p : Participant) (actors : Map Actor) (id : String)
    → p.role ≡ player
    → UniqueKeys actors.entries
    → own_party_member (get actors id) p.id ≡ true
    → (own_party_member (get actors (default_viewpoint p actors)) p.id ≡ true)
      × (str_lt id (default_viewpoint p actors) ≡ false)
unfolding default_viewpoint get
default_viewpoint_least p actors id r u h = rw r (least_own p.id id actors.entries u h)

watched_lem :
    (p : Participant) (actors : Map Actor) (k : String) (l : List (String × Actor))
    → UniqueKeys l
    → has_key actor_key k (watched p actors l)
      ≡ (is_some (lookup k l) && not (is_some (may_watch p k actors)))
unfolding watched lookup
watched_lem p actors k [] u = refl
watched_lem p actors k ((j, a) ∷ l) u = ground (arith, watched_lem p actors k l u.1, eq_iff j k)

-- When the ids of the actors are distinct, the list of watchable actors that a participant is sent
-- is in id order, and an id is on it exactly when an actor has it and MayWatch lets the participant
-- watch it.
pub watchable_exact :
    (p : Participant) (actors : Map Actor) (id : String)
    → UniqueKeys actors.entries
    → IsSortedBy actor_key (watchable p actors).actors
      × (has_key actor_key id (watchable p actors).actors
          ≡ (is_some (get actors id) && not (is_some (may_watch p id actors))))
unfolding watchable get
watchable_exact p actors id u = (
  sort_by-IsSortedBy actor_key (watched p actors actors.entries),
  has_key-sort_by actor_key id (watched p actors actors.entries)
      ∙ watched_lem p actors id actors.entries u,
)

-- Whatever actor is named, the checks of MayWatch below its switch on the role let it be watched
-- or refuse with the one message that says the actor is not watchable.
pub may_watch_uniform :
    (own_only : Bool) (pid id : String) (actors : Map Actor)
    → id ≢ ""
    → (may_watch_as own_only pid id actors ≡ none)
      ⊎ (may_watch_as own_only pid id actors ≡ some (not_watchable id))
unfolding may_watch_as
may_watch_uniform own_only pid id actors ne = ground (arith, eq_iff id "")
