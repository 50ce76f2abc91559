-- ===== src/Gateway/Seating.antt =====
-- What a seat of internal/gateway/seat.go shows.
use vtt_platform.Prelude.{
  String, ◌≡◌, ◌⊎◌, inl, inr, refl, sym, ap, subst, ◌∙◌, Bool, true, not, ◌&&◌, Option, none, some,
  List, [], ◌∷◌, ◌==◌, is_some, arith, eq_iff, eq_refl, Bool-cases, Option-cases,
}
use vtt_platform.Prelude.Int.{ℤ, pos}
use vtt_platform.Contract.Event.{Actor}
use vtt_platform.Go.GoMap.{Map, get, lookup, UniqueKeys}
use vtt_platform.Go.Sort.{has_key, sort_by, has_key-sort_by}
use vtt_platform.Identity.{Role, Participant, dm, agent, player, spectator}
use vtt_platform.Gateway.Viewpoint.{
  own_party_member, may_watch, may_watch_as, default_viewpoint, first_or_empty, own_ids, by_itself,
  controls_a_party_member,
}
use vtt_platform.Gateway.Watching.{own_ids_lem}
use vtt_platform.Gateway.Seat.{
  Seat, Passes, quiet, ended, woken, Watched, watching, not_subscribed, watch_ended, resolve,
  turn_to, subscribe, at_rest, on_wake, watch, a_wake, admit, recheck, admitted, moved,
}

-- The first of the ids is empty or is that of a party member.
first_own :
    (pid : String) (l : List (String × Actor)) (xs : List String)
    → UniqueKeys l
    → ((k : String) → has_key by_itself k xs ≡ has_key by_itself k (own_ids pid l))
    → (first_or_empty xs ≡ "") ⊎ (own_party_member (lookup (first_or_empty xs) l) pid ≡ true)
first_own pid l [] u h = inl refl
first_own pid l (x ∷ xs) u h = inr (sym (own_ids_lem pid x l u) ∙ sym (h x) ∙ rw (eq_refl x) refl)

own_watched :
    (own_only : Bool) (pid id : String) (actors : Map Actor)
    → own_party_member (get actors id) pid ≡ true
    → (id ≡ "") ⊎ (may_watch_as own_only pid id actors ≡ none)
unfolding may_watch_as own_party_member
own_watched own_only pid id actors h = elim (Bool-cases (id == "")) [
  | inl e ↦ inl ((eq_iff id "").0 e)
  | inr e ↦ inr (ground (arith, e, h))
]

-- The log is none, or one that MayWatch lets the participant watch.
pub MayShow : Participant → Map Actor → String → Type 0
MayShow p actors id = (id ≡ "") ⊎ (may_watch p id actors ≡ none)

default-MayShow :
    (r : Role) (pid name : String) (actors : Map Actor)
    → UniqueKeys actors.entries
    → MayShow
        (record { id = pid; name = name; role = r })
        actors
        (default_viewpoint (record { id = pid; name = name; role = r }) actors)
unfolding MayShow default_viewpoint may_watch get
default-MayShow dm pid name actors u = inl refl
default-MayShow agent pid name actors u = inl refl
default-MayShow spectator pid name actors u = inl refl
default-MayShow player pid name actors u =
    elim (first_own pid actors.entries (sort_by by_itself (own_ids pid actors.entries)) u
      (λ k. has_key-sort_by by_itself k (own_ids pid actors.entries))) [
        | inl e ↦ inl e
        | inr o ↦ own_watched (controls_a_party_member pid actors) pid _ actors o
      ]

kept-MayShow :
    (p : Participant) (actors : Map Actor) (id : String)
    → (not (id == "") && not (is_some (may_watch p id actors))) ≡ true
    → MayShow p actors id
unfolding MayShow
kept-MayShow p actors id e = inr (ground (arith, e))

resolve-MayShow :
    (s : Seat) (actors : Map Actor)
    → UniqueKeys actors.entries
    → MayShow s.participant actors (resolve s actors).1
unfolding resolve
resolve-MayShow s actors u =
    elim (Bool-cases
      (not (s.shown == "") && not (is_some (may_watch s.participant s.shown actors)))) [
        | inl e ↦ rw e (kept-MayShow s.participant actors s.shown e)
        | inr e ↦
            rw e (default-MayShow s.participant.role s.participant.id s.participant.name actors u)
      ]

-- A seat at rest: it has said what it shows, it was judged by the role its participant has, and it
-- holds a subscription to the log that it shows, or none when it shows none.
pub record IsSettled (s : Seat) : Type 0 where
  pub said : s.told ≡ some s.shown
  pub judged : s.judged_as ≡ s.participant.role
  pub held : is_some s.subscribed ≡ not (s.shown == "")
  pub own_log : (id : String) (cursor : ℤ) → s.subscribed ≡ some (id, cursor) → id ≡ s.shown

-- What a watch that succeeds leaves satisfies `P`.
pub data Leaves (P : Seat → Type 0) : Seat × Watched → Type 0 where
  leaves : {s : Seat} {head : ℤ} → P s → Leaves P (s, watching head)
  fails : {s : Seat} → Leaves P (s, not_subscribed)
  ends : {s : Seat} → Leaves P (s, watch_ended)

data Opened (P : Seat → Type 0) : Seat × Option ℤ → Type 0 where
  opened : {s : Seat} {head : ℤ} → P s → Opened P (s, some head)
  unopened : {s : Seat} → Opened P (s, none)

abbrev log_or_empty : Option (String × ℤ) → String
log_or_empty none = ""
log_or_empty (some (id, _)) = id

subscribe-IsSettled :
    (s : Seat) (id : String) (cursor : ℤ) (answer : Option ℤ)
    → Opened IsSettled (subscribe (turn_to s id) id cursor answer)
unfolding subscribe turn_to
subscribe-IsSettled s id cursor answer = elim (Bool-cases (id == "")) [
  | inl e ↦ rw e (
      opened
        (record { said = refl; judged = refl; held = ground (arith, e); own_log = λ i c q. cc }))
  | inr e ↦ elim (Option-cases answer) [
    | inl a ↦ rw (e, a) unopened
    | inr (h, a) ↦
        rw (e, a)
          (opened (record {
            said = refl;
            judged = refl;
            held = ground (arith, e);
            own_log = λ i c q. ap log_or_empty (sym q);
          }))
  ]
]

resolve-IsSettled : (s : Seat) (actors : Map Actor) → IsSettled s → IsSettled (resolve s actors).0
unfolding resolve
resolve-IsSettled s actors h = record {
  said = h.said;
  judged = h.judged;
  held = h.held;
  own_log = h.own_log;
}

at_rest-watching :
    {P : Seat → Type 0} {o : Seat × Option ℤ} (head : ℤ)
    → Opened P o
    → Leaves P (at_rest o (watching head))
at_rest-watching head (opened h) = leaves h
at_rest-watching head unopened = fails

at_rest-ended :
    {P : Seat → Type 0} {o : Seat × Option ℤ} → Opened P o → Leaves P (at_rest o watch_ended)
at_rest-ended (opened h) = ends
at_rest-ended unopened = fails

on_wake-IsSettled :
    {o : Seat × Option ℤ} (id : String) (actors : Map Actor) (next : Seat → String → Seat × Watched)
    → Opened IsSettled o
    → ((s : Seat) (target : String) → Leaves IsSettled (next s target))
    → Leaves IsSettled (on_wake o id actors next)
on_wake-IsSettled id actors next unopened k = fails
on_wake-IsSettled id actors next (opened {s} h) k = elim (Bool-cases ((resolve s actors).1 == id)) [
  | inl e ↦ rw e (leaves (resolve-IsSettled s actors h))
  | inr e ↦ rw e (k (resolve s actors).0 (resolve s actors).1)
]

-- However often a wake moves it on, a watch that succeeds leaves the seat at rest: what it was told
-- to show is what it shows, it was judged by the role of its participant, and the subscription that
-- it holds is to the log that it shows.
pub watch-IsSettled :
    (s : Seat) (id : String) (cursor : ℤ) (passes : Passes)
    → Leaves IsSettled (watch s id cursor passes)
unfolding watch
watch-IsSettled s id cursor (quiet answer) =
    at_rest-watching _ (subscribe-IsSettled s id cursor answer)
watch-IsSettled s id cursor (ended answer) = at_rest-ended (subscribe-IsSettled s id cursor answer)
watch-IsSettled s id cursor (woken answer actors rest) =
    on_wake-IsSettled id actors (λ t target. watch t target (pos 0) rest)
      (subscribe-IsSettled s id cursor answer) (λ t target. watch-IsSettled t target (pos 0) rest)

resolve_shown : (s : Seat) (actors : Map Actor) → (resolve s actors).0.shown ≡ s.shown
unfolding resolve
resolve_shown s actors = refl

unsent : (w : Watched) → (admitted (moved w)).send ≡ true → ⊥
unsent (watching head) h = cc
unsent not_subscribed h = cc
unsent watch_ended h = cc

-- When the ids of the actors are distinct: an entry that is sent although a wake was waiting is
-- sent by a seat that has not moved, and its log is one that MayWatch lets the participant watch
-- under the actors after the wake, or none.
pub admit-MayShow :
    (s : Seat) (actors : Map Actor) (passes : Passes)
    → UniqueKeys actors.entries
    → (admit s (a_wake actors passes)).1.send ≡ true
    → ((admit s (a_wake actors passes)).0.shown ≡ s.shown) × MayShow s.participant actors s.shown
unfolding admit recheck
admit-MayShow s actors passes u h =
    elim (Bool-cases
      ((resolve (record s { judged_as = s.participant.role }) actors).1 == s.shown)) [
        | inl e ↦ rw e (
          resolve_shown (record s { judged_as = s.participant.role }) actors,
          subst (MayShow s.participant actors) ((eq_iff _ s.shown).0 e)
              (resolve-MayShow (record s { judged_as = s.participant.role }) actors u),
        )
        | inr e ↦ absurd (unsent _ (rw e at h))
      ]
