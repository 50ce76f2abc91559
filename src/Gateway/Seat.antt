-- ===== src/Gateway/Seat.antt =====
-- internal/gateway/seat.go: which character's log a connection is sent. The campaign is read at its
-- wakes alone: a run of `watch` is given what each pass of its loop finds. The subscription's
-- channel, its buffer and its time-out are left out.
use vtt_platform.Prelude.{
  String, Bool, true, false, not, ◌&&◌, Option, none, some, ◌==◌, is_some, if◌then◌else◌,
}
use vtt_platform.Prelude.Int.{ℤ, pos}
use vtt_platform.Contract.Event.{Actor}
use vtt_platform.Go.GoMap.{Map, get}
use vtt_platform.Identity.{Role, Participant, dm, agent, role_text}
use vtt_platform.Gateway.Viewpoint.{
  own_party_member, may_watch, default_viewpoint, WatchableChanged, watchable,
}

unfoldable pub watches_a_log : Role → Bool
watches_a_log dm = false
watches_a_log agent = false
watches_a_log _ = true

-- `subscribed` is the log and the cursor of the subscription that is held.
pub record Seat : Type 0 where
  pub participant : Participant
  pub shown : String
  pub judged_as : Role
  pub watchable_now : Option WatchableChanged
  pub told : Option String
  pub subscribed : Option (String × ℤ)

-- What the passes of the loop of `watch` find: what SubscribeCharacter answers (the head of the log,
-- or no answer for an error), and then no wake, the end of the wakes, or a wake and the actors after
-- it. Appends stop at some pass.
pub data Passes : Type 0 where
  quiet ended : Option ℤ → Passes
  woken : Option ℤ → Map Actor → Passes → Passes

pub data Watched : Type 0 where
  watching : ℤ → Watched
  not_subscribed watch_ended : Watched

unfoldable pub drop : Seat → Seat
drop s = record s { subscribed = none }

unfoldable pub resolve : Seat → Map Actor → Seat × String
unfolding watchable may_watch default_viewpoint
resolve s actors = (
  record s { watchable_now = some (watchable s.participant actors) },
  if not (s.shown == "") && not (is_some (may_watch s.participant s.shown actors))
      then s.shown
      else default_viewpoint s.participant actors,
)

-- The body of the loop up to its select.
unfoldable pub turn_to : Seat → String → Seat
unfolding drop
turn_to s actor_id = record (drop s) {
  shown = actor_id;
  judged_as = s.participant.role;
  told = some actor_id;
}

unfoldable pub subscribe : Seat → String → ℤ → Option ℤ → Seat × Option ℤ
subscribe s actor_id cursor answer = if actor_id == "" then (s, some (pos 0)) else elim answer [
  | none ↦ (s, none)
  | some head ↦ (record s { subscribed = some (actor_id, cursor) }, some head)
]

abbrev pub at_rest : Seat × Option ℤ → Watched → Seat × Watched
at_rest (s, none) w = (s, not_subscribed)
at_rest (s, some head) w = (s, w)

abbrev pub head_or : Option ℤ → ℤ
head_or none = pos 0
head_or (some head) = head

abbrev pub on_wake :
    Seat × Option ℤ → String → Map Actor → (Seat → String → Seat × Watched) → Seat × Watched
on_wake (s, none) actor_id actors next = (s, not_subscribed)
on_wake (s, some head) actor_id actors next =
    let (s', target) = resolve s actors in
    let moved = next s' target in if target == actor_id then (s', watching head) else moved

unfoldable pub watch : Seat → String → ℤ → Passes → Seat × Watched
unfolding turn_to subscribe resolve
watch s actor_id cursor (quiet answer) =
    let opened = subscribe (turn_to s actor_id) actor_id cursor answer in
    at_rest opened (watching (head_or opened.1))
watch s actor_id cursor (ended answer) =
    at_rest (subscribe (turn_to s actor_id) actor_id cursor answer) watch_ended
watch s actor_id cursor (woken answer actors rest) =
    on_wake (subscribe (turn_to s actor_id) actor_id cursor answer) actor_id actors
      (λ s' target. watch s' target (pos 0) rest)

-- Whether the seat moved, and what its watch came to if it did.
pub data Rechecked : Type 0 where
  stayed : Rechecked
  moved : Watched → Rechecked

unfoldable pub recheck : Seat → Map Actor → Passes → Seat × Rechecked
unfolding resolve watch
recheck s actors passes =
    let (s', next) = resolve (record s { judged_as = s.participant.role }) actors in
    let (s'', w) = watch s' next (pos 0) passes in
    if next == s.shown then (s', stayed) else (s'', moved w)

unfoldable pub rejudge : Seat → Map Actor → Passes → Seat × Rechecked
unfolding recheck
rejudge s actors passes =
    let rechecked = recheck s actors passes in
    if role_text s.participant.role == role_text s.judged_as then (s, stayed) else rechecked

-- What `admit` finds waiting: no wake, the end of the wakes, or a wake and the actors after it.
pub data Waiting : Type 0 where
  no_wake wakes_ended : Waiting
  a_wake : Map Actor → Passes → Waiting

-- send, moved and whether there is an error.
pub record Admitted : Type 0 where
  pub send : Bool
  pub moved_on : Bool
  pub failed : Bool

abbrev pub admitted : Rechecked → Admitted
admitted stayed = record { send = true; moved_on = false; failed = false }
admitted (moved (watching head)) = record { send = false; moved_on = true; failed = false }
admitted (moved w) = record { send = false; moved_on = true; failed = true }

unfoldable pub admit : Seat → Waiting → Seat × Admitted
unfolding recheck
admit s no_wake = (s, record { send = true; moved_on = false; failed = false })
admit s wakes_ended = (s, record { send = false; moved_on = false; failed = true })
admit s (a_wake actors passes) = let (s', r) = recheck s actors passes in (s', admitted r)

abbrev told_or_empty : Option String → String
told_or_empty none = ""
told_or_empty (some id) = id

unfoldable pub judged_by : Seat → Participant → Map Actor → String
unfolding own_party_member default_viewpoint
judged_by s p actors =
    if not (own_party_member (get actors (told_or_empty s.told)) p.id)
    then default_viewpoint p actors
    else told_or_empty s.told
