-- ===== src/Store/Subscriber.antt =====
-- internal/store/subscribe.go: a subscriber's queue, and the pump that hands its events on. The
-- locks are left out: each function runs under one. `wake` carries no event and is left out too.
use vtt_platform.Prelude.{
  Bool, true, false, ◌||◌, ◌≡◌, Option, none, some, List, [], ◌∷◌, ◌++◌, if◌then◌else◌,
}
use vtt_platform.Prelude.Int.{ℤ, pos, leb_ℤ, ltb_ℤ, eq_ℤ}
use vtt_platform.Contract.Event.{Envelope}

pub record Subscriber : Type 0 where
  pub pending : List Envelope
  pub last_seq : ℤ
  pub closed : Bool

unfoldable pub enqueue : Subscriber → Envelope → Subscriber
enqueue sub env =
    if sub.closed || leb_ℤ env.sequence sub.last_seq
    then sub
    else record sub { pending = sub.pending ++ env ∷ []; last_seq = env.sequence }

pub data Next : Type 0 where
  nothing : Next
  next_is : Envelope → Subscriber → Next

abbrev pub next_of : Subscriber → List Envelope → Next
next_of sub [] = nothing
next_of sub (env ∷ rest) = next_is env (record sub { pending = rest })

unfoldable pub next : Subscriber → Next
next sub = if sub.closed then nothing else next_of sub sub.pending

unfoldable pub mark_stopped : Subscriber → Subscriber
mark_stopped sub = record sub { closed = true; pending = [] }

unfoldable pub last_of : ℤ → List Envelope → ℤ
last_of after [] = after
last_of after (env ∷ rest) = last_of env.sequence rest

-- startSubscriber: `none` is an error. `read` is the log's part above a sequence, or an error.
unfoldable pub start_subscriber : ℤ → ℤ → (ℤ → Option (List Envelope)) → Option Subscriber
unfolding last_of
start_subscriber after_seq buffer read =
    if ltb_ℤ buffer (pos 0) then none else elim (read after_seq) [
      | none ↦ none
      | some history ↦
          some (record { pending = history; last_seq = last_of after_seq history; closed = false })
    ]

abbrev enqueue_each : Envelope → List Subscriber → List Subscriber
enqueue_each env [] = []
enqueue_each env (sub ∷ rest) = enqueue sub env ∷ enqueue_each env rest

-- live := subs[:0], then every subscriber that is not closed.
unfoldable pub live_of : List Subscriber → List Subscriber
live_of [] = []
live_of (sub ∷ rest) = let live = live_of rest in if sub.closed then live else sub ∷ live

unfoldable pub enqueue_all : List Subscriber → Envelope → List Subscriber
unfolding enqueue live_of
enqueue_all subs env = if eq_ℤ env.sequence (pos 0) then subs else live_of (enqueue_each env subs)

-- A subscriber beside its pump: the event that the pump holds, those it sent, and whether it
-- returned and so closed the channel.
pub record Feed : Type 0 where
  pub sub : Subscriber
  pub held : Option Envelope
  pub sent : List Envelope
  pub finished : Bool

abbrev pub started : Subscriber → Feed
started s = record { sub = s; held = none; sent = []; finished = false }

-- One step of the store or of the pump. Where several cases of a `select` are ready, Go takes any.
pub data Step : Feed → Feed → Type 0 where
  stopped : (f : Feed) → Step f (record f { sub = mark_stopped f.sub })
  taken :
      (f : Feed) (env : Envelope) (sub' : Subscriber)
      → f.finished ≡ false
      → f.held ≡ none
      → next f.sub ≡ next_is env sub'
      → Step f (record f { sub = sub'; held = some env })
  handed_on :
      (f : Feed) (env : Envelope)
      → f.finished ≡ false
      → f.held ≡ some env
      → Step f (record f { held = none; sent = f.sent ++ env ∷ [] })
  ended : (f : Feed) → f.sub.closed ≡ true → Step f (record f { finished = true })
  timed_out :
      (f : Feed) (env : Envelope)
      → f.finished ≡ false
      → f.held ≡ some env
      → Step f (record f { sub = mark_stopped f.sub; finished = true })

-- A run, with the events that were offered on the way in the order of the offers.
pub data Runs (start : Feed) : List Envelope → Feed → Type 0 where
  starts : Runs start [] start
  offered :
      (offers : List Envelope) (f : Feed) (env : Envelope)
      → Runs start offers f
      → Runs start (offers ++ env ∷ []) (record f { sub = enqueue f.sub env })
  steps :
      (offers : List Envelope) (f g : Feed) → Runs start offers f → Step f g → Runs start offers g
