-- ===== src/Tests/Log.antt =====
-- The theorems on the log and on the campaign at concrete inputs.
use vtt_platform.Prelude.{ℕ, String, ◌≡◌, ◌≢◌, refl, false, Option, none, some, List, [], ◌∷◌, ◌++◌}
use vtt_platform.Prelude.Int.{ℤ, pos}
use vtt_platform.Contract.Event.{Envelope, actor_added, session_started}
use vtt_platform.Engine.State.{new_state}
use vtt_platform.Store.Log.{head_of}
use vtt_platform.Store.Subscriber.{
  Subscriber, Feed, Runs, starts, offered, steps, taken, handed_on, started, enqueue, next,
  start_subscriber, last_of,
}
use vtt_platform.Store.Feeds.{IsAscending, feed_exact, feed-IsAscending, fresh, held_list}
use vtt_platform.Campaign.Append.{Campaign, append_envelopes, diverged}
use vtt_platform.Campaign.Agree.{IsReplay, append-IsReplay}
use vtt_platform.Campaign.Fold.{fold_from, fold_events}
use vtt_platform.Campaign.Reading.{IsReading, fold_events-IsReading}
use vtt_platform.Tests.Data.{event, recruit, rows_alone}

abbrev fresh_campaign : Campaign rows_alone
fresh_campaign = record { log = []; state = new_state; head = pos 0; poisoned = false }

fresh_campaign-IsReplay : IsReplay rows_alone fresh_campaign
unfolding head_of fold_from
fresh_campaign-IsReplay = record { folds = ([], refl); at_head = refl; sound = refl }

abbrev first_id : ℕ → Option String
first_id i = some "s1"

abbrev opening : List Envelope
opening = event (pos 0) (session_started "One") ∷ event (pos 0) (actor_added (some recruit)) ∷ []

append-IsReplay_example :
    IsReplay rows_alone (append_envelopes rows_alone first_id false fresh_campaign opening).campaign
    × ((append_envelopes rows_alone first_id false fresh_campaign opening).error ≢ some diverged)
append-IsReplay_example =
    append-IsReplay rows_alone fresh_campaign fresh_campaign-IsReplay first_id false opening

abbrev one : List Envelope
one = event (pos 1) (actor_added (some recruit)) ∷ []

fold_events-IsReading_example : IsReading new_state one (fold_events one)
fold_events-IsReading_example = fold_events-IsReading one

abbrev third : Envelope
third = event (pos 3) (session_started "Two")

abbrev queue : Subscriber
queue = record { pending = one; last_seq = pos 1; closed = false }

abbrev after_take : Feed
after_take = record {
  sub = record { pending = third ∷ []; last_seq = pos 3; closed = false };
  held = some (event (pos 1) (actor_added (some recruit)));
  sent = [];
  finished = false;
}

abbrev after_hand_on : Feed
after_hand_on = record {
  sub = record { pending = third ∷ []; last_seq = pos 3; closed = false };
  held = none;
  sent = event (pos 1) (actor_added (some recruit)) ∷ [];
  finished = false;
}

abbrev fed : Feed
fed = record {
  sub = record { pending = one ++ third ∷ []; last_seq = pos 3; closed = false };
  held = none;
  sent = [];
  finished = false;
}

-- The third event is offered, and the first is taken and handed on.
run : Runs (started queue) (third ∷ []) after_hand_on
unfolding enqueue next
run =
    steps (third ∷ []) after_take after_hand_on
      (steps (third ∷ []) fed after_take (offered [] (started queue) third starts)
        (taken fed (event (pos 1) (actor_added (some recruit))) after_take.sub refl refl refl))
      (handed_on after_take (event (pos 1) (actor_added (some recruit))) refl refl)

feed_exact_example :
    ((rest : List Envelope) × (after_hand_on.sent ++ rest ≡ one ++ fresh (pos 1) (third ∷ [])))
    × (after_hand_on.sub.closed ≡ false
        → after_hand_on.sent ++ (held_list after_hand_on.held ++ after_hand_on.sub.pending)
          ≡ one ++ fresh (pos 1) (third ∷ []))
feed_exact_example = feed_exact queue (third ∷ []) after_hand_on refl run

abbrev read_one : ℤ → Option (List Envelope)
read_one n = some one

feed-IsAscending_example : IsAscending (pos 0) after_hand_on.sent
unfolding start_subscriber last_of
feed-IsAscending_example =
    feed-IsAscending (pos 0) (pos 4) read_one one queue (third ∷ []) after_hand_on refl (refl, tt)
      refl run
