-- ===== src/Tests/Seats.antt =====
-- The theorems on seats at concrete inputs.
use vtt_platform.Prelude.{◌≡◌, refl, none, some}
use vtt_platform.Prelude.Int.{pos}
use vtt_platform.Go.GoMap.{get, lookup}
use vtt_platform.Identity.{player}
use vtt_platform.Engine.Terrain.{is_party_member}
use vtt_platform.Gateway.Viewpoint.{
  may_watch, may_watch_in, may_watch_as, controls_a_party_member, any_own, own_party_member,
  controls,
}
use vtt_platform.Gateway.Seat.{Seat, Passes, quiet, woken, watch, a_wake, admit, recheck, resolve}
use vtt_platform.Gateway.Seating.{IsSettled, Leaves, watch-IsSettled, MayShow, admit-MayShow}
use vtt_platform.Tests.Data.{table, ann}

abbrev on_hero : Seat
on_hero = record {
  participant = ann;
  shown = "hero";
  judged_as = player;
  watchable_now = none;
  told = some "hero";
  subscribed = some ("hero", pos 4);
}

abbrev one_wake : Passes
one_wake = woken (some (pos 3)) table.actors (quiet (some (pos 5)))

watch-IsSettled_example : Leaves IsSettled (watch on_hero "goblin" (pos 0) one_wake)
watch-IsSettled_example = watch-IsSettled on_hero "goblin" (pos 0) one_wake

admit-MayShow_example :
    ((admit on_hero (a_wake table.actors (quiet none))).0.shown ≡ "hero")
    × MayShow ann table.actors "hero"
unfolding admit recheck resolve may_watch may_watch_in may_watch_as controls_a_party_member any_own
    own_party_member controls is_party_member get lookup
admit-MayShow_example = admit-MayShow on_hero table.actors (quiet none) (refl, (refl, tt)) refl
