-- ===== src/Engine/Seen.antt =====
-- What a SceneSeen event leaves of the scene it is about.
use vtt_platform.Prelude.{
  String, ◌≡◌, refl, ◌∙◌, Bool, true, ◌||◌, some, List, [], ◌∷◌, arith, contains, is_some,
}
use vtt_platform.Contract.Event.{SceneSeen, TileRef}
use vtt_platform.Go.GoMap
use vtt_platform.Go.GoMap.{Map, get, put, get-put, get-empty, lookup}
use vtt_platform.Engine.State.{Scene, Tile, or_empty, flag}
use vtt_platform.Engine.Apply.Scenes.{tile_of}
use vtt_platform.Engine.Apply.Sight.{set_of, explore, remember_tiles, seen_scene}

flag-set_of :
    (m : Map Bool) (l : List String) (k : String)
    → flag (some (set_of m l)) k ≡ (contains l k || flag (some m) k)
unfolding set_of flag
flag-set_of m [] k = refl
flag-set_of m (x ∷ l) k = ground (arith, flag-set_of (put m x true) l k, get-put m x k true)

flag-explore :
    (m : Map Bool) (l : List (String × TileRef)) (k : String)
    → flag (some (explore m l)) k ≡ (is_some (lookup k l) || flag (some m) k)
unfolding explore flag lookup
flag-explore m [] k = refl
flag-explore m ((x, t) ∷ l) k = ground (arith, flag-explore (put m x true) l k, get-put m x k true)

tiles_remembered :
    (m : Map Tile) (l : List (String × TileRef)) (k : String)
    → is_some (get (remember_tiles m l) k) ≡ (is_some (lookup k l) || is_some (get m k))
unfolding remember_tiles lookup
tiles_remembered m [] k = refl
tiles_remembered m ((x, t) ∷ l) k =
    ground (arith, tiles_remembered (put m x (tile_of t)) l k, get-put m x k (tile_of t))

-- After a SceneSeen event the visible squares are exactly those it lists, the explored ones are
-- those that were before and those whose tiles it brings, and so are the squares with a tile.
pub seen_squares :
    (sc : Scene) (ss : SceneSeen) (k : String)
    → (flag (seen_scene sc ss).visible k ≡ contains ss.visible k)
      × (flag (seen_scene sc ss).explored k ≡ (is_some (get ss.tiles k) || flag sc.explored k))
      × (is_some (get (or_empty (seen_scene sc ss).tiles) k)
          ≡ (is_some (get ss.tiles k) || is_some (get (or_empty sc.tiles) k)))
unfolding seen_scene get
seen_squares sc ss k = (
  flag-set_of GoMap.empty ss.visible k ∙ unfold flag in ground (arith, get-empty {V = Bool} k),
  flag-explore (or_empty sc.explored) ss.tiles.entries k ∙ unfold flag in refl,
  tiles_remembered (or_empty sc.tiles) ss.tiles.entries k,
)
