-- ===== src/Gateway/Adjacent.antt =====
-- When a token stands beside a door.
use vtt_platform.Prelude.{
  ℕ, suc, ◌^◌, ◌<◌, String, ◌≡◌, refl, Bool, ◌&&◌, arith, leb, if◌then◌else◌, ◌==◌,
}
use vtt_platform.Prelude.Int.{pos, ltb_ℤ, leb_ℤ, ◌-ℤ◌, ◌-₃₂◌, wrap32_id, IsInt32}
use vtt_platform.Go.GoMap.{Map, get}
use vtt_platform.Contract.Event.{Actor}
use vtt_platform.Engine.State.{Token}
use vtt_platform.Gateway.Rules.{abs, reaches, controls_option}

-- The specification: at most one square apart.
abbrev pub near : ℕ → ℕ → Bool
near a b = leb a (suc b) && leb b (suc a)

difference_IsInt32 : (a b : ℕ) → a < 2 ^ 31 → b < 2 ^ 31 → IsInt32 (pos a -ℤ pos b)
unfolding ◌-ℤ◌
difference_IsInt32 a b h k = ground arith

negation_IsInt32 : (a b : ℕ) → a < 2 ^ 31 → b < 2 ^ 31 → IsInt32 (pos 0 -ℤ (pos a -ℤ pos b))
unfolding ◌-ℤ◌
negation_IsInt32 a b h k = ground arith

size_near :
    (a b : ℕ)
    → leb_ℤ
        (if ltb_ℤ (pos a -ℤ pos b) (pos 0) then pos 0 -ℤ (pos a -ℤ pos b) else pos a -ℤ pos b)
        (pos 1)
      ≡ near a b
unfolding ◌-ℤ◌
size_near a b = ground arith

abs-near : (a b : ℕ) → a < 2 ^ 31 → b < 2 ^ 31 → leb_ℤ (abs (pos a -₃₂ pos b)) (pos 1) ≡ near a b
unfolding abs
abs-near a b h k =
    rw
      (
        wrap32_id (pos a -ℤ pos b) (difference_IsInt32 a b h k),
        wrap32_id (pos 0 -ℤ (pos a -ℤ pos b)) (negation_IsInt32 a b h k),
      )
      (size_near a b)

-- For squares whose coordinates are not negative and within int32, the test of the loop in
-- mayWorkDoor holds of a token exactly when it stands in the door's scene, its actor is the
-- participant's, and it is at most one square away along either axis.
pub reaches-near :
    (pid : String) (actors : Map Actor) (scene_id : String) (tok : Token) (a b u v : ℕ)
    → tok.x ≡ pos a
    → tok.y ≡ pos b
    → (a < 2 ^ 31) × (b < 2 ^ 31) × (u < 2 ^ 31) × (v < 2 ^ 31)
    → reaches pid actors scene_id (pos u) (pos v) tok ≡ (
        tok.scene_id == scene_id
        && controls_option (get actors tok.actor_id) pid
        && near a u
        && near b v)
unfolding reaches
reaches-near pid actors scene_id tok a b u v ex ey (ha, hb, hu, hv) =
    rw (ex, ey, abs-near a u ha hu, abs-near b v hb hv) refl
