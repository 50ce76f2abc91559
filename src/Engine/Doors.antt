-- ===== src/Engine/Doors.antt =====
-- What may be entered, and what doors change of it.
use vtt_platform.Prelude.{
  String, Bool, true, false, ◌||◌, ◌≡◌, ◌↔◌, ◌⊎◌, refl, sym, Option, none, some, List, [], ◌∷◌,
  ◌==◌, arith, if◌then◌else◌, Bool-cases, Option-cases, inl, inr, eq_iff, eq_refl, All,
}
use vtt_platform.Prelude.Int.{ℤ, pos, ltb_ℤ, leb_ℤ, ◌+₃₂◌}
use vtt_platform.Go.Format.{format_pair, format_pair_inj}
use vtt_platform.Go.GoMap.{Map, get, put, delete, get-put, get-delete}
use vtt_platform.Contract.Event.{GridPosition, DoorAt}
use vtt_platform.Engine.State.{State, Scene, SceneObject, Tile, or_empty, flag}
use vtt_platform.Engine.Terrain.{
  grid_key, covers, kind_at, blocking_object, blocked_in, blocked, a_closed_door,
}
use vtt_platform.Engine.Apply.Doors.{
  with_door_open, with_door_closed, apply_door_opened, apply_door_closed,
}

-- The square is outside the rectangle of `width` by `height` squares at the object's corner; the far
-- edges are int32 sums.
abbrev pub IsOff : SceneObject → ℤ → ℤ → Type 0
IsOff o x y =
    (ltb_ℤ x o.x ≡ true)
    ⊎ (leb_ℤ (o.x +₃₂ o.width) x ≡ true)
    ⊎ (ltb_ℤ y o.y ≡ true)
    ⊎ (leb_ℤ (o.y +₃₂ o.height) y ≡ true)

-- The specification of a square that a token may enter, in terms of the scene's own tables: a tile
-- and a door stand under the text of their column and row.
pub record CanEnter (sc : Scene) (x y : ℤ) : Type 0 where
  pub on_the_grid :
      (ltb_ℤ x (pos 0) ≡ false)
      × (ltb_ℤ y (pos 0) ≡ false)
      × (ltb_ℤ x sc.grid_width ≡ true)
      × (ltb_ℤ y sc.grid_height ≡ true)
  pub no_wall :
      (t : Tile) → get (or_empty sc.tiles) (format_pair x y) ≡ some t → (t.kind == "wall") ≡ false
  pub door_open :
      (t : Tile)
      → get (or_empty sc.tiles) (format_pair x y) ≡ some t
      → (t.kind == "door") ≡ true
      → get (or_empty sc.open_doors) (format_pair x y) ≡ some true
  pub no_scenery : All (λ o. o.blocks_move ≡ true → IsOff o x y) sc.objects

covers-IsOff : (o : SceneObject) (x y : ℤ) → (covers o x y ≡ false) ↔ IsOff o x y
unfolding covers
covers-IsOff o x y = (λ h. ground arith, λ h. ground arith)

no_blocking_object :
    (l : List SceneObject) (x y : ℤ)
    → (blocking_object l x y ≡ none) ↔ All (λ o. o.blocks_move ≡ true → IsOff o x y) l
unfolding blocking_object
no_blocking_object [] x y = (λ h. tt, λ h. refl)
no_blocking_object (o ∷ rest) x y = (
  λ h. (λ b. (covers-IsOff o x y).0 (ground arith), (no_blocking_object rest x y).0 (ground arith)),
  λ (off, all).
      let others = (no_blocking_object rest x y).1 all in
      elim (Bool-cases o.blocks_move) [
        | inl b ↦ let n = (covers-IsOff o x y).1 (off b) in rw (b, n) others
        | inr b ↦ rw b others
      ],
)

-- Blocked lets a square of a known scene be entered exactly when it is on the grid, has no wall, has
-- an open door if it has a door, and lies in the rectangle of no object that blocks movement.
pub blocked-CanEnter : (sc : Scene) (x y : ℤ) → (blocked_in sc x y ≡ none) ↔ CanEnter sc x y
unfolding blocked_in kind_at grid_key flag
blocked-CanEnter sc x y = (
  λ h. record {
    on_the_grid = ground arith;
    no_wall = λ t e. ground arith;
    door_open = λ t e d. ground arith;
    no_scenery = (no_blocking_object sc.objects x y).0 (ground arith);
  },
  λ c.
      let free = (no_blocking_object sc.objects x y).1 c.no_scenery in
      elim (Option-cases (get (or_empty sc.tiles) (format_pair x y))) [
        | inl e ↦ rw e (ground (arith, c.on_the_grid, free))
        | inr (t, e) ↦ elim (Bool-cases (t.kind == "door")) [
          | inl d ↦ rw (e, c.door_open t e d) (ground (arith, c.on_the_grid, free, c.no_wall t e))
          | inr d ↦ rw e (ground (arith, c.on_the_grid, free, c.no_wall t e, d))
        ]
      ],
)

other_key : (x y u v : ℤ) → ((x ≡ u) × (y ≡ v) → ⊥) → (grid_key u v == grid_key x y) ≡ false
unfolding grid_key
other_key x y u v h = elim (Bool-cases (format_pair u v == format_pair x y)) [
  | inl e ↦
      let p = format_pair_inj u v x y ((eq_iff (format_pair u v) (format_pair x y)).0 e) in
      absurd (h (sym p.0, sym p.1))
  | inr e ↦ e
]

flag-put :
    (m : Option (Map Bool)) (k j : String) (b : Bool)
    → flag (some (put (or_empty m) k b)) j ≡ (if k == j then b else flag m j)
unfolding flag
flag-put m k j b = ground (arith, get-put (or_empty m) k j b)

flag-delete :
    (m : Option (Map Bool)) (k j : String)
    → flag (some (delete (or_empty m) k)) j ≡ (if k == j then false else flag m j)
unfolding flag
flag-delete m k j = ground (arith, get-delete (or_empty m) k j)

opened_elsewhere :
    (sc : Scene) (p : GridPosition) (x y : ℤ)
    → ((x ≡ p.x) × (y ≡ p.y) → ⊥)
    → blocked_in (with_door_open sc p) x y ≡ blocked_in sc x y
unfolding blocked_in with_door_open
opened_elsewhere sc p x y h =
    rw (flag-put sc.open_doors (grid_key p.x p.y) (grid_key x y) true, other_key x y p.x p.y h) refl

closed_elsewhere :
    (sc : Scene) (p : GridPosition) (x y : ℤ)
    → ((x ≡ p.x) × (y ≡ p.y) → ⊥)
    → blocked_in (with_door_closed sc p) x y ≡ blocked_in sc x y
unfolding blocked_in with_door_closed
closed_elsewhere sc p x y h =
    rw (flag-delete sc.open_doors (grid_key p.x p.y) (grid_key x y), other_key x y p.x p.y h) refl

-- The state that either arm leaves, over the scene that it changes.
put_scene_blocked :
    (st : State) (k id : String) (sc sc' : Scene) (x y : ℤ)
    → get st.scenes k ≡ some sc
    → (id ≡ k → blocked_in sc' x y ≡ blocked_in sc x y)
    → blocked (record st { scenes = put st.scenes k sc' }) id x y ≡ blocked st id x y
unfolding blocked
put_scene_blocked st k id sc sc' x y g h =
    ground (arith, get-put st.scenes k id sc', eq_iff k id, h, g)

door_opened_refused :
    (st : State) (d : DoorAt) → get st.scenes d.scene_id ≡ none → (apply_door_opened st d).1 ≡ st
unfolding apply_door_opened
door_opened_refused st d n = ground arith

door_opened_state :
    (st : State) (d : DoorAt) (sc : Scene) (p : GridPosition)
    → get st.scenes d.scene_id ≡ some sc
    → d.at ≡ some p
    → (apply_door_opened st d).1
      ≡ record st { scenes = put st.scenes d.scene_id (with_door_open sc p) }
unfolding apply_door_opened
door_opened_state st d sc p q e = ground arith

-- Opening a door changes whether a square may be entered, and why not, of no square but its own.
pub opened-blocked :
    (st : State) (d : DoorAt) (p : GridPosition) (id : String) (x y : ℤ)
    → d.at ≡ some p
    → ((id ≡ d.scene_id) × (x ≡ p.x) × (y ≡ p.y) → ⊥)
    → blocked (apply_door_opened st d).1 id x y ≡ blocked st id x y
opened-blocked st d p id x y e h = elim (Option-cases (get st.scenes d.scene_id)) [
  | inl n ↦ rw (door_opened_refused st d n) refl
  | inr (sc, q) ↦ rw (door_opened_state st d sc p q e) (
      put_scene_blocked st d.scene_id id sc (with_door_open sc p) x y q
        (λ same. opened_elsewhere sc p x y (λ k. h (same, k.0, k.1))))
]

door_closed_refused :
    (st : State) (d : DoorAt) → get st.scenes d.scene_id ≡ none → (apply_door_closed st d).1 ≡ st
unfolding apply_door_closed
door_closed_refused st d n = ground arith

door_closed_state :
    (st : State) (d : DoorAt) (sc : Scene) (p : GridPosition)
    → get st.scenes d.scene_id ≡ some sc
    → d.at ≡ some p
    → (apply_door_closed st d).1
      ≡ record st { scenes = put st.scenes d.scene_id (with_door_closed sc p) }
unfolding apply_door_closed
door_closed_state st d sc p q e = ground arith

-- Closing a door changes whether a square may be entered, and why not, of no square but its own.
pub closed-blocked :
    (st : State) (d : DoorAt) (p : GridPosition) (id : String) (x y : ℤ)
    → d.at ≡ some p
    → ((id ≡ d.scene_id) × (x ≡ p.x) × (y ≡ p.y) → ⊥)
    → blocked (apply_door_closed st d).1 id x y ≡ blocked st id x y
closed-blocked st d p id x y e h = elim (Option-cases (get st.scenes d.scene_id)) [
  | inl n ↦ rw (door_closed_refused st d n) refl
  | inr (sc, q) ↦ rw (door_closed_state st d sc p q e) (
      put_scene_blocked st d.scene_id id sc (with_door_closed sc p) x y q
        (λ same. closed_elsewhere sc p x y (λ k. h (same, k.0, k.1))))
]

-- On the square of a door of the grid, opening leaves only what objects stand on it to block it,
-- and closing leaves it blocked by the closed door.
pub door_square :
    (sc : Scene) (p : GridPosition)
    → (ltb_ℤ p.x (pos 0)
        || ltb_ℤ p.y (pos 0)
        || leb_ℤ sc.grid_width p.x
        || leb_ℤ sc.grid_height p.y)
      ≡ false
    → kind_at sc p.x p.y ≡ "door"
    → (blocked_in (with_door_open sc p) p.x p.y ≡ blocking_object sc.objects p.x p.y)
      × (blocked_in (with_door_closed sc p) p.x p.y ≡ some a_closed_door)
unfolding blocked_in with_door_open with_door_closed kind_at
door_square sc p g k = (
  rw
      (
        g,
        k,
        flag-put sc.open_doors (grid_key p.x p.y) (grid_key p.x p.y) true,
        eq_refl (grid_key p.x p.y),
      )
      refl,
  rw
      (
        g,
        k,
        flag-delete sc.open_doors (grid_key p.x p.y) (grid_key p.x p.y),
        eq_refl (grid_key p.x p.y),
      )
      refl,
)
