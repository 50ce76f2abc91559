-- ===== src/Engine/Merge.antt =====
-- mergeObjects beside its specification, which keeps no index.
use vtt_platform.Prelude.{
  ℕ, zero, suc, ◌+◌, ◌≤◌, String, ◌≡◌, refl, ap, ◌∙◌, Bool, false, ◌||◌, Option, none, some, List,
  [], ◌∷◌, ◌++◌, ◌==◌, arith, eq_iff, length, Option-cases, inl, inr, if◌then◌else◌,
}
use vtt_platform.Contract.Event.{ObjectRef}
use vtt_platform.Go.GoMap.{Map, get, put, get-put, get-empty}
use vtt_platform.Go.GoMap
use vtt_platform.Engine.State.{SceneObject}
use vtt_platform.Engine.Apply.Scenes.{object_of}
use vtt_platform.Engine.Apply.Sight.{
  set_object, index_objects, merge_object, merge_all, merge_objects,
}

-- The reference: replace the object of that id where it stands, else append.
pub upsert : SceneObject → List SceneObject → List SceneObject
upsert got [] = got ∷ []
upsert got (o ∷ rest) = if o.object_id == got.object_id then got ∷ rest else o ∷ upsert got rest

pub upsert_all : List SceneObject → List ObjectRef → List SceneObject
upsert_all have [] = have
upsert_all have (o ∷ rest) = upsert_all (upsert (object_of o) have) rest

unfoldable pub has_object : String → List SceneObject → Bool
has_object id [] = false
has_object id (o ∷ rest) = o.object_id == id || has_object id rest

-- No id stands twice in a scene's objects.
abbrev pub HaveDistinctIds : List SceneObject → Type 0
HaveDistinctIds [] = Unit
HaveDistinctIds (o ∷ rest) = (has_object o.object_id rest ≡ false) × HaveDistinctIds rest

has_object-upsert :
    (id : String) (got : SceneObject) (l : List SceneObject)
    → has_object id (upsert got l) ≡ (got.object_id == id || has_object id l)
unfolding has_object upsert
has_object-upsert id got [] = refl
has_object-upsert id got (o ∷ l) = ground (
  arith,
  has_object-upsert id got l,
  eq_iff o.object_id got.object_id,
  eq_iff o.object_id id,
  eq_iff got.object_id id,
)

pub upsert-HaveDistinctIds :
    (got : SceneObject) (l : List SceneObject) → HaveDistinctIds l → HaveDistinctIds (upsert got l)
unfolding upsert
upsert-HaveDistinctIds got [] h = (unfold has_object in refl, tt)
upsert-HaveDistinctIds got (o ∷ l) h = ground (
  arith,
  upsert-HaveDistinctIds got l h.1,
  has_object-upsert o.object_id got l,
  eq_iff o.object_id got.object_id,
  eq_iff got.object_id o.object_id,
)

pub upsert_all-HaveDistinctIds :
    (l : List SceneObject) (incoming : List ObjectRef)
    → HaveDistinctIds l
    → HaveDistinctIds (upsert_all l incoming)
unfolding upsert_all
upsert_all-HaveDistinctIds l [] h = h
upsert_all-HaveDistinctIds l (o ∷ rest) h =
    upsert_all-HaveDistinctIds (upsert (object_of o) l) rest
      (upsert-HaveDistinctIds (object_of o) l h)

-- The position of an id, counted from `i`.
position : ℕ → String → List SceneObject → Option ℕ
position i id [] = none
position i id (o ∷ rest) = if o.object_id == id then some i else position (suc i) id rest

abbrev shifted : Option ℕ → ℕ → Option ℕ
shifted none n = some n
shifted (some i) n = some i

position-upsert :
    (i : ℕ) (id : String) (got : SceneObject) (l : List SceneObject)
    → position i id (upsert got l) ≡ (
        if got.object_id == id
        then shifted (position i got.object_id l) (i + length l)
        else position i id l)
unfolding position upsert
position-upsert i id got [] = ground (arith, eq_iff got.object_id got.object_id)
position-upsert i id got (o ∷ l) = ground (
  arith,
  position-upsert (suc i) id got l,
  eq_iff o.object_id got.object_id,
  eq_iff o.object_id id,
  eq_iff got.object_id id,
)

upsert_absent :
    (i : ℕ) (got : SceneObject) (l : List SceneObject)
    → position i got.object_id l ≡ none
    → l ++ got ∷ [] ≡ upsert got l
unfolding position upsert
upsert_absent i got [] h = refl
upsert_absent i got (o ∷ l) h = ground (arith, upsert_absent (suc i) got l)

position-ge : (i k : ℕ) (id : String) (l : List SceneObject) → position i id l ≡ some k → i ≤ k
unfolding position
position-ge i k id [] h = cc
position-ge i k id (o ∷ l) h = ground (arith, position-ge (suc i) k id l)

upsert_present :
    (i j : ℕ) (got : SceneObject) (l : List SceneObject)
    → position i got.object_id l ≡ some (i + j)
    → set_object j got l ≡ upsert got l
unfolding position upsert set_object
upsert_present i j got [] h = cc
upsert_present i zero got (o ∷ l) h = ground (arith, position-ge (suc i) i got.object_id l)
upsert_present i (suc j) got (o ∷ l) h = ground (arith, upsert_present (suc i) j got l)

position_absent :
    (i : ℕ) (id : String) (l : List SceneObject) → has_object id l ≡ false → position i id l ≡ none
unfolding position has_object
position_absent i id [] h = refl
position_absent i id (o ∷ l) h = ground (arith, position_absent (suc i) id l)

-- `by_id` is the index of `have`.
abbrev Indexes : Map ℕ → List SceneObject → Type 0
Indexes by_id have = (id : String) → get by_id id ≡ position 0 id have

abbrev or_else : Option ℕ → Option ℕ → Option ℕ
or_else none o = o
or_else (some i) o = some i

get-index_objects :
    (i : ℕ) (l : List SceneObject) (m : Map ℕ) (id : String)
    → HaveDistinctIds l
    → get (index_objects i l m) id ≡ or_else (position i id l) (get m id)
unfolding index_objects position
get-index_objects i [] m id h = refl
get-index_objects i (o ∷ l) m id h =
    get-index_objects (suc i) l (put m o.object_id i) id h.1
    ∙ ground (
      arith,
      get-put m o.object_id id i,
      position_absent (suc i) id l,
      position_absent (suc i) o.object_id l h.0,
      eq_iff o.object_id id,
    )

merge_object-upsert :
    (have : List SceneObject) (by_id : Map ℕ) (got : SceneObject)
    → Indexes by_id have
    → ((merge_object (have, by_id) got).0 ≡ upsert got have)
      × Indexes (merge_object (have, by_id) got).1 (upsert got have)
unfolding merge_object
merge_object-upsert have by_id got h = elim (Option-cases (position 0 got.object_id have)) [
  | inl e ↦ (
    ground (arith, h got.object_id, upsert_absent 0 got have),
    λ id. ground (
      arith,
      h got.object_id,
      h id,
      position-upsert 0 id got have,
      get-put by_id got.object_id id (length have),
    ),
  )
  | inr (i, e) ↦ (
    ground (arith, h got.object_id, upsert_present 0 i got have),
    λ id.
        ground
          (arith, h got.object_id, h id, position-upsert 0 id got have, eq_iff got.object_id id),
  )
]

merge_all-upsert_all :
    (have : List SceneObject) (by_id : Map ℕ) (incoming : List ObjectRef)
    → Indexes by_id have
    → (merge_all (have, by_id) incoming).0 ≡ upsert_all have incoming
unfolding merge_all upsert_all
merge_all-upsert_all have by_id [] h = refl
merge_all-upsert_all have by_id (o ∷ rest) h =
    ap (λ (l : List SceneObject). (merge_all (l, next.1) rest).0) step.0
    ∙ merge_all-upsert_all (upsert (object_of o) have) next.1 rest step.1
  where
    next : List SceneObject × Map ℕ
    next = merge_object (have, by_id) (object_of o)

    step : (next.0 ≡ upsert (object_of o) have) × Indexes next.1 (upsert (object_of o) have)
    step = merge_object-upsert have by_id (object_of o) h

-- When no id stands twice in the scene's objects, mergeObjects, with its index from ids to
-- positions, is the upsert of the incoming objects one by one.
pub merge_objects-upsert_all :
    (have : List SceneObject) (incoming : List ObjectRef)
    → HaveDistinctIds have
    → merge_objects have incoming ≡ upsert_all have incoming
unfolding merge_objects
merge_objects-upsert_all have incoming h =
    merge_all-upsert_all have _ incoming
      (λ id. get-index_objects 0 have GoMap.empty id h ∙ ground (arith, get-empty {V = ℕ} id))
