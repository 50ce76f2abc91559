-- ===== src/Go/GoMap.antt =====
-- Go's `map[string]V` as an association list. `entries` is what a `for range` loop visits; the
-- language leaves the order of the visit open, and here it is the order of the list.
use vtt_platform.Prelude.{
  String, ◌≡◌, refl, Option, none, some, List, [], ◌∷◌, All, Bool-cases, inl, inr, sym, ap, ◌∙◌,
  arith, ◌==◌, eq_iff, if◌then◌else◌, eq_refl,
}

pub record Map {ℓ} (V : Type ℓ) : Type ℓ where
  pub entries : List (String × V)

module _ {ℓ} {V : Type ℓ} where
  unfoldable pub lookup : String → List (String × V) → Option V
  lookup key [] = none
  lookup key ((first, value) ∷ rest) = if first == key then some value else lookup key rest

  unfoldable pub all_but : String → List (String × V) → List (String × V)
  all_but key [] = []
  all_but key ((first, value) ∷ rest) =
      let later = all_but key rest in if first == key then later else (first, value) ∷ later

  abbrev pub empty : Map V
  empty = record { entries = [] }

  -- v, ok := m[k]
  unfoldable pub get : Map V → String → Option V
  unfolding lookup
  get m k = lookup k m.entries

  -- delete(m, k)
  unfoldable pub delete : Map V → String → Map V
  unfolding all_but
  delete m k = record { entries = all_but k m.entries }

  -- m[k] = v
  unfoldable pub put : Map V → String → V → Map V
  unfolding all_but
  put m k v = record { entries = (k, v) ∷ all_but k m.entries }

  -- The lookup of a key once the entries of a key are gone.
  pub lookup-all_but :
      (gone key : String) (entries : List (String × V))
      → lookup key (all_but gone entries) ≡ (if gone == key then none else lookup key entries)
  unfolding lookup all_but
  lookup-all_but gone key [] = ground arith
  lookup-all_but gone key ((first, value) ∷ rest) =
      ground
        (arith, eq_iff gone key, eq_iff first gone, eq_iff first key, lookup-all_but gone key rest)

  pub get-delete :
      (m : Map V) (k j : String) → get (delete m k) j ≡ (if k == j then none else get m j)
  unfolding get delete
  get-delete m k j = lookup-all_but k j m.entries

  pub get-put :
      (m : Map V) (k j : String) (v : V) → get (put m k v) j ≡ (if k == j then some v else get m j)
  unfolding get put
  get-put m k j v = ground (arith, lookup-all_but k j m.entries)

  pub get-empty : (k : String) → get empty k ≡ none
  unfolding get
  get-empty k = refl

  -- Each key stands once: what every map has that `put` and `delete` built from `empty`.
  abbrev pub UniqueKeys : List (String × V) → Type ℓ
  UniqueKeys [] = Unit
  UniqueKeys ((k, v) ∷ l) = (lookup k l ≡ none) × UniqueKeys l

  all_but-UniqueKeys :
      (k : String) (l : List (String × V)) → UniqueKeys l → UniqueKeys (all_but k l)
  unfolding all_but
  all_but-UniqueKeys k [] h = h
  all_but-UniqueKeys k ((j, v) ∷ l) h =
      ground (arith, all_but-UniqueKeys k l h.1, lookup-all_but k j l)

  pub put-UniqueKeys :
      (m : Map V) (k : String) (v : V) → UniqueKeys m.entries → UniqueKeys (put m k v).entries
  unfolding put
  put-UniqueKeys m k v h =
      (ground (arith, lookup-all_but k k m.entries, eq_refl k), all_but-UniqueKeys k m.entries h)

  pub delete-UniqueKeys :
      (m : Map V) (k : String) → UniqueKeys m.entries → UniqueKeys (delete m k).entries
  unfolding delete
  delete-UniqueKeys m k h = all_but-UniqueKeys k m.entries h

lookup-cons_of_tail {ℓ} :
    {V : Type ℓ} (k j : String) (v w : V) (l : List (String × V))
    → lookup k l ≡ none
    → lookup j l ≡ some w
    → lookup j ((k, v) ∷ l) ≡ some w
unfolding lookup
lookup-cons_of_tail k j v w l u e = elim (Bool-cases (k == j)) [
  | inl same ↦
      absurd (none_some (sym u ∙ (ap (λ (i : String). lookup i l) ((eq_iff k j).0 same) ∙ e)))
  | inr other ↦ rw other e
]
  where
    none_some : none ≡ some w → ⊥
    none_some p = cc

-- What holds at every key holds of every entry that a loop visits.
pub All-of_lookup {ℓ κ} :
    {V : Type ℓ} (P : String × V → Type κ) (l : List (String × V))
    → UniqueKeys l
    → ((k : String) (v : V) → lookup k l ≡ some v → P (k, v))
    → All P l
unfolding lookup
All-of_lookup P [] u h = tt
All-of_lookup P ((k, v) ∷ l) u h = (
  h k v (rw (eq_refl k)),
  All-of_lookup P l u.1 (λ j w e. h j w (lookup-cons_of_tail k j v w l u.0 e)),
)

-- A map with the same keys and each value translated.
module _ {ℓ κ} {V : Type ℓ} {W : Type κ} (f : V → W) where
  unfoldable pub map_entries : List (String × V) → List (String × W)
  map_entries [] = []
  map_entries ((k, v) ∷ l) = (k, f v) ∷ map_entries l

  unfoldable pub map_values : Map V → Map W
  unfolding map_entries
  map_values m = record { entries = map_entries m.entries }

  abbrev pub map_option : Option V → Option W
  map_option none = none
  map_option (some v) = some (f v)

  lookup-map_entries :
      (k : String) (l : List (String × V)) → lookup k (map_entries l) ≡ map_option (lookup k l)
  unfolding lookup map_entries
  lookup-map_entries k [] = refl
  lookup-map_entries k ((j, v) ∷ l) = ground (arith, lookup-map_entries k l)

  pub get-map_values : (m : Map V) (k : String) → get (map_values m) k ≡ map_option (get m k)
  unfolding get map_values
  get-map_values m k = lookup-map_entries k m.entries

  pub map_entries-UniqueKeys : (l : List (String × V)) → UniqueKeys l → UniqueKeys (map_entries l)
  unfolding map_entries
  map_entries-UniqueKeys [] h = tt
  map_entries-UniqueKeys ((k, v) ∷ l) h =
      (rw (lookup-map_entries k l, h.0), map_entries-UniqueKeys l h.1)

  all_but-map_entries :
      (k : String) (l : List (String × V)) → all_but k (map_entries l) ≡ map_entries (all_but k l)
  unfolding all_but map_entries
  all_but-map_entries k [] = refl
  all_but-map_entries k ((j, v) ∷ l) = ground (arith, all_but-map_entries k l)

  pub map_values-put :
      (m : Map V) (k : String) (v : V) → map_values (put m k v) ≡ put (map_values m) k (f v)
  unfolding map_values put map_entries
  map_values-put m k v = ground (arith, all_but-map_entries k m.entries)

module _ {ℓ} {V : Type ℓ} (f : V → V) (idem : (v : V) → f (f v) ≡ f v) where
  map_entries_idem : (l : List (String × V)) → map_entries f (map_entries f l) ≡ map_entries f l
  unfolding map_entries
  map_entries_idem [] = refl
  map_entries_idem ((k, v) ∷ l) = ground (arith, map_entries_idem l, idem v)

  pub map_values_idem : (m : Map V) → map_values f (map_values f m) ≡ map_values f m
  unfolding map_values
  map_values_idem m = ground (arith, map_entries_idem m.entries)

pub ruleset map_laws = (get-empty, get-delete, get-put)
