-- ===== src/Go/Sort.antt =====
-- sort.Strings and sort.Slice by a text: what the code relies on is the order of the result.
use vtt_platform.Prelude.{
  String, ◌≡◌, refl, Bool, false, ◌||◌, List, [], ◌∷◌, ◌==◌, arith, All, if◌then◌else◌, Bool-cases,
  inl, inr,
}
use vtt_platform.Go.Text.{str_lt, str_lt_trans, str_lt_irrefl, str_lt_cotrans}

module _ {ℓ} {A : Type ℓ} (key : A → String) where
  unfoldable pub insert_by : A → List A → List A
  insert_by a [] = a ∷ []
  insert_by a (b ∷ rest) = if str_lt (key b) (key a) then b ∷ insert_by a rest else a ∷ b ∷ rest

  unfoldable pub sort_by : List A → List A
  unfolding insert_by
  sort_by [] = []
  sort_by (a ∷ rest) = insert_by a (sort_by rest)

  -- No later element has a smaller key.
  abbrev pub IsSortedBy : List A → Type ℓ
  IsSortedBy [] = Unit
  IsSortedBy (a ∷ rest) = All (λ b. str_lt (key b) (key a) ≡ false) rest × IsSortedBy rest

  All-insert_by {κ} : (P : A → Type κ) (a : A) (l : List A) → P a → All P l → All P (insert_by a l)
  unfolding insert_by
  All-insert_by P a [] h k = (h, k)
  All-insert_by P a (b ∷ l) h k = elim (Bool-cases (str_lt (key b) (key a))) [
    | inl e ↦ rw e (k.0, All-insert_by P a l h k.1)
    | inr e ↦ rw e (h, k)
  ]

  insert_by-IsSortedBy : (a : A) (l : List A) → IsSortedBy l → IsSortedBy (insert_by a l)
  unfolding insert_by
  insert_by-IsSortedBy a [] h = (tt, tt)
  insert_by-IsSortedBy a (b ∷ l) h = elim (Bool-cases (str_lt (key b) (key a))) [
    | inl e ↦ rw e (
      All-insert_by (λ c. str_lt (key c) (key b) ≡ false) a l
          (ground (arith, str_lt_trans (key a) (key b) (key a), str_lt_irrefl (key a))) h.0,
      insert_by-IsSortedBy a l h.1,
    )
    | inr e ↦ rw e ((e, above a b l e h.0), h)
  ]
    where
      above :
          (a b : A) (l : List A)
          → str_lt (key b) (key a) ≡ false
          → All (λ c. str_lt (key c) (key b) ≡ false) l
          → All (λ c. str_lt (key c) (key a) ≡ false) l
      above a b [] e k = tt
      above a b (c ∷ l) e k = (str_lt_cotrans (key c) (key b) (key a) k.0 e, above a b l e k.1)

  pub sort_by-IsSortedBy : (l : List A) → IsSortedBy (sort_by l)
  unfolding sort_by
  sort_by-IsSortedBy [] = tt
  sort_by-IsSortedBy (a ∷ l) = insert_by-IsSortedBy a (sort_by l) (sort_by-IsSortedBy l)

  -- Whether an element with a given key is there.
  abbrev pub has_key : String → List A → Bool
  has_key k [] = false
  has_key k (a ∷ rest) = key a == k || has_key k rest

  pub has_key-insert_by :
      (k : String) (a : A) (l : List A) → has_key k (insert_by a l) ≡ (key a == k || has_key k l)
  unfolding insert_by
  has_key-insert_by k a [] = refl
  has_key-insert_by k a (b ∷ l) = ground (arith, has_key-insert_by k a l)

  -- Sorting loses nothing and adds nothing.
  pub has_key-sort_by : (k : String) (l : List A) → has_key k (sort_by l) ≡ has_key k l
  unfolding sort_by
  has_key-sort_by k [] = refl
  has_key-sort_by k (a ∷ l) = ground (arith, has_key-insert_by k a (sort_by l), has_key-sort_by k l)
