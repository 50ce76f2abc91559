-- ===== src/Engine/Standing.antt =====
-- The loop of the ActorRemoved arm over the tokens on the board.
use vtt_platform.Prelude.{
  String, ◌≡◌, true, false, ◌&&◌, ◌||◌, some, List, [], ◌∷◌, ◌==◌, arith, All, eq_iff, Bool-cases,
  inl, inr,
}
use vtt_platform.Go.Text.{str_lt, str_lt_trans, str_lt_irrefl, str_lt_cotrans}
use vtt_platform.Go.GoMap.{lookup}
use vtt_platform.Engine.State.{Token}
use vtt_platform.Engine.Apply.Actors.{standing_token}

-- The id under which an entry is filed is not the empty text.
abbrev pub IsNamed : String × Token → Type 0
IsNamed (id, tok) = (id == "") ≡ false

ne_empty : (s : String) → (s == "") ≡ false → s ≡ "" → ⊥
ne_empty s h e = ground (arith, (eq_iff s "").1 e)

module _ (actor_id : String) where
  standing_token-ne :
      (s : String) (l : List (String × Token))
      → All IsNamed l
      → (s == "") ≡ false
      → (standing_token actor_id s l == "") ≡ false
  unfolding standing_token
  standing_token-ne s [] n h = h
  standing_token-ne s ((j, t) ∷ l) n h =
      elim (Bool-cases (t.actor_id == actor_id && (s == "" || str_lt j s))) [
        | inl e ↦ rw e (standing_token-ne j l n.1 n.0)
        | inr e ↦ rw e (standing_token-ne s l n.1 h)
      ]

  -- Where the scan names no token, no token is the actor's.
  pub standing_token-empty :
      (s id : String) (tok : Token) (l : List (String × Token))
      → All IsNamed l
      → standing_token actor_id s l ≡ ""
      → lookup id l ≡ some tok
      → (tok.actor_id == actor_id) ≡ false
  unfolding standing_token lookup
  standing_token-empty s id tok [] n h e = cc
  standing_token-empty s id tok ((j, t) ∷ l) n h e =
      elim (Bool-cases (t.actor_id == actor_id && (s == "" || str_lt j s))) [
        | inl c ↦ absurd (ne_empty _ (standing_token-ne j l n.1 n.0) (rw c at h))
        | inr c ↦ elim (Bool-cases (s == "")) [
          | inl q ↦ ground (arith, standing_token-empty s id tok l n.1 (rw c at h))
          | inr q ↦ absurd (ne_empty _ (standing_token-ne s l n.1 q) (rw c at h))
        ]
      ]

  -- The scan never goes up.
  standing_token-le :
      (s : String) (l : List (String × Token))
      → All IsNamed l
      → (s == "") ≡ false
      → str_lt s (standing_token actor_id s l) ≡ false
  unfolding standing_token
  standing_token-le s [] n h = str_lt_irrefl s
  standing_token-le s ((j, t) ∷ l) n h =
      elim (Bool-cases (t.actor_id == actor_id && (s == "" || str_lt j s))) [
        | inl c ↦
            rw c (str_lt_cotrans s j _ (below s j (ground arith)) (standing_token-le j l n.1 n.0))
        | inr c ↦ rw c (standing_token-le s l n.1 h)
      ]
    where
      below : (s j : String) → str_lt j s ≡ true → str_lt s j ≡ false
      below s j p = ground (arith, str_lt_trans s j s, str_lt_irrefl s)

  -- The token that the scan names is the first of the actor's tokens in id order.
  pub standing_token-least :
      (s id : String) (tok : Token) (l : List (String × Token))
      → All IsNamed l
      → lookup id l ≡ some tok
      → (tok.actor_id == actor_id) ≡ true
      → str_lt id (standing_token actor_id s l) ≡ false
  unfolding standing_token lookup
  standing_token-least s id tok [] n e o = cc
  standing_token-least s id tok ((j, t) ∷ l) n e o =
      elim (Bool-cases (t.actor_id == actor_id && (s == "" || str_lt j s))) [
        | inl c ↦ rw c (
            ground (
              arith,
              standing_token-least j id tok l n.1,
              standing_token-le j l n.1 n.0,
              eq_iff j id,
            ))
        | inr c ↦ rw c (
            ground (
              arith,
              standing_token-least s id tok l n.1,
              str_lt_cotrans j s (standing_token actor_id s l),
              standing_token-le s l n.1,
              eq_iff j id,
            ))
      ]
