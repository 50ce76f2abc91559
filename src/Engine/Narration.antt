-- ===== src/Engine/Narration.antt =====
-- When a narration is accepted.
use vtt_platform.Prelude.{Bool-cases, inl, inr, ◌&&◌, ◌≡◌, ◌↔◌, ◌⊎◌, ◌<◌, ◌≤◌, none, arith, len}
use vtt_platform.Prelude.Int.{ℤ, pos, eq_ℤ, ◌<ℤ◌, ◌≤ℤ◌}
use vtt_platform.Contract.Event.{Envelope, NarrationAdded}
use vtt_platform.Engine.State.{State}
use vtt_platform.Engine.Apply.Outcome.{max_text_bytes, max_narration_as_bytes}
use vtt_platform.Engine.Apply.Feed.{apply_narration_added, check_anchor}

-- The anchor names a past range of the log.
pub record IsPast (from to seq : ℤ) : Type 0 where
  pub positive : pos 0 <ℤ from
  pub ordered : from ≤ℤ to
  pub past : to <ℤ seq

-- The text is not empty and within its bound, the speaker's name within its own, and the anchor
-- absent or a past range.
pub record IsNarratable (seq : ℤ) (na : NarrationAdded) : Type 0 where
  pub text_bounds : (0 < len na.text) × (len na.text ≤ max_text_bytes)
  pub as_bound : len na.speaks_as ≤ max_narration_as_bytes
  pub anchor :
      ((na.anchor_from_seq ≡ pos 0) × (na.anchor_to_seq ≡ pos 0))
      ⊎ IsPast na.anchor_from_seq na.anchor_to_seq seq

accepted_anchor :
    (st : State) (env : Envelope) (na : NarrationAdded)
    → (apply_narration_added st env na).0 ≡ none
    → ((na.anchor_from_seq ≡ pos 0) × (na.anchor_to_seq ≡ pos 0))
      ⊎ IsPast na.anchor_from_seq na.anchor_to_seq env.sequence
unfolding apply_narration_added check_anchor
accepted_anchor st env na h =
    elim (Bool-cases (eq_ℤ na.anchor_from_seq (pos 0) && eq_ℤ na.anchor_to_seq (pos 0))) [
      | inl e ↦ inl (ground arith)
      | inr e ↦
          inr (record { positive = ground arith; ordered = ground arith; past = ground arith })
    ]

-- A narration is accepted exactly when its text, its speaker and its anchor are within their bounds.
pub narration_accepted :
    (st : State) (env : Envelope) (na : NarrationAdded)
    → ((apply_narration_added st env na).0 ≡ none) ↔ IsNarratable env.sequence na
unfolding apply_narration_added check_anchor
narration_accepted st env na = (
  λ h. record {
    text_bounds = ground arith;
    as_bound = ground arith;
    anchor = accepted_anchor st env na h;
  },
  λ n. elim n.anchor [
    | inl e ↦ ground (arith, n.text_bounds, n.as_bound)
    | inr p ↦ ground (arith, n.text_bounds, n.as_bound, p.positive, p.ordered, p.past)
  ],
)
