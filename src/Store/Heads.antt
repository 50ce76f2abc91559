-- ===== src/Store/Heads.antt =====
-- The head of the log after a batch was stamped onto it.
use vtt_platform.Prelude.{
  ℕ, suc, ◌≡◌, refl, ap, ◌∙◌, Bool, true, List, [], ◌∷◌, ◌++◌, arith, length, if◌then◌else◌,
}
use vtt_platform.Prelude.Int.{ℤ, pos, ◌+ℤ◌, ltb_ℤ, +ℤ_parts, eq_of_parts}
use vtt_platform.Contract.Event.{Envelope}
use vtt_platform.Store.Log.{max_seq, head_of, stamp_from}

max_seq-append : (m : ℤ) (xs ys : List Envelope) → max_seq m (xs ++ ys) ≡ max_seq (max_seq m xs) ys
unfolding max_seq
max_seq-append m [] ys = refl
max_seq-append m (x ∷ xs) ys = max_seq-append (if ltb_ℤ m x.sequence then x.sequence else m) xs ys

lt-suc : (m : ℤ) → ltb_ℤ m (m +ℤ pos 1) ≡ true
unfolding ◌+ℤ◌
lt-suc m = ground arith

suc_shift : (m : ℤ) (n : ℕ) → m +ℤ pos 1 +ℤ pos n ≡ m +ℤ pos (suc n)
suc_shift m n = omega (arith, +ℤ_parts, eq_of_parts)

-- Sequences stamped from just above the maximum raise it by their number.
max_seq-stamp_from :
    (m : ℤ) (envs : List Envelope)
    → max_seq m (stamp_from (m +ℤ pos 1) envs) ≡ m +ℤ pos (length envs)
unfolding max_seq stamp_from
max_seq-stamp_from m [] = omega (arith, +ℤ_parts, eq_of_parts)
max_seq-stamp_from m (e ∷ rest) =
    ap
      (λ (above : Bool).
        max_seq (if above then m +ℤ pos 1 else m) (stamp_from (m +ℤ pos 1 +ℤ pos 1) rest))
      (lt-suc m)
    ∙ (max_seq-stamp_from (m +ℤ pos 1) rest ∙ suc_shift m (length rest))

-- When a batch is stamped with the sequences above the log's head and appended, the head of the
-- log rises by the number of its events.
pub head_of-append :
    (rows envs : List Envelope)
    → head_of (rows ++ stamp_from (head_of rows +ℤ pos 1) envs) ≡ head_of rows +ℤ pos (length envs)
unfolding head_of stamp_from
head_of-append [] [] = unfold ◌+ℤ◌ in refl
head_of-append [] (e ∷ rest) =
    max_seq-stamp_from (pos 0 +ℤ pos 1) rest ∙ suc_shift (pos 0) (length rest)
head_of-append (r ∷ rs) envs =
    max_seq-append r.sequence rs _ ∙ max_seq-stamp_from (max_seq r.sequence rs) envs
