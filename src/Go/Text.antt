-- ===== src/Go/Text.antt =====
-- Go's `<` on strings, which compares bytes, is a strict total order.
use Prim.Native.String.{◌∷◌, compare}
use Prim.Native.String.compare as by
use text.Mathlib.Text.{is_lt}
use vtt_platform.Prelude.{String, ◌≡◌, Bool, true, false, arith}

abbrev pub str_lt : String → String → Bool
str_lt s t = is_lt (compare s t)

pub str_lt_trans : (s t u : String) → str_lt s t ≡ true → str_lt t u ≡ true → str_lt s u ≡ true
str_lt_trans String.[] String.[] u h k = ground (arith, by.nil-nil)
str_lt_trans String.[] (d ∷ t) String.[] h k = ground (arith, by.cons-nil d t)
str_lt_trans String.[] (d ∷ t) (e ∷ u) h k = ground (arith, by.nil-cons e u)
str_lt_trans (c ∷ s) String.[] u h k = ground (arith, by.cons-nil c s)
str_lt_trans (c ∷ s) (d ∷ t) String.[] h k = ground (arith, by.cons-nil d t)
str_lt_trans (c ∷ s) (d ∷ t) (e ∷ u) h k =
    ground
      (arith, str_lt_trans s t u, by.cons-cons c d s t, by.cons-cons d e t u, by.cons-cons c e s u)

pub str_lt_irrefl : (s : String) → str_lt s s ≡ false
str_lt_irrefl String.[] = ground (arith, by.nil-nil)
str_lt_irrefl (c ∷ s) = ground (arith, str_lt_irrefl s, by.cons-cons c c s s)

-- Between two texts in order, any third is above the one or below the other.
pub str_lt_cotrans : (s t u : String) → str_lt s t ≡ false → str_lt t u ≡ false → str_lt s u ≡ false
str_lt_cotrans String.[] t String.[] h k = ground (arith, by.nil-nil)
str_lt_cotrans String.[] String.[] (e ∷ u) h k = ground (arith, by.nil-cons e u)
str_lt_cotrans String.[] (d ∷ t) (e ∷ u) h k = ground (arith, by.nil-cons d t)
str_lt_cotrans (c ∷ s) t String.[] h k = ground (arith, by.cons-nil c s)
str_lt_cotrans (c ∷ s) String.[] (e ∷ u) h k = ground (arith, by.nil-cons e u)
str_lt_cotrans (c ∷ s) (d ∷ t) (e ∷ u) h k =
    ground (
      arith,
      str_lt_cotrans s t u,
      by.cons-cons c d s t,
      by.cons-cons d e t u,
      by.cons-cons c e s u,
    )
