-- ===== src/Go/Format.antt =====
-- The text that fmt's `%d` prints for an integer, and `"%d,%d"` for a grid square.
use Prim.Native.String.{◌++◌}
use text.Mathlib.TextLemmas.{nil-append, cons-append}
use vtt_platform.Prelude.{
  ℕ, zero, suc, ◌+◌, ◌-◌, ◌*◌, ◌/◌, ◌%◌, ◌<◌, ◌≡◌, refl, sym, ◌∙◌, Char, code, Bool, true, false,
  arith, ltb, nat_eq, ap, if◌then◌else◌, Bool-cases, inl, inr,
}
use Prim.Native.String.{String}
use vtt_platform.Prelude.Int.{ℤ, pos, negsuc}

-- The digit of a number below ten.
unfoldable pub digit : ℕ → Char
digit zero = "0"
digit (suc zero) = "1"
digit (suc (suc zero)) = "2"
digit (suc (suc (suc zero))) = "3"
digit (suc (suc (suc (suc zero)))) = "4"
digit (suc (suc (suc (suc (suc zero))))) = "5"
digit (suc (suc (suc (suc (suc (suc zero)))))) = "6"
digit (suc (suc (suc (suc (suc (suc (suc zero))))))) = "7"
digit (suc (suc (suc (suc (suc (suc (suc (suc zero)))))))) = "8"
digit _ = "9"

-- `fuel` bounds the digits.
decimal_in : ℕ → ℕ → String
decimal_in zero n = ""
decimal_in (suc fuel) n =
    let d : String = String.◌∷◌ (digit (n % 10)) String.[] in
    let rest = decimal_in fuel (n / 10) in if ltb n 10 then d else rest ++ d

-- A number has no more digits than one more than itself.
unfoldable pub decimal : ℕ → String
unfolding decimal_in digit
decimal n = decimal_in (suc n) n

unfoldable pub format_int : ℤ → String
unfolding decimal
format_int (pos n) = decimal n
format_int (negsuc n) = "-" ++ decimal (suc n)

-- fmt.Sprintf("%d,%d", x, y)
unfoldable pub format_pair : ℤ → ℤ → String
unfolding format_int
format_pair x y = format_int x ++ ("," ++ format_int y)

-- What has been read of a pair: the sign and the digits since the last comma, and those before it.
record Reading : Type 0 where
  minus : Bool
  value : ℕ
  before_minus : Bool
  before_value : ℕ

read_char : Reading → ℕ → Reading
read_char r c =
    if nat_eq c b','
    then record { minus = false; value = 0; before_minus = r.minus; before_value = r.value }
    else if nat_eq c b'-'
    then record r { minus = true }
    else record r { value = r.value * 10 + (c - b'0') }

read : Reading → String → Reading
read r String.[] = r
read r (String.◌∷◌ c s) = read (read_char r (code c)) s

read-append : (r : Reading) (s t : String) → read r (s ++ t) ≡ read (read r s) t
unfolding read
read-append r String.[] t = rw nil-append
read-append r (String.◌∷◌ c s) t = rw cons-append (read-append (read_char r (code c)) s t)

read_char-digit :
    (r : Reading) (d : ℕ)
    → d < 10
    → read_char r (code (digit d)) ≡ record r { value = r.value * 10 + d }
unfolding read_char digit
read_char-digit r zero h = refl
read_char-digit r (suc zero) h = refl
read_char-digit r (suc (suc zero)) h = refl
read_char-digit r (suc (suc (suc zero))) h = refl
read_char-digit r (suc (suc (suc (suc zero)))) h = refl
read_char-digit r (suc (suc (suc (suc (suc zero))))) h = refl
read_char-digit r (suc (suc (suc (suc (suc (suc zero)))))) h = refl
read_char-digit r (suc (suc (suc (suc (suc (suc (suc zero))))))) h = refl
read_char-digit r (suc (suc (suc (suc (suc (suc (suc (suc zero)))))))) h = refl
read_char-digit r (suc (suc (suc (suc (suc (suc (suc (suc (suc zero))))))))) h = refl
read_char-digit r (suc (suc (suc (suc (suc (suc (suc (suc (suc (suc d)))))))))) h =
    absurd (omega arith)

-- Reading the digits of a number from zero gives the number.
read-decimal_in :
    (fuel n : ℕ) (m bm : Bool) (bv : ℕ)
    → n < fuel
    → read
        (record { minus = m; value = 0; before_minus = bm; before_value = bv })
        (decimal_in fuel n)
      ≡ record { minus = m; value = n; before_minus = bm; before_value = bv }
unfolding decimal_in read
read-decimal_in zero n m bm bv h = elim h [ ]
read-decimal_in (suc fuel) n m bm bv h = elim (Bool-cases (ltb n 10)) [
  | inl small ↦ rw small (read_char-digit _ (n % 10) (omega arith) ∙ ground arith)
  | inr big ↦ rw big (
      rw (read-append, read-decimal_in fuel (n / 10) m bm bv (ground arith))
        (read_char-digit _ (n % 10) (omega arith) ∙ ground arith))
]

abbrev has_minus : ℤ → Bool
has_minus (pos n) = false
has_minus (negsuc n) = true

abbrev magnitude : ℤ → ℕ
magnitude (pos n) = n
magnitude (negsuc n) = suc n

read-format_int :
    (z : ℤ) (bm : Bool) (bv : ℕ)
    → read
        (record { minus = false; value = 0; before_minus = bm; before_value = bv })
        (format_int z)
      ≡ record { minus = has_minus z; value = magnitude z; before_minus = bm; before_value = bv }
unfolding format_int
read-format_int (pos n) bm bv = read-decimal_in (suc n) n false bm bv (omega arith)
read-format_int (negsuc n) bm bv =
    rw read-append
      (unfold read read_char in read-decimal_in (suc (suc n)) (suc n) true bm bv (omega arith))

read-format_pair :
    (x y : ℤ)
    → read
        (record { minus = false; value = 0; before_minus = false; before_value = 0 })
        (format_pair x y)
      ≡ record {
        minus = has_minus y;
        value = magnitude y;
        before_minus = has_minus x;
        before_value = magnitude x;
      }
unfolding format_pair
read-format_pair x y =
    rw (read-append, read-format_int x)
      (rw read-append (unfold read read_char in read-format_int y (has_minus x) (magnitude x)))

eq_of_magnitude : (x y : ℤ) → has_minus x ≡ has_minus y → magnitude x ≡ magnitude y → x ≡ y
eq_of_magnitude x y h k = ground arith

-- Two squares with one key are one square.
pub format_pair_inj : (x y u v : ℤ) → format_pair x y ≡ format_pair u v → (x ≡ u) × (y ≡ v)
format_pair_inj x y u v e = (
  eq_of_magnitude x u (ap (λ (r : Reading). r.before_minus) same)
      (ap (λ (r : Reading). r.before_value) same),
  eq_of_magnitude y v (ap (λ (r : Reading). r.minus) same) (ap (λ (r : Reading). r.value) same),
)
  where
    start : Reading
    start = record { minus = false; value = 0; before_minus = false; before_value = 0 }

    same :
        Path Reading
          (record {
            minus = has_minus y;
            value = magnitude y;
            before_minus = has_minus x;
            before_value = magnitude x;
          })
          (record {
            minus = has_minus v;
            value = magnitude v;
            before_minus = has_minus u;
            before_value = magnitude u;
          })
    same = sym (read-format_pair x y) ∙ (ap (read start) e ∙ read-format_pair u v)
