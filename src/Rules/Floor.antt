-- ===== src/Rules/Floor.antt =====
-- The int arithmetic of expressions: values stay in range, and floorDiv is the floor.
use vtt_platform.Prelude.{
  ℕ, zero, suc, ◌-◌, ◌*◌, ◌/◌, ◌%◌, ◌^◌, ◌<◌, ◌≤◌, ◌≡◌, ◌≢◌, refl, arith, nat_eq, if◌then◌else◌,
  Bool-cases, inl, inr,
}
use native.Mathlib.Nat.{div-le_self, div-add-mod', mod-lt, zero-lt-suc}
use vtt_platform.Prelude.Int.{ℤ, pos, negsuc, sub_ℕ, ◌+ℤ◌, ◌-ℤ◌, ◌≤ℤ◌, ◌<ℤ◌}
use vtt_platform.Rules.Int64.{wrap64, IsInt64, ◌*ℤ◌, quotient, floor_div}

pub wrap64-IsInt64 : (a : ℤ) → IsInt64 (wrap64 a)
unfolding wrap64
wrap64-IsInt64 a = ground arith

pub wrap64_id : (a : ℤ) → IsInt64 a → wrap64 a ≡ a
unfolding wrap64
wrap64_id a h = ground arith

quotient-IsInt64 : (a b : ℤ) → IsInt64 a → IsInt64 (quotient a b)
unfolding quotient
quotient-IsInt64 (pos a) (pos b) h = omega (arith, div-le_self a b)
quotient-IsInt64 (pos a) (negsuc b) h = ground (arith, div-le_self a (suc b))
quotient-IsInt64 (negsuc a) (pos b) h = ground (arith, div-le_self (suc a) b)
quotient-IsInt64 (negsuc a) (negsuc b) h = wrap64-IsInt64 (pos (suc a / suc b))

pub floor_div-IsInt64 : (a b : ℤ) → IsInt64 a → IsInt64 (floor_div a b)
unfolding floor_div
floor_div-IsInt64 a b h =
    ground (arith, wrap64-IsInt64 (quotient a b -ℤ pos 1), quotient-IsInt64 a b h)

-- What is left over by a division that rounds down: between 0 and the divisor.
abbrev pub IsRest : ℤ → ℤ → Type 0
IsRest (pos b) r = (pos 0 ≤ℤ r) × (r <ℤ pos b)
IsRest (negsuc b) r = (negsuc b <ℤ r) × (r ≤ℤ pos 0)

pos-times : (m n : ℕ) → pos m *ℤ pos n ≡ pos (m * n)
unfolding ◌*ℤ◌
pos-times m n = grind arith

minus-times : (m n : ℕ) → sub_ℕ 0 m *ℤ pos n ≡ sub_ℕ 0 (m * n)
unfolding ◌*ℤ◌
minus-times m n = grind arith

times-minus : (m n : ℕ) → pos m *ℤ negsuc n ≡ sub_ℕ 0 (m * suc n)
unfolding ◌*ℤ◌
times-minus m n = grind arith

minus-minus : (m n : ℕ) → sub_ℕ 0 m *ℤ negsuc n ≡ pos (m * suc n)
unfolding ◌*ℤ◌
minus-minus m n = grind arith

-- The quotients of opposite signs, rounded down.
down : ℕ → ℕ → ℤ
down x y = if nat_eq (x % y) 0 then sub_ℕ 0 (x / y) else sub_ℕ 0 (suc (x / y))

down-pos : (x y : ℕ) → x < 2 ^ 63 → floor_div (pos x) (negsuc y) ≡ down x (suc y)
unfolding floor_div down ◌-ℤ◌ wrap64
down-pos x y h = ground (arith, div-le_self x (suc y))

down-neg : (x y : ℕ) → suc x ≤ 2 ^ 63 → 0 < y → floor_div (negsuc x) (pos y) ≡ down (suc x) y
unfolding floor_div down ◌-ℤ◌ wrap64
down-neg x y h k = ground (arith, div-le_self (suc x) y)

abbrev HasRest : ℤ → ℤ → ℤ → Type 0
HasRest a b q = (r : ℤ) × (q *ℤ b +ℤ r ≡ a) × IsRest b r

down-pos-rest : (x y : ℕ) → HasRest (pos x) (negsuc y) (down x (suc y))
unfolding down ◌+ℤ◌
down-pos-rest x y = elim (Bool-cases (nat_eq (x % suc y) 0)) [
  | inl e ↦ (
    pos 0,
    rw (e, minus-minus (x / suc y) y) (ground (arith, div-add-mod' x (suc y))),
    omega arith,
  )
  | inr e ↦ (
    sub_ℕ (x % suc y) (suc y),
    rw (e, minus-minus (suc (x / suc y)) y)
        (grind (arith, div-add-mod' x (suc y), mod-lt x (zero-lt-suc y))),
    ground (arith, mod-lt x (zero-lt-suc y)),
  )
]

down-neg-rest : (x y : ℕ) → HasRest (negsuc x) (pos (suc y)) (down (suc x) (suc y))
unfolding down ◌+ℤ◌
down-neg-rest x y = elim (Bool-cases (nat_eq (suc x % suc y) 0)) [
  | inl e ↦ (
    pos 0,
    rw (e, minus-times (suc x / suc y) (suc y)) (ground (arith, div-add-mod' (suc x) (suc y))),
    omega arith,
  )
  | inr e ↦ (
    sub_ℕ (suc y) (suc x % suc y),
    rw (e, minus-times (suc (suc x / suc y)) (suc y))
        (grind (arith, div-add-mod' (suc x) (suc y), mod-lt (suc x) (zero-lt-suc y))),
    ground (arith, mod-lt (suc x) (zero-lt-suc y)),
  )
]

exact-pos : (x y : ℕ) → HasRest (pos x) (pos (suc y)) (floor_div (pos x) (pos (suc y)))
unfolding floor_div ◌+ℤ◌
exact-pos x y = (
  pos (x % suc y),
  ground (arith, pos-times (x / suc y) (suc y), div-add-mod' x (suc y)),
  omega (arith, mod-lt x (zero-lt-suc y)),
)

exact-neg :
    (x y : ℕ)
    → suc x / suc y < 2 ^ 63
    → HasRest (negsuc x) (negsuc y) (floor_div (negsuc x) (negsuc y))
unfolding floor_div ◌+ℤ◌
exact-neg x y h = (
  sub_ℕ 0 (suc x % suc y),
  ground (
    arith,
    wrap64_id (pos (suc x / suc y)) (omega arith),
    times-minus (suc x / suc y) y,
    div-add-mod' (suc x) (suc y),
  ),
  ground (arith, mod-lt (suc x) (zero-lt-suc y)),
)

no_overflow :
    (x y : ℕ)
    → suc x ≤ 2 ^ 63
    → ¬ ((negsuc x ≡ negsuc (2 ^ 63 - 1)) × (negsuc y ≡ negsuc 0))
    → suc x / suc y < 2 ^ 63
no_overflow x zero h k = elim (Bool-cases (nat_eq x (2 ^ 63 - 1))) [
  | inl e ↦ absurd (k (ground arith, refl))
  | inr e ↦ ground arith
]
no_overflow x (suc y) h k = grind arith

-- For ints `a` and `b`, `b` other than 0 and not both `a` the least int and `b` -1, the code's
-- floorDiv is the quotient rounded down: a = q * b + r exactly, with r between 0 and b.
pub floor_div-rounds :
    (a b : ℤ)
    → IsInt64 a
    → b ≢ pos 0
    → ¬ ((a ≡ negsuc (2 ^ 63 - 1)) × (b ≡ negsuc 0))
    → (r : ℤ) × (floor_div a b *ℤ b +ℤ r ≡ a) × IsRest b r
floor_div-rounds a (pos zero) h nz over = absurd (nz refl)
floor_div-rounds (pos x) (pos (suc y)) h nz over = exact-pos x y
floor_div-rounds (pos x) (negsuc y) h nz over = rw (down-pos x y h.0) (down-pos-rest x y)
floor_div-rounds (negsuc x) (pos (suc y)) h nz over =
    rw (down-neg x (suc y) h.1 (omega arith)) (down-neg-rest x y)
floor_div-rounds (negsuc x) (negsuc y) h nz over = exact-neg x y (no_overflow x y h.1 over)
