-- ===== src/Gateway/Counting.antt =====
-- The counts of the presence registry beside its connections.
use vtt_platform.Prelude.{
  ℕ, zero, suc, ◌-◌, String, ◌≡◌, refl, sym, ap, subst, ◌∙◌, Bool, true, false, Option, none, some,
  List, [], ◌∷◌, ◌==◌, arith, nat_eq, if◌then◌else◌, eq_iff, eq_refl, Bool-cases, inl, inr,
}
use vtt_platform.Go.GoMap.{get, put, delete, get-put, get-delete}
use vtt_platform.Gateway.Presence.{Conn, Registry, has_conn, drop_conn, number, join, leave}

-- How many connections a participant has.
unfoldable pub tally : String → List Conn → ℕ
tally p [] = 0
tally p (c ∷ rest) = if c.participant_id == p then suc (tally p rest) else tally p rest

abbrev pub counted : ℕ → Option ℕ
counted zero = none
counted (suc n) = some (suc n)

abbrev pub AreDistinct : List Conn → Type 0
AreDistinct [] = Unit
AreDistinct (c ∷ rest) = (has_conn c.conn rest ≡ false) × AreDistinct rest

-- Each connection stands once, and `counts` holds for each participant the number of their
-- connections, and no key for one without any.
pub record IsCounted (r : Registry) : Type 0 where
  pub distinct : AreDistinct r.conns
  pub counts : (p : String) → get r.counts p ≡ counted (tally p r.conns)

unfoldable pub conn_of : ℕ → List Conn → Option Conn
conn_of k [] = none
conn_of k (c ∷ rest) = if nat_eq c.conn k then some c else conn_of k rest

drop_absent : (k : ℕ) (l : List Conn) → has_conn k l ≡ false → drop_conn k l ≡ l
unfolding has_conn drop_conn
drop_absent k [] h = refl
drop_absent k (c ∷ l) h = ground (arith, drop_absent k l)

has_conn-drop :
    (k j : ℕ) (l : List Conn) → has_conn j l ≡ false → has_conn j (drop_conn k l) ≡ false
unfolding has_conn drop_conn
has_conn-drop k j [] h = refl
has_conn-drop k j (c ∷ l) h = ground (arith, has_conn-drop k j l)

drop-AreDistinct : (k : ℕ) (l : List Conn) → AreDistinct l → AreDistinct (drop_conn k l)
unfolding drop_conn
drop-AreDistinct k [] h = h
drop-AreDistinct k (c ∷ l) h =
    ground (arith, drop-AreDistinct k l h.1, has_conn-drop k c.conn l h.0)

who : String → Option Conn → String
who none_id none = none_id
who none_id (some c) = c.participant_id

same_number : (m n : ℕ) → nat_eq m n ≡ true → m ≡ n
same_number m n e = ground arith

tally-drop :
    (p : String) (c : Conn) (l : List Conn)
    → AreDistinct l
    → conn_of c.conn l ≡ some c
    → tally p l ≡ (
        if c.participant_id == p
        then suc (tally p (drop_conn c.conn l))
        else tally p (drop_conn c.conn l))
unfolding tally drop_conn has_conn conn_of who
tally-drop p c [] d h = cc
tally-drop p c (x ∷ l) d h = elim (Bool-cases (nat_eq x.conn c.conn)) [
  | inl e ↦
      rw
        (
          e,
          drop_absent c.conn l
              (subst (λ n. has_conn n l ≡ false) (same_number x.conn c.conn e) d.0),
          sym (ap (who "") (rw e at h)),
        )
        refl
  | inr e ↦ ground (arith, tally-drop p c l d.1, e)
]

-- From a registry that counts its connections, the join of a new connection leaves such a registry,
-- and says that it is the participant's first exactly when the participant had none.
pub join-IsCounted :
    (r : Registry) (c : Conn)
    → IsCounted r
    → has_conn c.conn r.conns ≡ false
    → IsCounted (join r c).1 × ((join r c).0 ≡ nat_eq (tally c.participant_id r.conns) 0)
unfolding join tally
join-IsCounted r c v h = (
  record {
    distinct = rw (drop_absent c.conn r.conns h) (h, v.distinct);
    counts = λ p. ground (
      arith,
      drop_absent c.conn r.conns h,
      v.counts p,
      v.counts c.participant_id,
      eq_iff c.participant_id p,
      get-put r.counts c.participant_id p (suc (number (get r.counts c.participant_id))),
    );
  },
  ground (arith, v.counts c.participant_id),
)

tally_own :
    (c : Conn) (l : List Conn)
    → AreDistinct l
    → conn_of c.conn l ≡ some c
    → tally c.participant_id l ≡ suc (tally c.participant_id (drop_conn c.conn l))
tally_own c l d h = ground (arith, tally-drop c.participant_id c l d h, eq_refl c.participant_id)

conn_of-has : (k : ℕ) (c : Conn) (l : List Conn) → conn_of k l ≡ some c → has_conn k l ≡ true
unfolding conn_of has_conn
conn_of-has k c [] h = cc
conn_of-has k c (x ∷ l) h = ground (arith, conn_of-has k c l)

-- What a leave comes to, with the number of connections that stay.
left_of : Registry → Conn → ℕ → Bool × Registry
left_of r c stay =
    if nat_eq stay 0
    then (
      true,
      record { conns = drop_conn c.conn r.conns; counts = delete r.counts c.participant_id },
    )
    else (
      false,
      record { conns = drop_conn c.conn r.conns; counts = put r.counts c.participant_id stay },
    )

less_one : (n : ℕ) → suc n - 1 ≡ n
less_one n = omega arith

leave-left_of :
    (r : Registry) (c : Conn) (stay : ℕ)
    → has_conn c.conn r.conns ≡ true
    → get r.counts c.participant_id ≡ some (suc stay)
    → leave r c ≡ left_of r c stay
unfolding leave left_of
leave-left_of r c stay h g = rw (h, g, less_one stay) (ground arith)

left-IsCounted :
    (r : Registry) (c : Conn) (stay : ℕ)
    → IsCounted r
    → conn_of c.conn r.conns ≡ some c
    → tally c.participant_id (drop_conn c.conn r.conns) ≡ stay
    → IsCounted (left_of r c stay).1
      × ((left_of r c stay).0 ≡ nat_eq (tally c.participant_id (left_of r c stay).1.conns) 0)
unfolding left_of
left-IsCounted r c stay v h s = elim (Bool-cases (nat_eq stay 0)) [
  | inl e ↦ rw e (
    record {
      distinct = drop-AreDistinct c.conn r.conns v.distinct;
      counts = λ p. ground (
        arith,
        v.counts p,
        tally-drop p c r.conns v.distinct h,
        eq_iff c.participant_id p,
        s,
        e,
        get-delete r.counts c.participant_id p,
      );
    },
    rw s (sym e),
  )
  | inr e ↦ rw e (
    record {
      distinct = drop-AreDistinct c.conn r.conns v.distinct;
      counts = λ p. ground (
        arith,
        v.counts p,
        tally-drop p c r.conns v.distinct h,
        eq_iff c.participant_id p,
        s,
        e,
        get-put r.counts c.participant_id p stay,
      );
    },
    rw s (sym e),
  )
]

-- From a registry that counts its connections, the leave of one of them leaves such a registry, and
-- says that it was the participant's last exactly when the participant has none left.
pub leave-IsCounted :
    (r : Registry) (c : Conn)
    → IsCounted r
    → conn_of c.conn r.conns ≡ some c
    → IsCounted (leave r c).1
      × ((leave r c).0 ≡ nat_eq (tally c.participant_id (leave r c).1.conns) 0)
leave-IsCounted r c v h =
    let stay = tally c.participant_id (drop_conn c.conn r.conns) in
    let own : get r.counts c.participant_id ≡ some (suc stay) =
      v.counts c.participant_id ∙ ap counted (tally_own c r.conns v.distinct h) in
    rw (leave-left_of r c stay (conn_of-has c.conn c r.conns h) own)
      (left-IsCounted r c stay v h refl)
