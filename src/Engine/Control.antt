-- ===== src/Engine/Control.antt =====
-- Grants and revocations of control over one actor.
use vtt_platform.Prelude.{
  String, ◌≡◌, refl, false, List, [], ◌∷◌, ◌==◌, arith, contains, IsNodup, eq_iff, append-IsNodup,
  Bool-cases, inl, inr, if◌then◌else◌,
}
use vtt_platform.Contract.Event.{Actor, ControlGranted, ControlRevoked}
use vtt_platform.Engine.Apply.Control.{first_id, mirror_control, granted, revoked, kept}

-- The mirror holds the first controller, "" where there is none, and no controller stands twice.
pub record IsMirrored (a : Actor) : Type 0 where
  pub mirror : a.controller_id ≡ first_id a.controller_ids
  pub nodup : IsNodup a.controller_ids

pub contains-kept :
    (p k : String) (xs : List String)
    → contains (kept p xs) k ≡ (if p == k then false else contains xs k)
unfolding kept
contains-kept p k [] = ground arith
contains-kept p k (x ∷ xs) =
    ground (arith, contains-kept p k xs, eq_iff x p, eq_iff x k, eq_iff p k)

kept-IsNodup : (p : String) (xs : List String) → IsNodup xs → IsNodup (kept p xs)
unfolding kept
kept-IsNodup p [] h = h
kept-IsNodup p (x ∷ xs) h = ground (arith, kept-IsNodup p xs h.1, contains-kept p x xs, eq_iff p x)

pub granted-IsMirrored : (a : Actor) (g : ControlGranted) → IsMirrored a → IsMirrored (granted a g)
unfolding granted mirror_control
granted-IsMirrored a g h = elim (Bool-cases (contains a.controller_ids g.participant_id)) [
  | inl e ↦ record { mirror = rw e h.mirror; nodup = rw e h.nodup }
  | inr e ↦ record {
    mirror = rw e;
    nodup = rw e (append-IsNodup a.controller_ids g.participant_id h.nodup e);
  }
]

pub revoked-IsMirrored : (a : Actor) (r : ControlRevoked) → IsMirrored a → IsMirrored (revoked a r)
unfolding revoked mirror_control
revoked-IsMirrored a r h = record {
  mirror = refl;
  nodup = kept-IsNodup r.participant_id a.controller_ids h.nodup;
}
