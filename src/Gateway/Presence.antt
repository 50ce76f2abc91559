-- ===== src/Gateway/Presence.antt =====
-- The registry of internal/gateway/presence.go: who is connected. Sends, their budget and the locks
-- are left out. `conn` stands for the pointer to a connection.
use vtt_platform.Prelude.{
  ℕ, suc, ◌-◌, String, Bool, true, false, not, ◌||◌, Option, none, some, List, [], ◌∷◌, nat_eq, leb,
  contains, if◌then◌else◌,
}
use vtt_platform.Go.GoMap
use vtt_platform.Go.GoMap.{Map, get, put, delete}

pub record Conn : Type 0 where
  pub conn : ℕ
  pub participant_id : String
  pub display_name : String

pub record Registry : Type 0 where
  pub conns : List Conn
  pub counts : Map ℕ

abbrev pub new_registry : Registry
new_registry = record { conns = []; counts = GoMap.empty }

unfoldable pub has_conn : ℕ → List Conn → Bool
has_conn k [] = false
has_conn k (c ∷ rest) = nat_eq c.conn k || has_conn k rest

-- delete(r.conns, c)
unfoldable pub drop_conn : ℕ → List Conn → List Conn
drop_conn k [] = []
drop_conn k (c ∷ rest) = let left = drop_conn k rest in if nat_eq c.conn k then left else c ∷ left

-- r.counts[id]: 0 where there is no key.
abbrev pub number : Option ℕ → ℕ
number none = 0
number (some n) = n

-- joinAndSend without its send: whether the connection is the participant's first, and the registry.
unfoldable pub join : Registry → Conn → Bool × Registry
unfolding drop_conn
join r c =
    let n = suc (number (get r.counts c.participant_id)) in
    (
      nat_eq n 1,
      record { conns = c ∷ drop_conn c.conn r.conns; counts = put r.counts c.participant_id n },
    )

-- leave: whether it was the participant's last connection, and the registry.
unfoldable pub leave : Registry → Conn → Bool × Registry
unfolding has_conn drop_conn
leave r c =
    let n = number (get r.counts c.participant_id) - 1 in
    if not (has_conn c.conn r.conns)
    then (false, r)
    else if leb n 0
    then (
      true,
      record { conns = drop_conn c.conn r.conns; counts = delete r.counts c.participant_id },
    )
    else (
      false,
      record { conns = drop_conn c.conn r.conns; counts = put r.counts c.participant_id n },
    )

-- The loops over the connections that list each participant once.
unfoldable pub each_once : List String → List Conn → List Conn
each_once seen [] = []
each_once seen (c ∷ rest) =
    let others = each_once seen rest in
    let later = each_once (c.participant_id ∷ seen) rest in
    if contains seen c.participant_id then others else c ∷ later

abbrev ids_of : List Conn → List String
ids_of [] = []
ids_of (c ∷ rest) = c.participant_id ∷ ids_of rest

unfoldable pub participant_ids : Registry → List String
unfolding each_once
participant_ids r = ids_of (each_once [] r.conns)

-- The connections that a broadcast goes to.
unfoldable pub targets : Registry → ℕ → Map Bool → List Conn
targets r except deny = go r.conns
  where
    denied : Option Bool → Bool
    denied none = false
    denied (some b) = b

    go : List Conn → List Conn
    go [] = []
    go (c ∷ rest) =
        let others = go rest in
        if nat_eq c.conn except || denied (get deny c.participant_id) then others else c ∷ others
