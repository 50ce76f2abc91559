-- ===== src/Store/Log.antt =====
-- AppendBatch of internal/store/store.go for the world log, over a database that the code does not
-- implement. The entries of the character logs, which the same transaction writes, are left out.
use vtt_platform.Prelude.{
  ◌≡◌, Bool, true, false, not, Option, none, some, List, [], ◌∷◌, ◌++◌, ◌==◌, if◌then◌else◌,
}
use vtt_platform.Prelude.Int.{ℤ, pos, ◌+ℤ◌, ltb_ℤ, eq_ℤ}
use vtt_platform.Contract.Event.{Envelope}

-- SQLite, as this package uses it: `rows` reads the events in order of seq, and `commit` inserts
-- rows in one transaction. A transaction that commits leaves its rows behind those that were there.
pub record Database : Type 1 where
  pub Db : Type 0
  pub rows : Db → List Envelope
  pub commit : Db → List Envelope → Option Db
  pub rows-commit :
      (db db' : Db) (new : List Envelope) → commit db new ≡ some db' → rows db' ≡ rows db ++ new

pub data StoreError : Type 0 where
  empty_batch sequence_not_zero no_event_id insert_failed : StoreError

unfoldable pub max_seq : ℤ → List Envelope → ℤ
max_seq m [] = m
max_seq m (r ∷ rs) = max_seq (if ltb_ℤ m r.sequence then r.sequence else m) rs

-- SELECT COALESCE(MAX(seq), 0)
unfoldable pub head_of : List Envelope → ℤ
unfolding max_seq
head_of [] = pos 0
head_of (r ∷ rs) = max_seq r.sequence rs

-- The sequences that the transaction writes into the batch, from `next` on.
unfoldable pub stamp_from : ℤ → List Envelope → List Envelope
stamp_from next [] = []
stamp_from next (env ∷ rest) = record env { sequence = next } ∷ stamp_from (next +ℤ pos 1) rest

unfoldable pub check_batch : List Envelope → Option StoreError
check_batch [] = none
check_batch (env ∷ rest) =
    if not (eq_ℤ env.sequence (pos 0))
    then some sequence_not_zero
    else if env.event_id == ""
    then some no_event_id
    else check_batch rest

unfoldable pub any_env : List Envelope → Bool
any_env [] = false
any_env (env ∷ rest) = true

module _ (sql : Database) where
  open sql use {Db, rows, commit}

  -- The new database, the batch as it was stamped and its first sequence.
  pub data Appended : Type 0 where
    appended : Db → List Envelope → ℤ → Appended
    failed : StoreError → Appended

  unfoldable pub append_rows : Db → ℤ → List Envelope → Option Db → Appended
  append_rows db first stamped none = failed insert_failed
  append_rows db first stamped (some db') = appended db' stamped first

  unfoldable pub append_checked : Db → List Envelope → Option StoreError → Appended
  unfolding append_rows head_of stamp_from
  append_checked db envs (some e) = failed e
  append_checked db envs none =
      let first = head_of (rows db) +ℤ pos 1 in
      append_rows db first (stamp_from first envs) (commit db (stamp_from first envs))

  unfoldable pub append_batch : Db → List Envelope → Appended
  unfolding append_checked check_batch any_env
  append_batch db envs =
      if not (any_env envs) then failed empty_batch else append_checked db envs (check_batch envs)
