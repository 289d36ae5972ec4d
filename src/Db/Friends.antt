-- ===== src/Db/Friends.antt =====
-- Database.cpp: friends and friend requests.
pub mod Atomic
pub mod Relation
use improject.Base.{
  ℕ, ℤ, List, [], ◌∷◌, Bool, true, false, not, ◌&&◌, ◌||◌, Option, none, some, ◌==◌, if◌then◌else◌,
  int_eq, is_pos, any_of, keep_if, update_if, count_if,
}
use improject.Db.Tables.{Tables, FriendRequestRow}
use improject.Db.Sql.{
  Sql, pure, ◌>>=◌, ◌>>◌, prepare, begin, commit, rollback, step, step_one, read, abort,
}

-- idA=? AND idB=?
abbrev pub is_pair : ℤ → ℤ → ℤ × ℤ → Bool
is_pair a b row = int_eq row.0 a && int_eq row.1 b

abbrev pub has_friend : Tables → ℤ → ℤ → Bool
has_friend t a b = any_of (is_pair a b) t.friends

-- INSERT OR IGNORE INTO t_friend(idA, idB) VALUES(?,?)
unfoldable pub insert_friend : ℤ → ℤ → Tables → Tables
insert_friend a b t = if has_friend t a b then t else record t { friends = (a, b) ∷ t.friends }

-- DELETE FROM t_friend WHERE (idA=? AND idB=?) OR (idA=? AND idB=?)
unfoldable pub delete_friends : ℤ → ℤ → Tables → Tables
delete_friends a b t = record t {
  friends = keep_if (λ row. not (is_pair a b row || is_pair b a row)) t.friends;
}

-- requester_id=? AND target_id=?
abbrev pub is_request : ℤ → ℤ → FriendRequestRow → Bool
is_request a b row = int_eq row.requester_id a && int_eq row.target_id b

-- requester_id=? AND target_id=? AND status=0
abbrev pub is_pending : ℤ → ℤ → FriendRequestRow → Bool
is_pending a b row = is_request a b row && row.status == 0

-- INSERT ... ON CONFLICT(requester_id,target_id) DO UPDATE SET status=0, ...
unfoldable pub upsert_request : ℤ → ℤ → ℕ → Tables → Tables
upsert_request a b now t =
    if any_of (is_request a b) t.friend_requests
    then record t {
      friend_requests =
          update_if (is_request a b)
            (λ row. record row { status = 0; created_at = now; updated_at = now })
            t.friend_requests;
    }
    else record t {
      friend_requests =
          record { requester_id = a; target_id = b; status = 0; created_at = now; updated_at = now }
          ∷ t.friend_requests;
    }

-- UPDATE friend_requests SET status=?,updated_at=? WHERE requester_id=? AND target_id=? AND status=0
unfoldable pub set_pending : ℤ → ℤ → ℕ → ℕ → Tables → Tables
set_pending a b status now t = record t {
  friend_requests =
      update_if (is_pending a b) (λ row. record row { status = status; updated_at = now })
        t.friend_requests;
}

unfoldable pub is_friend : ℤ → ℤ → Sql Bool
is_friend a b = read (λ t. has_friend t a b) false

pub add_friend_bidirectional : ℤ → ℤ → Sql Bool
add_friend_bidirectional a b = do
  begun ← begin
  if not begun then pure false else do
    prepared ← prepare
    if not prepared then abort else do
      done ← step (λ t. some (insert_friend a b t))
      if not done then abort else do
        prepared' ← prepare
        if not prepared' then abort else do
          done' ← step (λ t. some (insert_friend b a t))
          if not done'
              then abort
              else do committed ← commit; if not committed then abort else pure true

pub create_friend_request : ℤ → ℤ → ℕ → Sql Bool
create_friend_request requester target now =
    if not (is_pos requester) || not (is_pos target) || int_eq requester target
    then pure false
    else do
      prepared ← prepare
      if not prepared then pure false else step (λ t. some (upsert_request requester target now t))

-- COMMIT, with a rollback if it fails.
abbrev finish : Sql Bool
finish = do committed ← commit; if not committed then abort else pure true

-- The part of resolveFriendRequest under `if (accept)`, with the COMMIT behind it.
unfoldable pub resolve_accepted : ℤ → ℤ → ℕ → Sql Bool
resolve_accepted requester target now = do
  prepared ← prepare
  if not prepared then abort else do
    done ← step (λ t. some (insert_friend requester target t))
    if not done then abort else do
      done' ← step (λ t. some (insert_friend target requester t))
      if not done' then abort else do
        prepared' ← prepare
        if not prepared' then abort else do
          reversed ← step (λ t. some (set_pending target requester 1 now t))
          if not reversed then abort else finish

pub resolve_friend_request : ℤ → ℤ → Bool → ℕ → Sql Bool
resolve_friend_request requester target accept now = do
  begun ← begin
  if not begun then pure false else do
    prepared ← prepare
    if not prepared then abort else do
      updated ←
          step_one (λ t. count_if (is_pending requester target) t.friend_requests)
            (λ t. some (set_pending requester target (if accept then 1 else 2) now t))
      if not updated
          then abort
          else if accept
          then resolve_accepted requester target now
          else finish

pub remove_friend_bidirectional : ℤ → ℤ → Sql Bool
remove_friend_bidirectional a b =
    if not (is_pos a) || not (is_pos b) || int_eq a b then pure false else do
      begun ← begin
      if not begun then pure false else do
        prepared ← prepare
        if not prepared then abort else do
          done ← step (λ t. some (delete_friends a b t))
          if not done then abort else finish
