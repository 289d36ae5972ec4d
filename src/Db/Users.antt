-- ===== src/Db/Users.antt =====
-- Database.cpp: accounts. Argon2id and the hash of legacy accounts are parameters; `salt` is what a
-- call draws. A text is bound as a C string: the model is of texts without NUL.
pub mod Login
pub mod Register
use improject.Base.{
  ℕ, ℤ, pos, negsuc, suc, List, [], ◌∷◌, ◌++◌, map, Bool, true, false, not, ◌&&◌, ◌||◌, Option,
  none, some, Bytes, ◌==◌, ltb, if◌then◌else◌, is_pos, int_eq, bytes_eq, any_of, find_if, keep_if,
  update_if, count_if, sort_by, codes,
}
use improject.Db.Tables.{Tables, UserRow, UserRecord, FriendRequestRow, FriendRequestRecord}
use improject.Db.Sql.{Sql, pure, ◌>>=◌, ◌>>◌, prepare, rollback, step, step_one, step_row, read}

abbrev pub register_succ : ℤ
register_succ = pos 1

abbrev pub register_nick_exists : ℤ
register_nick_exists = pos 2

abbrev pub register_tel_exists : ℤ
register_tel_exists = pos 3

abbrev pub login_success : ℤ
login_success = pos 0

abbrev pub login_not_exist : ℤ
login_not_exist = pos 1

abbrev pub login_pass_error : ℤ
login_pass_error = pos 2

abbrev pub failed : ℤ
failed = negsuc 0

-- The password library; `hash` may throw.
pub record Passwords : Type 0 where
  pub hash : Bytes → Bytes → Option Bytes
  pub verify : Bytes → Bytes → Bool
  pub sha256_hex : Bytes → Bytes

-- name=?
abbrev pub has_name : Bytes → UserRow → Bool
has_name nick row = bytes_eq row.name nick

-- tel=?
abbrev pub has_tel : Bytes → UserRow → Bool
has_tel tel row = bytes_eq row.tel tel

-- id=?
abbrev pub has_id : ℤ → UserRow → Bool
has_id id row = int_eq row.id id

-- The UTF-8 bytes of the first signature of an account.
abbrev pub default_feeling : Bytes
default_feeling =
    229 ∷ 138 ∷ 170 ∷ 229 ∷ 138 ∷ 155 ∷ 229 ∷ 174 ∷ 158 ∷ 231 ∷ 142 ∷ 176 ∷ 232 ∷ 180 ∷ 162 ∷ 229
    ∷ 175 ∷ 140 ∷ 232 ∷ 135 ∷ 170 ∷ 231 ∷ 148 ∷ 177 ∷ []

-- The row of a new account.
abbrev pub new_row : ℕ → Bytes → Bytes → Bytes → UserRow
new_row id nick tel stored = record {
  id = pos id;
  name = nick;
  tel = tel;
  passwd = stored;
  salt = [];
  password_algo = codes "argon2id";
  feeling = default_feeling;
  iconid = 3;
}

-- INSERT INTO t_user, under its two UNIQUE columns.
unfoldable pub insert_user : Bytes → Bytes → Bytes → Tables → Option Tables
insert_user nick tel stored t =
    if any_of (has_name nick) t.users || any_of (has_tel tel) t.users
    then none
    else some (record t {
      users = new_row t.next_user nick tel stored ∷ t.users;
      next_user = suc t.next_user;
    })

abbrev give_up : Sql ℤ
give_up = do rollback; pure failed

-- `some` where a row passes.
abbrev exists : (UserRow → Bool) → Tables → Option UserRow
exists p t = find_if p t.users

-- The INSERT of registerUser.
unfoldable pub write_user : Bytes → Bytes → Bytes → Sql ℤ
unfolding insert_user
write_user nick tel stored = do
  prepared ← prepare
  if not prepared then give_up else do
    done ← step (insert_user nick tel stored)
    pure (if done then register_succ else failed)

-- The task of registerUser.
unfoldable pub add_user : Bytes → Bytes → Bytes → Sql ℤ
unfolding write_user
add_user nick tel stored = do
  prepared ← prepare
  if not prepared then give_up else do
    named ← step_row (exists (has_name nick))
    elim named [
      | some row ↦ pure register_nick_exists
      | none ↦ do
        prepared' ← prepare
        if not prepared' then give_up else do
          called ← step_row (exists (has_tel tel))
          elim called [ some row ↦ pure register_tel_exists | none ↦ write_user nick tel stored ]
    ]

-- UPDATE t_user SET ... WHERE id=? AND password_algo='legacy_sha256'
abbrev pub is_legacy : ℤ → UserRow → Bool
is_legacy id row = int_eq row.id id && bytes_eq row.password_algo (codes "legacy_sha256")

unfoldable pub upgrade_user : ℤ → Bytes → Tables → Tables
upgrade_user id stored t = record t {
  users =
      update_if (is_legacy id)
        (λ row. record row { passwd = stored; salt = []; password_algo = codes "argon2id" })
        t.users;
}

-- The task of loginUser that replaces a legacy password.
unfoldable pub upgrade_password : ℤ → Bytes → Sql Bool
unfolding upgrade_user
upgrade_password id stored = do
  prepared ← prepare
  if not prepared
      then pure false
      else step_one (λ t. count_if (is_legacy id) t.users) (λ t. some (upgrade_user id stored t))

module _ (passwords : Passwords) where
  unfoldable pub register_user : Bytes → Bytes → Bytes → Bytes → Sql ℤ
  unfolding add_user
  register_user salt nick tel pass = elim (passwords.hash salt pass) [
    | none ↦ pure failed
    | some stored ↦ add_user nick tel stored
  ]

  -- loginUser, once the row is read: the result and outUserId. What the migration returns is not
  -- looked at.
  unfoldable pub check_password : Bytes → Bytes → UserRow → Sql (ℤ × ℤ)
  unfolding upgrade_password
  check_password salt pass row =
      if bytes_eq row.password_algo (codes "argon2id")
      then pure
          (if passwords.verify row.passwd pass then login_success else login_pass_error, row.id)
      else if not (bytes_eq (passwords.sha256_hex (row.salt ++ pass)) row.passwd)
      then pure (login_pass_error, row.id)
      else elim (passwords.hash salt pass) [
        | none ↦ pure (login_success, row.id)
        | some stored ↦ do upgrade_password row.id stored; pure (login_success, row.id)
      ]

  -- The look-up by tel: `none` where the statement is not prepared.
  unfoldable pub login_row : Bytes → Sql (Option (Option UserRow))
  login_row tel = read (λ t. some (find_if (has_tel tel) t.users)) none

  -- `caller` is what outUserId holds before the call.
  unfoldable pub login_user : Bytes → Bytes → Bytes → ℤ → Sql (ℤ × ℤ)
  unfolding login_row check_password
  login_user salt tel pass caller = do
    found ← login_row tel
    elim found [
      | none ↦ pure (failed, caller)
      | some o ↦ elim o [
        | none ↦ pure (login_not_exist, caller)
        | some row ↦ check_password salt pass row
      ]
    ]

abbrev pub user_record : UserRow → UserRecord
user_record row = record {
  id = row.id;
  icon_id = row.iconid;
  nick = row.name;
  feeling = row.feeling;
}

-- getUser; `none` is the result false.
unfoldable pub get_user : ℤ → Sql (Option UserRecord)
get_user id =
    read
      (λ t. elim (find_if (has_id id) t.users) [ none ↦ none | some row ↦ some (user_record row) ])
      none

unfoldable pub get_user_id_by_nick : Bytes → Sql ℤ
get_user_id_by_nick nick =
    read (λ t. elim (find_if (has_name nick) t.users) [ none ↦ pos 0 | some row ↦ row.id ]) (pos 0)

unfoldable pub get_user_nick_by_id : ℤ → Sql Bytes
unfolding get_user
get_user_nick_by_id id = do
  found ← get_user id
  pure (elim found [ none ↦ [] | some user ↦ user.nick ])

-- JOIN t_user u ON u.id = f.idB WHERE f.idA = ?
unfoldable pub friends_of : ℤ → List UserRow → List (ℤ × ℤ) → List UserRecord
friends_of id users [] = []
friends_of id users ((a, b) ∷ pairs) =
    let rest = friends_of id users pairs in
    if int_eq a id
    then (elim (find_if (has_id b) users) [ none ↦ rest | some row ↦ user_record row ∷ rest ])
    else rest

unfoldable pub get_friends : ℤ → Sql (List UserRecord)
unfolding friends_of
get_friends id = read (λ t. friends_of id t.users t.friends) []

-- The rows of the SELECT of pendingFriendRequests that join two users.
unfoldable pub joined_requests : List UserRow → List FriendRequestRow → List FriendRequestRecord
joined_requests users [] = []
joined_requests users (r ∷ rs) =
    let rest = joined_requests users rs in
    elim (find_if (has_id r.requester_id) users) [
      | none ↦ rest
      | some a ↦ elim (find_if (has_id r.target_id) users) [
        | none ↦ rest
        | some b ↦
            record {
              requester_id = r.requester_id;
              target_id = r.target_id;
              requester_nick = a.name;
              target_nick = b.name;
              created_at = r.created_at;
            }
            ∷ rest
      ]
    ]

-- r.status=0 AND (r.requester_id=? OR r.target_id=?)
abbrev pub is_pending_of : ℤ → FriendRequestRow → Bool
is_pending_of user row =
    row.status == 0 && (int_eq row.requester_id user || int_eq row.target_id user)

-- ORDER BY r.created_at DESC
abbrev pub later_request : FriendRequestRow → FriendRequestRow → Bool
later_request r s = ltb s.created_at r.created_at

unfoldable pub pending_friend_requests : ℤ → Sql (List FriendRequestRecord)
unfolding joined_requests
pending_friend_requests user =
    if not (is_pos user)
    then pure []
    else read
        (λ t.
          joined_requests t.users
            (sort_by later_request (keep_if (is_pending_of user) t.friend_requests)))
        []
