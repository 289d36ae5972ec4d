-- ===== src/Handlers/Friend.antt =====
-- im_server/src/handlers/FriendHandler.cpp.
use improject.Base.{
  ℕ, ℤ, pos, [], map, Bool, not, ◌&&◌, ◌||◌, Option, none, some, Bytes, ◌==◌, if◌then◌else◌, is_pos,
  int_eq,
}
use improject.Wire.{utf8_truncate}
use improject.Db.Tables.{UserRecord, FriendRequestRecord}
use improject.Db.Users.{
  get_user, get_user_id_by_nick, get_user_nick_by_id, get_friends, pending_friend_requests,
}
use improject.Db.Friends.{
  is_friend, create_friend_request, resolve_friend_request, remove_friend_bidirectional,
}
use improject.Presence.{is_online}
use improject.Packets.{
  AddFriendRq, AddFriendRs, FriendRequestItem, DeleteFriendRs, add_friend_rq, add_friend_rs,
  delete_friend_rs, friend_request_list_rs, status_online, status_offline, add_friend_agree,
  add_friend_reject, add_friend_not_exist, add_friend_self, add_friend_already, add_friend_pending,
  add_friend_db_error, delete_friend_success, delete_friend_db_error, delete_friend_not_friend,
  delete_friend_invalid,
}
use improject.World.{Env, Act, ◌>>=◌, ◌>>◌, done, sql, gets, send, user_of, if_online, for_each}
use improject.Handlers.{send_friend_info}

-- `AddFriendRs error`, with its result and its nick.
abbrev pub add_friend_answer : ℕ → Bytes → AddFriendRs
add_friend_answer result nick = record {
  result = result;
  dest_id = pos 0;
  dest_nick = [];
  my_id = pos 0;
  my_nick = nick;
}

abbrev pub nick_or : Bytes → Option UserRecord → Bytes
nick_or nick none = nick
nick_or nick (some user) = user.nick

abbrev pub item_of : FriendRequestRecord → FriendRequestItem
item_of row = record {
  requester_id = row.requester_id;
  target_id = row.target_id;
  requester_nick = row.requester_nick;
  target_nick = row.target_nick;
  created_at = row.created_at;
}

module _ (env : Env) where
  -- The request is stored: the target's name, and the request itself if the target is online.
  unfoldable pub request_stored : ℕ → ℤ → AddFriendRq → Act (Unit {0})
  request_stored s friend rq = do
    target ← sql (get_user friend)
    if_online env friend (λ t. send t (add_friend_rq rq))
    send s (
        add_friend_rs (record (add_friend_answer add_friend_pending (nick_or rq.fri_nick target)) {
          my_id = friend;
        }))

  unfoldable pub on_add_friend : ℕ → Option AddFriendRq → Act (Unit {0})
  unfolding request_stored
  on_add_friend s none = done
  on_add_friend s (some packet) = do
    user ← gets (user_of s)
    if not (is_pos user) then done else do
      let rq : AddFriendRq = record packet { my_id = user }
      let answer = λ (result : ℕ). send s (add_friend_rs (add_friend_answer result rq.fri_nick))
      friend ← sql (get_user_id_by_nick (utf8_truncate rq.fri_nick 29))
      if int_eq friend (pos 0)
          then answer add_friend_not_exist
          else if int_eq user friend
          then answer add_friend_self
          else do
            friends ← sql (is_friend user friend)
            if friends then answer add_friend_already else do
              created ← sql (create_friend_request user friend env.now)
              if not created then answer add_friend_db_error else request_stored s friend rq

  -- One friend of the list that is sent to `to`.
  unfoldable pub send_status : ℕ → UserRecord → Act (Unit {0})
  send_status to friend = do
    online ← gets (λ w. is_online env.alive friend.id w.presence)
    send_friend_info to friend.id (if online then status_online else status_offline)

  -- The user's own record, and those of all friends.
  unfoldable pub send_friend_list : ℕ → ℤ → Act (Unit {0})
  unfolding send_status
  send_friend_list to user = do
    send_friend_info to user status_online
    friends ← sql (get_friends user)
    for_each friends (send_status to)

  -- Behind resolveFriendRequest.
  unfoldable pub request_resolved : ℕ → ℤ → AddFriendRs → Act (Unit {0})
  request_resolved s user rs = do
    if rs.result == add_friend_agree
        then (do
          send_friend_list s user
          if_online env rs.dest_id (λ t. send_friend_list t rs.dest_id))
        else done
    if_online env rs.dest_id (λ t. send t (add_friend_rs rs))

  unfoldable pub on_add_friend_reply : ℕ → Option AddFriendRs → Act (Unit {0})
  unfolding request_resolved
  on_add_friend_reply s none = done
  on_add_friend_reply s (some packet) = do
    user ← gets (user_of s)
    if not (is_pos user) then done else do
      let rs : AddFriendRs = record packet { my_id = user }
      if not (rs.result == add_friend_agree) && not (rs.result == add_friend_reject)
          then done
          else do
            resolved ←
                sql (resolve_friend_request rs.dest_id user (rs.result == add_friend_agree) env.now)
            if not resolved then done else request_resolved s user rs

  -- The message without fields parses or not.
  unfoldable pub on_friend_request_list : ℕ → Bool → Act (Unit {0})
  on_friend_request_list s parsed = if not parsed then done else do
    user ← gets (user_of s)
    if not (is_pos user) then done else do
      rows ← sql (pending_friend_requests user)
      send s (friend_request_list_rs (map item_of rows))

  abbrev pub delete_answer : ℕ → ℤ → ℤ → Bytes → DeleteFriendRs
  delete_answer result friend operator nick = record {
    result = result;
    friend_id = friend;
    operator_id = operator;
    operator_nick = nick;
  }

  unfoldable pub on_delete_friend : ℕ → Option ℤ → Act (Unit {0})
  on_delete_friend s none = done
  on_delete_friend s (some friend) = do
    user ← gets (user_of s)
    nick ← sql (get_user_nick_by_id user)
    let answer = λ (result : ℕ). send s (delete_friend_rs (delete_answer result friend user nick))
    if not (is_pos user) || not (is_pos friend) || int_eq user friend
        then answer delete_friend_invalid
        else do
          friends ← sql (is_friend user friend)
          if not friends then answer delete_friend_not_friend else do
            removed ← sql (remove_friend_bidirectional user friend)
            if not removed then answer delete_friend_db_error else do
              answer delete_friend_success
              if_online env friend (λ t.
                  send t (delete_friend_rs (delete_answer delete_friend_success user user nick)))
