-- ===== src/Db/Friends/Atomic.antt =====
-- About the writes of Database.cpp on friends, one by one.
use improject.Base.{ℕ, suc, ℤ, ◌≡◌, refl, Bool, true, false, none, some, arith, if◌then◌else◌}
use improject.Db.Tables.{Tables}
use improject.Db.Sql.{Conn, AllOrNothing}
use improject.Db.Friends.{
  insert_friend, delete_friends, set_pending, add_friend_bidirectional, resolve_accepted,
  resolve_friend_request, remove_friend_bidirectional,
}

-- What an accepted request adds to the tables, after its own row is updated.
abbrev pub accept_write : ℤ → ℤ → ℕ → Tables → Tables
accept_write requester target now t =
    set_pending target requester 1 now
      (insert_friend target requester (insert_friend requester target t))

-- What answering a request does to the tables.
abbrev pub resolve_write : ℤ → ℤ → Bool → ℕ → Tables → Tables
resolve_write requester target accept now t =
    let answered = set_pending requester target (if accept then 1 else 2) now t in
    if accept then accept_write requester target now answered else answered

module _ (a b : ℤ) (c : Conn) where
  -- On a connection with no open transaction, removing a friendship either deletes both directions
  -- and returns true, or leaves every table as it was and returns false; no transaction stays open.
  pub remove_friend-AllOrNothing :
      c.saved ≡ none → AllOrNothing (delete_friends a b) c (remove_friend_bidirectional a b c)
  unfolding remove_friend_bidirectional
  remove_friend-AllOrNothing h = ground arith

  -- On a connection with no open transaction, adding a friendship either inserts both directions and
  -- returns true, or leaves every table as it was and returns false; no transaction stays open.
  pub add_friend-AllOrNothing :
      c.saved ≡ none
      → AllOrNothing
          (λ t. insert_friend b a (insert_friend a b t))
          c
          (add_friend_bidirectional a b c)
  unfolding add_friend_bidirectional
  add_friend-AllOrNothing h = ground arith

-- Inside a transaction that began at `t`.
resolve_accepted_lem :
    (a b : ℤ) (now : ℕ) (c : Conn) (t : Tables)
    → c.saved ≡ some t
    → let r = resolve_accepted a b now c in
      (r.1.saved ≡ none) × (r.1.tables ≡ (if r.0 then accept_write a b now c.tables else t))
unfolding resolve_accepted
resolve_accepted_lem a b now c t h = ground arith

-- On a connection with no open transaction, answering a friend request either makes all its changes
-- and returns true, or leaves every table as it was and returns false: the request's status, and, if
-- it is accepted, both directions of the friendship and the status of a request the other way.
pub resolve_friend_request-AllOrNothing :
    (requester target : ℤ) (accept : Bool) (now : ℕ) (c : Conn)
    → c.saved ≡ none
    → AllOrNothing
        (resolve_write requester target accept now)
        c
        (resolve_friend_request requester target accept now c)
unfolding resolve_friend_request
resolve_friend_request-AllOrNothing a b true now c h = ground (
  arith,
  resolve_accepted_lem a b now
      (record c {
        tables = set_pending a b 1 now c.tables;
        saved = some c.tables;
        calls = suc (suc (suc c.calls));
      })
      c.tables refl,
)
resolve_friend_request-AllOrNothing a b false now c h = ground arith
