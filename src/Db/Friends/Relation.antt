-- ===== src/Db/Friends/Relation.antt =====
-- About sequences of the writes of Database.cpp on friends.
use improject.Base.{
  ℕ, ℤ, ◌≡◌, refl, List, [], ◌∷◌, Bool, true, false, not, ◌&&◌, ◌||◌, none, arith, if◌then◌else◌,
  int_eq, int_eq_iff, any_of, keep_if,
}
use improject.Db.Tables.{Tables}
use improject.Db.Sql.{Conn, AllOrNothing}
use improject.Db.Friends.{
  is_pair, has_friend, insert_friend, delete_friends, set_pending, create_friend_request,
  upsert_request, add_friend_bidirectional, resolve_friend_request, remove_friend_bidirectional,
}
use improject.Db.Friends.Atomic.{
  resolve_write, remove_friend-AllOrNothing, add_friend-AllOrNothing,
  resolve_friend_request-AllOrNothing,
}

pub has_friend-insert_friend :
    (a b x y : ℤ) (t : Tables)
    → has_friend (insert_friend a b t) x y ≡ (int_eq a x && int_eq b y || has_friend t x y)
unfolding insert_friend
has_friend-insert_friend a b x y t = ground (arith, int_eq_iff a x, int_eq_iff b y)

any_of-keep_if :
    (a b x y : ℤ) (rows : List (ℤ × ℤ))
    → any_of (is_pair x y) (keep_if (λ row. not (is_pair a b row || is_pair b a row)) rows)
      ≡ (any_of (is_pair x y) rows && not (is_pair a b (x, y) || is_pair b a (x, y)))
any_of-keep_if a b x y [] = refl
any_of-keep_if a b x y ((u, v) ∷ rows) = ground (
  arith,
  any_of-keep_if a b x y rows,
  int_eq_iff u x,
  int_eq_iff v y,
  int_eq_iff u a,
  int_eq_iff v b,
  int_eq_iff u b,
  int_eq_iff v a,
  int_eq_iff x a,
  int_eq_iff y b,
  int_eq_iff x b,
  int_eq_iff y a,
)

pub has_friend-delete_friends :
    (a b x y : ℤ) (t : Tables)
    → has_friend (delete_friends a b t) x y
      ≡ (has_friend t x y && not (is_pair a b (x, y) || is_pair b a (x, y)))
unfolding delete_friends
has_friend-delete_friends a b x y t = any_of-keep_if a b x y t.friends

-- Friendship goes both ways.
pub record IsSymmetric (t : Tables) : Type 0 where
  pub both : (x y : ℤ) → has_friend t x y ≡ has_friend t y x

insert_pair-IsSymmetric :
    (a b : ℤ) (t : Tables) → IsSymmetric t → IsSymmetric (insert_friend b a (insert_friend a b t))
insert_pair-IsSymmetric a b t s = record {
  both = λ x y. ground (
    arith,
    s.both x y,
    has_friend-insert_friend b a x y (insert_friend a b t),
    has_friend-insert_friend b a y x (insert_friend a b t),
    has_friend-insert_friend a b x y t,
    has_friend-insert_friend a b y x t,
  );
}

delete-IsSymmetric : (a b : ℤ) (t : Tables) → IsSymmetric t → IsSymmetric (delete_friends a b t)
delete-IsSymmetric a b t s = record {
  both = λ x y.
      ground (
        arith,
        s.both x y,
        has_friend-delete_friends a b x y t,
        has_friend-delete_friends a b y x t,
      );
}

set_pending-IsSymmetric :
    (a b : ℤ) (status now : ℕ) (t : Tables)
    → IsSymmetric t
    → IsSymmetric (set_pending a b status now t)
unfolding set_pending
set_pending-IsSymmetric a b status now t s = record { both = s.both }

upsert-IsSymmetric :
    (a b : ℤ) (now : ℕ) (t : Tables) → IsSymmetric t → IsSymmetric (upsert_request a b now t)
unfolding upsert_request
upsert-IsSymmetric a b now t s = record { both = λ x y. ground (arith, s.both x y) }

resolve_write-IsSymmetric :
    (a b : ℤ) (accept : Bool) (now : ℕ) (t : Tables)
    → IsSymmetric t
    → IsSymmetric (resolve_write a b accept now t)
resolve_write-IsSymmetric a b true now t s =
    set_pending-IsSymmetric b a 1 now _
      (insert_pair-IsSymmetric a b _ (set_pending-IsSymmetric a b 1 now t s))
resolve_write-IsSymmetric a b false now t s = set_pending-IsSymmetric a b 2 now t s

-- What every write on friends keeps: the relation is symmetric and no transaction is left open.
pub record IsSound (c : Conn) : Type 0 where
  pub symmetric : IsSymmetric c.tables
  pub closed : c.saved ≡ none

AllOrNothing-IsSound :
    {write : Tables → Tables} {c : Conn} {r : Bool × Conn}
    → AllOrNothing write c r
    → IsSymmetric c.tables
    → IsSymmetric (write c.tables)
    → IsSound r.1
AllOrNothing-IsSound {write} {c} {r} a s w = record {
  symmetric = go r.0 a.written;
  closed = a.closed;
}
  where
    go : (b : Bool) → r.1.tables ≡ (if b then write c.tables else c.tables) → IsSymmetric r.1.tables
    go true e = rw e w
    go false e = rw e s

-- The calls that write friends or requests.
pub data FriendCall : Type 0 where
  adds removes : ℤ → ℤ → FriendCall
  requests : ℤ → ℤ → ℕ → FriendCall
  resolves : ℤ → ℤ → Bool → ℕ → FriendCall

pub perform : FriendCall → Conn → Conn
perform (adds a b) c = (add_friend_bidirectional a b c).1
perform (removes a b) c = (remove_friend_bidirectional a b c).1
perform (requests a b now) c = (create_friend_request a b now c).1
perform (resolves a b accept now) c = (resolve_friend_request a b accept now c).1

pub perform_all : List FriendCall → Conn → Conn
perform_all [] c = c
perform_all (call ∷ calls) c = perform_all calls (perform call c)

create_request-IsSound :
    (a b : ℤ) (now : ℕ) (c : Conn) → IsSound c → IsSound (create_friend_request a b now c).1
unfolding create_friend_request
create_request-IsSound a b now c s = record {
  symmetric = record {
    both = λ x y.
        ground
          (arith, s.symmetric.both x y, (upsert-IsSymmetric a b now c.tables s.symmetric).both x y);
  };
  closed = ground arith;
}

perform-IsSound : (call : FriendCall) (c : Conn) → IsSound c → IsSound (perform call c)
unfolding perform
perform-IsSound (adds a b) c s =
    AllOrNothing-IsSound (add_friend-AllOrNothing a b c s.closed) s.symmetric
      (insert_pair-IsSymmetric a b c.tables s.symmetric)
perform-IsSound (removes a b) c s =
    AllOrNothing-IsSound (remove_friend-AllOrNothing a b c s.closed) s.symmetric
      (delete-IsSymmetric a b c.tables s.symmetric)
perform-IsSound (requests a b now) c s = create_request-IsSound a b now c s
perform-IsSound (resolves a b accept now) c s =
    AllOrNothing-IsSound (resolve_friend_request-AllOrNothing a b accept now c s.closed) s.symmetric
      (resolve_write-IsSymmetric a b accept now c.tables s.symmetric)

-- From a connection with no open transaction and a friendship relation that is symmetric, any
-- sequence of writes on friends, with any of their engine calls failing, keeps the relation
-- symmetric and leaves no transaction open.
pub perform_all-IsSound :
    (calls : List FriendCall) (c : Conn) → IsSound c → IsSound (perform_all calls c)
unfolding perform_all
perform_all-IsSound [] c s = s
perform_all-IsSound (call ∷ calls) c s =
    perform_all-IsSound calls (perform call c) (perform-IsSound call c s)
