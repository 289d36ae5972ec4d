-- ===== src/Server/Binding/Ids.antt =====
-- About the ids of the users that a login finds in the tables.
use mathlib.Core.Option.{some-injective}
use improject.Base.{
  ℕ, ℤ, pos, List, [], ◌∷◌, Bool, true, false, Option, none, some, Bytes, ◌≡◌, refl, sym, subst,
  ◌∙◌, ap, arith, ◌||◌, if◌then◌else◌, is_pos, is_empty, int_eq, All, find_if,
}
use improject.Db.Tables.{Tables, UserRow, AuthSessionRow, AuthSessionRecord}
use improject.Db.Sql.{Conn, Sql, pure, ◌>>=◌, next_call}
use improject.Db.Users.{
  has_tel, failed, login_not_exist, Passwords, check_password, login_user, login_row, login_success,
}
use improject.Db.AuthSessions.{has_access, record_of, find_by_access_hash}
use improject.Tokens.{Access, checked_access, validate_access}

-- The ids in the tables are positive.
abbrev pub PositiveIds : Tables → Type 0
PositiveIds t =
    All (λ (row : UserRow). is_pos row.id ≡ true) t.users
    × All (λ (row : AuthSessionRow). is_pos row.user_id ≡ true) t.auth_sessions

-- What a pooled connection reads.
abbrev pub committed : Conn → Tables
committed c = elim c.saved [ none ↦ c.tables | some t ↦ t ]

find_if-All :
    {A : Type 0} (P : A → Type 0) (p : A → Bool) (xs : List A) (x : A)
    → All P xs
    → find_if p xs ≡ some x
    → P x
find_if-All P p [] x h e = cc
find_if-All P p (y ∷ ys) x (h, hs) e = split (p y) (find_if-All P p ys x hs) e
  where
    split :
        (b : Bool)
        → (find_if p ys ≡ some x → P x)
        → (if b then some y else find_if p ys) ≡ some x
        → P x
    split true rest e = subst P (some-injective y x e) h
    split false rest e = rest e

check_password-id :
    (passwords : Passwords) (salt pass : Bytes) (row : UserRow) (c : Conn)
    → (check_password passwords salt pass row c).0.1 ≡ row.id
unfolding check_password
check_password-id passwords salt pass row c = ground arith

pub login_user-positive :
    (passwords : Passwords) (salt tel pass : Bytes) (c : Conn)
    → PositiveIds (committed c)
    → let r = login_user passwords salt tel pass (pos 0) c in
      int_eq r.0.0 login_success ≡ true → is_pos r.0.1 ≡ true
unfolding login_user login_row int_eq
login_user-positive passwords salt tel pass c h =
    split (find_if (has_tel tel) (committed c).users) refl (c.works c.calls)
  where
    Answered : (Option (Option UserRow)) → Type 0
    Answered o =
        let r =
          (elim o as (λ x. Sql (ℤ × ℤ)) [
            | none ↦ pure (failed, pos 0)
            | some found ↦ elim found [
              | none ↦ pure (login_not_exist, pos 0)
              | some row ↦ check_password passwords salt pass row
            ]
          ])
            (next_call c) in
        int_eq r.0.0 login_success ≡ true → is_pos r.0.1 ≡ true

    split :
        (o : Option UserRow)
        → find_if (has_tel tel) (committed c).users ≡ o
        → (works : Bool) → Answered (if works then some o else none)
    split o e false k = ground arith
    split none e true k = ground arith
    split (some row) e true k =
        ap is_pos (check_password-id passwords salt pass row (next_call c))
        ∙ find_if-All (λ (row : UserRow). is_pos row.id ≡ true) (has_tel tel) (committed c).users
            row h.0 e

checked_access-positive :
    (o : Option AuthSessionRecord) (session device : Bytes) (now : ℕ) (a : Access)
    → ((r : AuthSessionRecord) → o ≡ some r → is_pos r.user_id ≡ true)
    → checked_access o session device now ≡ some a
    → is_pos a.user_id ≡ true
checked_access-positive none session device now a h e = cc
checked_access-positive (some r) session device now a h e = ground (arith, h r refl, e)

find_by_access_hash-positive :
    (hash : Bytes) (c : Conn) (r : AuthSessionRecord)
    → PositiveIds (committed c)
    → (find_by_access_hash hash c).0 ≡ some r
    → is_pos r.user_id ≡ true
unfolding find_by_access_hash
find_by_access_hash-positive hash c r h e =
    split (find_if (has_access hash) (committed c).auth_sessions) refl (c.works c.calls) e
  where
    split :
        (o : Option AuthSessionRow)
        → find_if (has_access hash) (committed c).auth_sessions ≡ o
        → (works : Bool) → (if works then record_of o else none) ≡ some r
        → is_pos r.user_id ≡ true
    split o e false k = cc
    split none e true k = cc
    split (some row) e true k =
        sym (ap (λ (a : AuthSessionRecord). is_pos a.user_id) (some-injective row.auth r k))
        ∙ find_if-All (λ (row : AuthSessionRow). is_pos row.user_id ≡ true) (has_access hash)
            (committed c).auth_sessions row h.1 e

pub validate_access-positive :
    (hash : Bytes → Bytes) (token session device : Bytes) (now : ℕ) (c : Conn) (a : Access)
    → PositiveIds (committed c)
    → (validate_access hash token session device now c).0 ≡ some a
    → is_pos a.user_id ≡ true
unfolding validate_access
validate_access-positive hash token session device now c a h e =
    split (is_empty token || is_empty device) e
  where
    found : Option AuthSessionRecord × Conn
    found = find_by_access_hash (hash token) c

    split :
        (b : Bool)
        → ((if b then pure {A = Option Access} none else do
          found ← find_by_access_hash (hash token)
          pure (checked_access found session device now))
            c).0
          ≡ some a
        → is_pos a.user_id ≡ true
    split true e = cc
    split false e =
        checked_access-positive found.0 session device now a
          (λ r k. find_by_access_hash-positive (hash token) c r h k) e
