-- ===== src/Db/Users/Login.antt =====
-- About registerUser and loginUser of Database.cpp together.
use improject.Base.{
  ℤ, pos, suc, true, none, some, Bytes, ◌≡◌, arith, if◌then◌else◌, bytes_eq_refl, find_if, codes,
}
use improject.Db.Sql.{Conn}
use improject.Db.Users.{
  Passwords, register_succ, login_success, login_pass_error, has_tel, new_row, insert_user,
  write_user, add_user, register_user, check_password, login_row, login_user,
}

-- The new row is found by its phone number, and no transaction is open.
abbrev Registered : Bytes → Bytes → Bytes → Conn → Conn → Type 0
Registered nick tel stored c d =
    (d.saved ≡ none)
    × (find_if (has_tel tel) d.tables.users ≡ some (new_row c.tables.next_user nick tel stored))

write_user-Registered :
    (nick tel stored : Bytes) (c : Conn)
    → c.saved ≡ none
    → (write_user nick tel stored c).0 ≡ register_succ
    → Registered nick tel stored c (write_user nick tel stored c).1
unfolding write_user insert_user
write_user-Registered nick tel stored c h e = ground (arith, bytes_eq_refl tel)

add_user-Registered :
    (nick tel stored : Bytes) (c : Conn)
    → c.saved ≡ none
    → (add_user nick tel stored c).0 ≡ register_succ
    → Registered nick tel stored c (add_user nick tel stored c).1
unfolding add_user
add_user-Registered nick tel stored c h e = ground (
  arith,
  write_user-Registered nick tel stored (record c { calls = suc (suc (suc (suc c.calls))) }),
)

module _ (passwords : Passwords) where
  register_user-Registered :
      (salt nick tel pass stored : Bytes) (c d : Conn)
      → c.saved ≡ none
      → passwords.hash salt pass ≡ some stored
      → register_user passwords salt nick tel pass c ≡ (register_succ, d)
      → Registered nick tel stored c d
  unfolding register_user
  register_user-Registered salt nick tel pass stored c d h hashed e =
      ground (arith, add_user-Registered nick tel stored c h)

  login_user-Registered :
      (nick tel stored salt tried : Bytes) (caller : ℤ) (c d : Conn)
      → Registered nick tel stored c d
      → d.works d.calls ≡ true
      → (login_user passwords salt tel tried caller d).0 ≡ (
        if passwords.verify stored tried then login_success else login_pass_error,
        pos c.tables.next_user,
      )
  unfolding login_user login_row check_password
  login_user-Registered nick tel stored salt tried caller c d (closed, found) w =
      ground (arith, bytes_eq_refl (codes "argon2id"))

  -- A login with the phone number of an account that was just registered is answered by the new
  -- account's id, and succeeds exactly for a password that the stored hash verifies: `d` is what a
  -- registration that succeeded has left, outside a transaction, and the login's query is prepared.
  pub login_user-register_user :
      (salt nick tel pass stored salt' tried : Bytes) (caller : ℤ) (c d : Conn)
      → c.saved ≡ none
      → passwords.hash salt pass ≡ some stored
      → register_user passwords salt nick tel pass c ≡ (register_succ, d)
      → d.works d.calls ≡ true
      → (login_user passwords salt' tel tried caller d).0 ≡ (
        if passwords.verify stored tried then login_success else login_pass_error,
        pos c.tables.next_user,
      )
  login_user-register_user salt nick tel pass stored salt' tried caller c d h hashed e w =
      login_user-Registered nick tel stored salt' tried caller c d
        (register_user-Registered salt nick tel pass stored c d h hashed e) w
