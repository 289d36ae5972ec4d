-- ===== src/Db/Users/Register.antt =====
-- About registerUser of Database.cpp: its outcomes.
use improject.Base.{
  ℕ, zero, ℤ, suc, List, [], ◌∷◌, Bool, true, false, ◌&&◌, Option, none, some, Bytes, ◌≡◌, ◌↔◌,
  refl, sym, subst, ◌⊎◌, inl, inr, arith, any_of, find_if,
}
use improject.Db.Tables.{Tables, UserRow}
use improject.Db.Sql.{Conn, next_call}
use improject.Db.Users.{
  Passwords, failed, register_succ, register_nick_exists, register_tel_exists, has_name, has_tel,
  new_row, insert_user, write_user, add_user, register_user,
}

-- The engine carries out the next calls.
abbrev pub carries_out : ℕ → Conn → Bool
carries_out zero c = true
carries_out (suc n) c = c.works c.calls && carries_out n (next_call c)

-- The tables with the new account.
abbrev pub with_account : Bytes → Bytes → Bytes → Tables → Tables
with_account nick tel stored t = record t {
  users = new_row t.next_user nick tel stored ∷ t.users;
  next_user = suc t.next_user;
}

-- What a registration on the connection `c` may give; it makes six calls of the engine.
pub data Registered (passwords : Passwords) (salt nick tel pass : Bytes) (c : Conn) (r : ℤ × Conn)
    : Type 0 where
  created :
      (stored : Bytes)
      → passwords.hash salt pass ≡ some stored
      → r.0 ≡ register_succ
      → any_of (has_name nick) c.tables.users ≡ false
      → any_of (has_tel tel) c.tables.users ≡ false
      → r.1.tables ≡ with_account nick tel stored c.tables
      → Registered passwords salt nick tel pass c r
  nick_taken :
      r.0 ≡ register_nick_exists
      → any_of (has_name nick) c.tables.users ≡ true
      → r.1.tables ≡ c.tables
      → Registered passwords salt nick tel pass c r
  tel_taken :
      r.0 ≡ register_tel_exists
      → any_of (has_tel tel) c.tables.users ≡ true
      → (any_of (has_name nick) c.tables.users ≡ false) ⊎ (carries_out 6 c ≡ false)
      → r.1.tables ≡ c.tables
      → Registered passwords salt nick tel pass c r
  gave_up :
      r.0 ≡ failed
      → (passwords.hash salt pass ≡ none) ⊎ (carries_out 6 c ≡ false)
      → r.1.tables ≡ c.tables
      → Registered passwords salt nick tel pass c r

any_of-find_if :
    (p : UserRow → Bool) (users : List UserRow)
    → (find_if p users ≡ none) ↔ (any_of p users ≡ false)
any_of-find_if p [] = ground arith
any_of-find_if p (u ∷ us) = ground (arith, any_of-find_if p us)

-- The four answers, each with what it says.
add_user-answers :
    (nick tel stored : Bytes) (c : Conn)
    → c.saved ≡ none
    → let r = add_user nick tel stored c in
      let named = any_of (has_name nick) c.tables.users in
      let called = any_of (has_tel tel) c.tables.users in
      ((r.0 ≡ register_succ)
        × (named ≡ false)
        × (called ≡ false)
        × (r.1.tables ≡ with_account nick tel stored c.tables))
      ⊎ (((r.0 ≡ register_nick_exists) × (named ≡ true) × (r.1.tables ≡ c.tables))
          ⊎ (((r.0 ≡ register_tel_exists)
                × (called ≡ true)
                × ((named ≡ false) ⊎ (carries_out 6 c ≡ false))
                × (r.1.tables ≡ c.tables))
              ⊎ ((r.0 ≡ failed) × (carries_out 6 c ≡ false) × (r.1.tables ≡ c.tables))))
unfolding add_user write_user insert_user
add_user-answers nick tel stored c h = ground (
  arith,
  any_of-find_if (has_name nick) c.tables.users,
  any_of-find_if (has_tel tel) c.tables.users,
)

-- Every outcome of registerUser outside a transaction. An account is created, under the next id and
-- with the hash of the password, only if neither its name nor its phone number is taken; the answer
-- that the name is taken is given only if it is; the answer that the phone number is taken only if it
-- is, and the name is not unless a call of the engine has failed; and no other failure is answered
-- unless the hash or a call of the engine has failed. Where no account is created, no table changes.
pub register_user-Outcome :
    (passwords : Passwords) (salt nick tel pass : Bytes) (c : Conn)
    → c.saved ≡ none
    → Registered passwords salt nick tel pass c (register_user passwords salt nick tel pass c)
unfolding register_user
register_user-Outcome passwords salt nick tel pass c h = split (passwords.hash salt pass) refl
  where
    split :
        (o : Option Bytes)
        → passwords.hash salt pass ≡ o
        → Registered passwords salt nick tel pass c (
            (elim o as (λ (o : Option Bytes). Conn → ℤ × Conn) [
              | none ↦ (λ x. (failed, x))
              | some stored ↦ add_user nick tel stored
            ])
              c)
    split none e = gave_up refl (inl e) refl
    split (some stored) e = elim (add_user-answers nick tel stored c h) [
      | inl (succ, named, called, t) ↦ created stored e succ named called t
      | inr (inl (taken, named, t)) ↦ nick_taken taken named t
      | inr (inr (inl (taken, called, named, t))) ↦ tel_taken taken called named t
      | inr (inr (inr (fail, call, t))) ↦ gave_up fail (inr call) t
    ]

-- No two accounts share a name or a phone number.
abbrev pub DistinctUsers : List UserRow → Type 0
DistinctUsers [] = Unit
DistinctUsers (u ∷ us) =
    (any_of (has_name u.name) us ≡ false) × (any_of (has_tel u.tel) us ≡ false) × DistinctUsers us

-- Registering keeps names and phone numbers unique, whether it succeeds, is refused or fails.
pub register_user-Distinct :
    (passwords : Passwords) (salt nick tel pass : Bytes) (c : Conn)
    → DistinctUsers c.tables.users
    → c.saved ≡ none
    → DistinctUsers (register_user passwords salt nick tel pass c).1.tables.users
register_user-Distinct passwords salt nick tel pass c d h =
    elim (register_user-Outcome passwords salt nick tel pass c h) [
      | created stored e succ named called t ↦ keep t (named, called, d)
      | nick_taken taken named t ↦ keep t d
      | tel_taken taken called named t ↦ keep t d
      | gave_up fail why t ↦ keep t d
    ]
  where
    keep : {t t' : Tables} → t' ≡ t → DistinctUsers t.users → DistinctUsers t'.users
    keep e d = subst (λ x. DistinctUsers x.users) (sym e) d
