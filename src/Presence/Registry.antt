-- ===== src/Presence/Registry.antt =====
-- About the methods of Presence.cpp: the map as a table of users.
use improject.Base.{
  ℕ, ℤ, List, [], ◌∷◌, Bool, true, ◌≡◌, ◌≢◌, refl, ◌∙◌, Option, none, some, arith, ◌==◌,
  if◌then◌else◌, int_eq, int_eq_iff, int_eq_refl,
}
use improject.Presence.{Entry, Online, find, set, erase, get, replace, offline, touch}

-- A session that can be looked up: what a reader of the map sees.
pub find-set :
    (user other : ℤ) (e : Entry) (m : Online)
    → find other (set user e m) ≡ (if int_eq user other then some e else find other m)
unfolding find set
find-set user other e [] = refl
find-set user other e ((key, old) ∷ m) = ground (
  arith,
  int_eq_iff key user,
  int_eq_iff key other,
  int_eq_iff user other,
  find-set user other e m,
)

pub find-erase :
    (user other : ℤ) (m : Online)
    → find other (erase user m) ≡ (if int_eq user other then none else find other m)
unfolding find erase
find-erase user other [] = ground arith
find-erase user other ((key, old) ∷ m) = ground (
  arith,
  int_eq_iff key user,
  int_eq_iff key other,
  int_eq_iff user other,
  find-erase user other m,
)

-- What the mutex lets other threads see of the map: a call of Presence with its arguments.
pub data PresenceCall : Type 0 where
  online_call offline_call : ℤ → ℕ → ℕ → PresenceCall
  touch_call : ℤ → ℕ → PresenceCall

module _ (alive : ℕ → Bool) where
  abbrev pub perform : PresenceCall → Online → Online
  perform (online_call user s now) m = (replace alive user s now m).1
  perform (offline_call user s now) m = offline alive user s m
  perform (touch_call user now) m = touch alive user now m

  -- The specification: a table with one entry for each user that is online.
  abbrev pub specified : PresenceCall → (ℤ → Option Entry) → ℤ → Option Entry
  specified (online_call user s now) table other =
      if int_eq user other then some (record { sess = s; last_active = now }) else table other
  specified (offline_call user s now) table other =
      if int_eq user other
      then (elim (table other) [
        | none ↦ none
        | some e ↦ if alive e.sess then (if e.sess == s then none else some e) else some e
      ])
      else table other
  specified (touch_call user now) table other =
      if int_eq user other
      then (elim (table other) [ none ↦ none | some e ↦ some (record e { last_active = now }) ])
      else table other

  pub find-perform :
      (c : PresenceCall) (m : Online) (other : ℤ)
      → find other (perform c m) ≡ specified c (λ u. find u m) other
  unfolding replace offline touch get
  find-perform (online_call user s now) m other = find-set user other _ m
  find-perform (offline_call user s now) m other =
      ground (arith, int_eq_iff user other, find-erase user other m)
  find-perform (touch_call user now) m other = touch_lem (find user m) refl
    where
      touch_lem :
          (o : Option Entry)
          → find user m ≡ o
          → find other (elim o [ none ↦ m | some e ↦ set user (record e { last_active = now }) m ])
            ≡ specified (touch_call user now) (λ u. find u m) other
      touch_lem none h = ground (arith, int_eq_iff user other)
      touch_lem (some e) h =
          ground
            (arith, int_eq_iff user other, find-set user other (record e { last_active = now }) m)

  abbrev pub perform_all : List PresenceCall → Online
  perform_all [] = []
  perform_all (c ∷ cs) = perform c (perform_all cs)

  abbrev pub specified_all : List PresenceCall → ℤ → Option Entry
  specified_all [] other = none
  specified_all (c ∷ cs) other = specified c (specified_all cs) other

  specified_ext :
      (c : PresenceCall) (f g : ℤ → Option Entry) (other : ℤ)
      → f other ≡ g other
      → specified c f other ≡ specified c g other
  specified_ext (online_call user s now) f g other h = ground arith
  specified_ext (offline_call user s now) f g other h = ground arith
  specified_ext (touch_call user now) f g other h = ground arith

  -- However logins, disconnections and activity interleave (the newest call first), a look-up in
  -- the map finds what the table of the specification holds: the entry of the last login, removed
  -- only by a disconnection of that very session while it can be locked, with the time of its last
  -- activity.
  pub find-perform_all :
      (calls : List PresenceCall) (user : ℤ)
      → find user (perform_all calls) ≡ specified_all calls user
  unfolding find
  find-perform_all [] user = refl
  find-perform_all (c ∷ cs) user =
      find-perform c (perform_all cs) user
      ∙ specified_ext c (λ u. find u (perform_all cs)) (specified_all cs) user
          (find-perform_all cs user)

  -- When a user logs in on a second connection while the first is online, the login reports the
  -- first one, and the late disconnection of the first one leaves the second one online.
  pub get-offline-replace :
      (user : ℤ) (old s now : ℕ) (m : Online)
      → get alive user m ≡ some old
      → old ≢ s
      → alive s ≡ true
      → ((replace alive user s now m).0 ≡ some old)
        × (get alive user (offline alive user old (replace alive user s now m).1) ≡ some s)
  unfolding replace get offline
  get-offline-replace user old s now m h differ living = (
    h,
    ground (
      arith,
      int_eq_refl user,
      differ,
      find-set user user (record { sess = s; last_active = now }) m,
      find-erase user user (set user (record { sess = s; last_active = now }) m),
    ),
  )
