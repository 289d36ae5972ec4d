-- ===== src/Presence.antt =====
-- im_server/src/Presence.cpp: which session of a user is online, and when it last was active.
-- A Session is a number; `alive` says which weak_ptrs can still be locked, and `now` is time().
pub mod Registry
use improject.Base.{
  ℕ, ℤ, ◌-◌, List, [], ◌∷◌, Bool, true, false, not, Option, none, some, ◌==◌, ltb, ltb_ℤ,
  if◌then◌else◌, int_eq, keep_if,
}

pub record Entry : Type 0 where
  pub sess : ℕ
  pub last_active : ℕ

-- m_map, in the order of its keys.
abbrev pub Online : Type 0
Online = List (ℤ × Entry)

unfoldable pub find : ℤ → Online → Option Entry
find user [] = none
find user ((key, e) ∷ m) = let rest = find user m in if int_eq key user then some e else rest

-- m_map[userId] = e
unfoldable pub set : ℤ → Entry → Online → Online
set user e [] = (user, e) ∷ []
set user e ((key, old) ∷ m) =
    let rest = set user e m in
    if int_eq key user
    then (key, e) ∷ m
    else if ltb_ℤ user key
    then (user, e) ∷ (key, old) ∷ m
    else (key, old) ∷ rest

-- m_map.erase of the user's entry
unfoldable pub erase : ℤ → Online → Online
erase user m = keep_if (λ p. not (int_eq p.0 user)) m

module _ (alive : ℕ → Bool) where
  -- sess.lock()
  abbrev pub lock : Entry → Option ℕ
  lock e = if alive e.sess then some e.sess else none

  unfoldable pub online : ℤ → ℕ → ℕ → Online → Online
  online user s now m = set user (record { sess = s; last_active = now }) m

  unfoldable pub get : ℤ → Online → Option ℕ
  get user m = elim (find user m) [ none ↦ none | some e ↦ lock e ]

  -- The session that is replaced, and the map.
  unfoldable pub replace : ℤ → ℕ → ℕ → Online → Option ℕ × Online
  replace user s now m = (get user m, set user (record { sess = s; last_active = now }) m)

  -- The caller holds `s`.
  unfoldable pub offline : ℤ → ℕ → Online → Online
  offline user s m = elim (get user m) [
    | none ↦ m
    | some current ↦ if current == s then erase user m else m
  ]

  unfoldable pub is_online : ℤ → Online → Bool
  is_online user m = elim (get user m) [ none ↦ false | some s ↦ true ]

  unfoldable pub touch : ℤ → ℕ → Online → Online
  touch user now m = elim (find user m) [
    | none ↦ m
    | some e ↦ set user (record e { last_active = now }) m
  ]

  -- The sessions that have been silent for longer than `timeout`; an entry without a time gets one.
  unfoldable pub scan_stale : ℕ → ℕ → Online → List (ℤ × ℕ) × Online
  scan_stale timeout now [] = ([], [])
  scan_stale timeout now ((key, e) ∷ m) =
      let (stale, rest) = scan_stale timeout now m in
      if not (alive e.sess)
      then (stale, (key, e) ∷ rest)
      else if e.last_active == 0
      then (stale, (key, record e { last_active = now }) ∷ rest)
      else if ltb timeout (now - e.last_active)
      then ((key, e.sess) ∷ stale, (key, e) ∷ rest)
      else (stale, (key, e) ∷ rest)
