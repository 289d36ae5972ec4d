-- ===== src/Ai/Duplicates.antt =====
-- About the request ids that AiRequestLimiter.cpp keeps.
use improject.Base.{
  ℕ, ℤ, ◌+◌, ◌≤◌, List, [], ◌∷◌, Bool, true, ◌&&◌, Bytes, ◌≡◌, arith, ◌==◌, int_eq_iff, int_eq_refl,
  bytes_eq, bytes_eq_refl, any_of,
}
use improject.Ai.{Limiter, accepted, duplicate, fresh, try_acquire, release}
use improject.Ai.Rate.{LimiterCall, acquire, finish, perform, perform_all, latest}

-- The entry of an id and its time.
abbrev is_entry : Bytes → ℕ → Bytes × ℕ → Bool
is_entry id t p = bytes_eq p.0 id && p.1 == t

any_of-fresh :
    (id : Bytes) (t window now : ℕ) (ids : List (Bytes × ℕ))
    → now ≤ t + window
    → any_of (is_entry id t) ids ≡ true
    → any_of (is_entry id t) (fresh window now ids) ≡ true
any_of-fresh id t window now [] h e = ground arith
any_of-fresh id t window now (p ∷ ps) h e = ground (arith, any_of-fresh id t window now ps h)

any_of-is_entry :
    (id : Bytes) (t : ℕ) (ids : List (Bytes × ℕ))
    → any_of (is_entry id t) ids ≡ true
    → any_of (λ p. bytes_eq p.0 id) ids ≡ true
any_of-is_entry id t [] e = ground arith
any_of-is_entry id t (p ∷ ps) e = ground (arith, any_of-is_entry id t ps)

-- The limiter remembers the id.
record Remembers (user : ℤ) (id : Bytes) (t window : ℕ) (l : Limiter) : Type 0 where
  held : any_of (is_entry id t) (l.seen user) ≡ true
  same : l.replay_window ≡ window

perform-Remembers :
    (c : LimiterCall) (user : ℤ) (id : Bytes) (t window : ℕ) (l : Limiter)
    → latest (c ∷ []) ≤ t + window
    → Remembers user id t window l
    → Remembers user id t window (perform c l)
unfolding try_acquire release
perform-Remembers (acquire other id' now) user id t window l h r =
    ground
      (arith, int_eq_iff other user, r.same, r.held, any_of-fresh id t window now (l.seen user))
perform-Remembers (finish other) user id t window l h r = record { held = r.held; same = r.same }

perform_all-Remembers :
    (cs : List LimiterCall) (user : ℤ) (id : Bytes) (t window : ℕ) (l : Limiter)
    → latest cs ≤ t + window
    → Remembers user id t window l
    → Remembers user id t window (perform_all l cs)
perform_all-Remembers [] user id t window l h r = r
perform_all-Remembers (acquire other id' now ∷ cs) user id t window l h r =
    perform-Remembers (acquire other id' now) user id t window (perform_all l cs) (omega arith)
      (perform_all-Remembers cs user id t window l (omega arith) r)
perform_all-Remembers (finish other ∷ cs) user id t window l h r =
    perform-Remembers (finish other) user id t window (perform_all l cs) (omega arith)
      (perform_all-Remembers cs user id t window l h r)

accepted-Remembers :
    (user : ℤ) (id : Bytes) (t : ℕ) (l : Limiter)
    → (try_acquire user id t l).0 ≡ accepted
    → Remembers user id t l.replay_window (try_acquire user id t l).1
unfolding try_acquire
accepted-Remembers user id t l e = ground (arith, int_eq_refl user, bytes_eq_refl id)

refused_duplicate :
    (user : ℤ) (id : Bytes) (t window now : ℕ) (l : Limiter)
    → now ≤ t + window
    → Remembers user id t window l
    → (try_acquire user id now l).0 ≡ duplicate
unfolding try_acquire
refused_duplicate user id t window now l h r = ground (
  arith,
  r.same,
  any_of-fresh id t window now (l.seen user) h r.held,
  any_of-is_entry id t (fresh window now (l.seen user)),
)

-- Once a request of a user is accepted, another one under its id is a duplicate until the replay
-- window has passed, whatever requests and completions come between within that window.
pub try_acquire-try_acquire :
    (user : ℤ) (id : Bytes) (t now : ℕ) (l : Limiter) (cs : List LimiterCall)
    → (try_acquire user id t l).0 ≡ accepted
    → latest cs ≤ t + l.replay_window
    → now ≤ t + l.replay_window
    → (try_acquire user id now (perform_all (try_acquire user id t l).1 cs)).0 ≡ duplicate
try_acquire-try_acquire user id t now l cs e h h' =
    refused_duplicate user id t l.replay_window now _ h'
      (perform_all-Remembers cs user id t l.replay_window _ h (accepted-Remembers user id t l e))
