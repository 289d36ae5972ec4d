-- ===== src/Ai/Rate.antt =====
-- About sequences of calls of AiRequestLimiter.cpp.
use improject.Base.{
  ℕ, ℤ, suc, ◌+◌, ◌≤◌, List, [], ◌∷◌, ◌++◌, Bool, true, false, not, ◌&&◌, Bytes, ◌≡◌, refl, sym,
  subst, arith, leb, max, if◌then◌else◌, length, int_eq, int_eq_iff, any_of, keep_if, count_if,
  any_of-keep_if,
}
use improject.Ai.{
  Limiter, limiter, Result, accepted, busy, rate_limited, duplicate, queue_full, drop_old,
  try_acquire, release, minute, at_least_one,
}

pub data LimiterCall : Type 0 where
  acquire : ℤ → Bytes → ℕ → LimiterCall
  finish : ℤ → LimiterCall

abbrev pub perform : LimiterCall → Limiter → Limiter
perform (acquire user id now) l = (try_acquire user id now l).1
perform (finish user) l = release user l

-- The calls so far, the newest first, on a new limiter.
abbrev pub perform_all : Limiter → List LimiterCall → Limiter
perform_all l [] = l
perform_all l (c ∷ cs) = perform c (perform_all l cs)

-- The time of the last request.
abbrev pub latest : List LimiterCall → ℕ
latest [] = 0
latest (acquire user id now ∷ cs) = max now (latest cs)
latest (finish user ∷ cs) = latest cs

-- The requests come in the order of their times.
abbrev pub InOrder : List LimiterCall → Type 0
InOrder [] = Unit
InOrder (acquire user id now ∷ cs) = (latest cs ≤ now) × InOrder cs
InOrder (finish user ∷ cs) = InOrder cs

abbrev is_accepted : Result → Bool
is_accepted accepted = true
is_accepted busy = false
is_accepted rate_limited = false
is_accepted duplicate = false
is_accepted queue_full = false

-- The times at which a request of the user was accepted, the newest first.
abbrev pub accepted_times : Limiter → ℤ → List LimiterCall → List ℕ
accepted_times l user [] = []
accepted_times l user (finish other ∷ cs) = accepted_times l user cs
accepted_times l user (acquire other id now ∷ cs) =
    let rest = accepted_times l user cs in
    if int_eq other user && is_accepted (try_acquire other id now (perform_all l cs)).0
    then now ∷ rest
    else rest

-- `t` is at most a minute before `now`.
abbrev pub within_minute : ℕ → ℕ → Bool
within_minute now t = leb now (t + minute)

count-drop_old :
    (n now : ℕ) (ts : List ℕ)
    → now ≤ n
    → count_if (within_minute n) (drop_old now ts) ≡ count_if (within_minute n) ts
unfolding drop_old
count-drop_old n now [] h = refl
count-drop_old n now (t ∷ ts) h = ground (arith, count-drop_old n now ts h)

count-append :
    (n t : ℕ) (ts : List ℕ)
    → count_if (within_minute n) (ts ++ t ∷ [])
      ≡ count_if (within_minute n) ts + (if within_minute n t then 1 else 0)
count-append n t [] = ground arith
count-append n t (x ∷ xs) = ground (arith, count-append n t xs)

count-bounded : (p : ℕ → Bool) (ts : List ℕ) → count_if p ts ≤ length ts
count-bounded p [] = ground arith
count-bounded p (t ∷ ts) = ground (arith, count-bounded p ts)

length-drop_old : (now : ℕ) (ts : List ℕ) → length (drop_old now ts) ≤ length ts
unfolding drop_old
length-drop_old now [] = ground arith
length-drop_old now (t ∷ ts) = ground (arith, length-drop_old now ts)

length-snoc : (t : ℕ) (ts : List ℕ) → length (ts ++ t ∷ []) ≡ suc (length ts)
length-snoc t [] = refl
length-snoc t (x ∷ xs) = ground (arith, length-snoc t xs)

-- One request leaves the entries of the last minute, and adds its own if it is accepted.
recent-try_acquire :
    (other user : ℤ) (id : Bytes) (now n : ℕ) (l : Limiter)
    → now ≤ n
    → let r = try_acquire other id now l in
      count_if (within_minute n) (r.1.recent user)
      ≡ count_if (within_minute n) (l.recent user)
        + (if int_eq other user && is_accepted r.0
            then (if within_minute n now then 1 else 0)
            else 0)
unfolding try_acquire
recent-try_acquire other user id now n l h = ground (
  arith,
  int_eq_iff other user,
  count-drop_old n now (l.recent other) h,
  count-append n now (drop_old now (l.recent other)),
)

-- The entries of a user stay within the rate.
length-try_acquire :
    (other user : ℤ) (id : Bytes) (now : ℕ) (l : Limiter)
    → length (l.recent user) ≤ l.per_minute
    → length ((try_acquire other id now l).1.recent user) ≤ l.per_minute
unfolding try_acquire
length-try_acquire other user id now l h = ground (
  arith,
  int_eq_iff other user,
  length-drop_old now (l.recent other),
  length-snoc now (drop_old now (l.recent other)),
)

-- What is set by the constructor stays.
per_minute-perform : (c : LimiterCall) (l : Limiter) → (perform c l).per_minute ≡ l.per_minute
unfolding try_acquire release
per_minute-perform (acquire user id now) l = ground arith
per_minute-perform (finish user) l = refl

recent-perform_all :
    (l : Limiter) (user : ℤ) (n : ℕ) (cs : List LimiterCall)
    → InOrder cs
    → latest cs ≤ n
    → count_if (within_minute n) (accepted_times l user cs)
      ≤ count_if (within_minute n) ((perform_all l cs).recent user)
unfolding release
recent-perform_all l user n [] o h = ground arith
recent-perform_all l user n (acquire other id now ∷ cs) (before, o) h = ground (
  arith,
  recent-try_acquire other user id now n (perform_all l cs),
  recent-perform_all l user n cs o,
)
recent-perform_all l user n (finish other ∷ cs) o h = recent-perform_all l user n cs o h

bounded-perform_all :
    (l : Limiter) (user : ℤ) (cs : List LimiterCall)
    → length (l.recent user) ≤ l.per_minute
    → (length ((perform_all l cs).recent user) ≤ l.per_minute)
      × ((perform_all l cs).per_minute ≡ l.per_minute)
unfolding release
bounded-perform_all l user [] h = (h, refl)
bounded-perform_all l user (acquire other id now ∷ cs) h = ground (
  arith,
  bounded-perform_all l user cs h,
  per_minute-perform (acquire other id now) (perform_all l cs),
  length-try_acquire other user id now (perform_all l cs),
)
bounded-perform_all l user (finish other ∷ cs) h = bounded-perform_all l user cs h

-- Whatever requests and completions a new limiter has seen, as long as they came in the order of
-- their times: in the minute that ends at the last request or later, no user has had more requests
-- accepted than the configured rate, or one where that is not positive.
pub count-accepted_times :
    (per_minute max_pending window user : ℤ) (cs : List LimiterCall) (now : ℕ)
    → InOrder cs
    → latest cs ≤ now
    → count_if (within_minute now) (accepted_times (limiter per_minute max_pending window) user cs)
      ≤ at_least_one per_minute
unfolding limiter
count-accepted_times per_minute max_pending window user cs now o h =
    let l = limiter per_minute max_pending window in
    omega (
      arith,
      recent-perform_all l user now cs o h,
      count-bounded (within_minute now) ((perform_all l cs).recent user),
      (bounded-perform_all l user cs (omega arith)).0,
    )

-- No user is in the list twice.
abbrev pub Distinct : List ℤ → Type 0
Distinct [] = Unit
Distinct (user ∷ users) = (any_of (int_eq user) users ≡ false) × Distinct users

-- The requests that are being answered: at most `bound`, of different users.
pub record Slots (bound : ℕ) (l : Limiter) : Type 0 where
  pub bounded : length l.in_flight ≤ bound
  pub distinct : Distinct l.in_flight

length-keep_if : (p : ℤ → Bool) (users : List ℤ) → length (keep_if p users) ≤ length users
length-keep_if p [] = ground arith
length-keep_if p (u ∷ us) = ground (arith, length-keep_if p us)

any_of-and :
    (p q : ℤ → Bool) (users : List ℤ)
    → any_of q users ≡ false
    → any_of (λ u. p u && q u) users ≡ false
any_of-and p q [] h = refl
any_of-and p q (u ∷ us) h = ground (arith, any_of-and p q us)

keep_if-Distinct : (p : ℤ → Bool) (users : List ℤ) → Distinct users → Distinct (keep_if p users)
keep_if-Distinct p [] d = tt
keep_if-Distinct p (u ∷ us) (alone, d) = ground (
  arith,
  keep_if-Distinct p us d,
  any_of-keep_if p (int_eq u) us,
  any_of-and p (int_eq u) us alone,
)

perform-Slots :
    (c : LimiterCall) (l : Limiter) → Slots l.max_pending l → Slots l.max_pending (perform c l)
unfolding try_acquire release
perform-Slots (acquire user id now) l v = ground arith
perform-Slots (finish user) l v = ground (
  arith,
  length-keep_if (λ other. not (int_eq user other)) l.in_flight,
  keep_if-Distinct (λ other. not (int_eq user other)) l.in_flight v.distinct,
)

max_pending-perform_all :
    (l : Limiter) (cs : List LimiterCall) → (perform_all l cs).max_pending ≡ l.max_pending
unfolding try_acquire release
max_pending-perform_all l [] = refl
max_pending-perform_all l (acquire user id now ∷ cs) = ground (arith, max_pending-perform_all l cs)
max_pending-perform_all l (finish user ∷ cs) = max_pending-perform_all l cs

bounded-Slots :
    (l : Limiter) (cs : List LimiterCall)
    → Slots l.max_pending l
    → Slots l.max_pending (perform_all l cs)
bounded-Slots l [] v = v
bounded-Slots l (c ∷ cs) v =
    let m = max_pending-perform_all l cs in
    subst (λ n. Slots n (perform_all l (c ∷ cs))) m
      (perform-Slots c (perform_all l cs)
        (subst (λ n. Slots n (perform_all l cs)) (sym m) (bounded-Slots l cs v)))

-- Whatever requests and completions a new limiter has seen: at most as many requests are being
-- answered as its second argument allows (one where that is not positive), and no two of one user.
pub perform_all-Slots :
    (per_minute max_pending window : ℤ) (cs : List LimiterCall)
    → Slots (at_least_one max_pending) (perform_all (limiter per_minute max_pending window) cs)
unfolding limiter
perform_all-Slots per_minute max_pending window cs =
    bounded-Slots (limiter per_minute max_pending window) cs (ground arith)
