-- ===== src/Server/Routing.antt =====
-- About the routes of ProtocolRouter.cpp and Dispatcher.cpp.
use mathlib.Core.Option.{some-injective}
use improject.Base.{
  ℕ, [], ◌∷◌, Bool, true, false, Option, none, some, Bytes, ◌≡◌, refl, subst, ◌==◌, ==_iff,
  if◌then◌else◌, All,
}
use improject.World.{World, Act, done}
use improject.Server.{Handler, Routes, find_route, dispatch}

-- A property of all the routes, one after the other.
infixr 4 ◌∷∷◌
abbrev pub ◌∷∷◌ : {A B : Type 0} → A → B → A × B
a ∷∷ b = (a, b)

find_route-All :
    (Q : ℕ → Handler → Type 0) (type : ℕ) (routes : Routes) (h : Handler)
    → All (λ (r : ℕ × Handler). Q r.0 r.1) routes
    → find_route type routes ≡ some h
    → Q type h
unfolding find_route
find_route-All Q type [] h all e = cc
find_route-All Q type ((t, k) ∷ routes) h (q, all) e =
    split (t == type) refl (find_route-All Q type routes h all) e
  where
    split :
        (b : Bool)
        → (t == type) ≡ b
        → (find_route type routes ≡ some h → Q type h)
        → (if b then some k else find_route type routes) ≡ some h
        → Q type h
    split true same rest e =
        subst (λ x. Q x h) ((==_iff t type).0 same) (subst (Q t) (some-injective k h e) q)
    split false same rest e = rest e

-- What every route does, and what a packet without a route does, a dispatched packet does.
pub dispatch-All :
    (P : ℕ → World → World → Type 0) (routes : Routes) (s type : ℕ) (payload : Bytes) (w : World)
    → All (λ (r : ℕ × Handler). P r.0 w (r.1 s payload w).1) routes
    → P type w w
    → P type w (dispatch routes s type payload w).1
unfolding dispatch
dispatch-All P routes s type payload w all none_lem = split (find_route type routes) refl
  where
    split :
        (o : Option Handler)
        → find_route type routes ≡ o
        → P type w ((elim o as (λ x. Act (Unit {0})) [ none ↦ done | some h ↦ h s payload ]) w).1
    split none e = none_lem
    split (some h) e = find_route-All (λ t k. P t w (k s payload w).1) type routes h all e
