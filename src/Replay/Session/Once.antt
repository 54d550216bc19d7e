-- ===== src/Replay/Session/Once.antt =====
-- A program replays one dump, and never uses a guard that was destroyed.
use mathlib.Core.Path.{subst}
use krepe.Prelude.{
  ◌≡◌, refl, sym, ap, ◌∙◌, inl, inr, Bool, true, false, Option, none, some, List, [], ◌∷◌, arith,
  Result, err, Bool-cases, if◌then◌else◌,
}
use krepe.Replay.Error.{Error, already_initialized}
use krepe.Replay.Space.{Platform}
use krepe.Replay.Session.{
  Session, Machine, ScopeGuard, internal, user, set_guard, construct, destroy, initialize, finalize,
  reset_guard, reset_inputs,
}
use krepe.Replay.Session.Guards.{
  IsSession, construct-IsSession, construct_again, Stays, Stays-IsSession, destroy-IsSession,
}
use krepe.Replay.Session.Finalize.{finalize_cases}

-- What a program can do: the user's guard can be destroyed where there is one.
pub data Event : Type 0 where
  initializes : Event
  finalizes : Event
  constructs : Event
  destroys : Event
  resets : Bool → Event

unfoldable pub step : Machine → Event → Session → Session
step x initializes t = (initialize x t).1
step x finalizes t = (finalize t).1
step x constructs t = (construct x user t).1
step x destroys t = elim t.user_guard [ none ↦ t | some g ↦ destroy user t ]
step x (resets kokkos_runs) t = (reset_inputs x.platform kokkos_runs t).1

unfoldable pub run : Machine → List Event → Session → Session
run x [] t = t
run x (e ∷ es) t = run x es (step x e t)

reset-Stays :
    (p : Platform) (kokkos_runs : Bool) (t : Session) → Stays t (reset_inputs p kokkos_runs t).1
unfolding reset_inputs reset_guard
reset-Stays p kokkos_runs t = ground arith

-- Either nothing is published, because the program was initialized before, or a construction ends.
guarded-IsSession :
    (b : Bool) (t : Session) (r : Result Error (Unit {0}) × Session)
    → t.krepe_is_initialized ≡ b
    → IsSession t
    → (t.krepe_is_initialized ≡ false → IsSession r.1)
    → IsSession (if b then (err already_initialized, t) else r).1
guarded-IsSession true t r e w k = w
guarded-IsSession false t r e w k = k e

pub step-IsSession : (x : Machine) (e : Event) (t : Session) → IsSession t → IsSession (step x e t)
unfolding step initialize finalize
step-IsSession x initializes t w =
    guarded-IsSession t.krepe_is_initialized t (construct x internal t) refl w
      (λ f. construct-IsSession x internal t f w)
step-IsSession x finalizes t w = elim (finalize_cases t) [
  | inl (same, failed) ↦ subst IsSession (sym same) w
  | inr ((g, found), gone) ↦ subst IsSession (sym gone) (destroy-IsSession internal t g found w)
]
step-IsSession x constructs t w = elim (Bool-cases t.krepe_is_initialized) [
  | inl before ↦ subst IsSession (sym (ap (λ r. r.1) (construct_again x user t before))) w
  | inr fresh ↦ construct-IsSession x user t fresh w
]
step-IsSession x destroys t w = destroyed t.user_guard refl
  where
    destroyed :
        (o : Option ScopeGuard)
        → t.user_guard ≡ o
        → IsSession (elim o as (λ _. Session) [ none ↦ t | some g ↦ destroy user t ])
    destroyed none e = w
    destroyed (some g) e = destroy-IsSession user t g e w
step-IsSession x (resets kokkos_runs) t w =
    Stays-IsSession t (reset_inputs x.platform kokkos_runs t).1
      (reset-Stays x.platform kokkos_runs t) w

-- Whatever a program does, if the pointers of the session point to the one guard that exists, or
-- to nothing if there is none, they still do afterwards.
pub run-IsSession :
    (x : Machine) (es : List Event) (t : Session) → IsSession t → IsSession (run x es t)
unfolding run
run-IsSession x [] t w = w
run-IsSession x (e ∷ es) t w = run-IsSession x es (step x e t) (step-IsSession x e t w)

step_initialized :
    (x : Machine) (e : Event) (t : Session)
    → t.krepe_is_initialized ≡ true
    → (step x e t).krepe_is_initialized ≡ true
unfolding step initialize finalize destroy set_guard
step_initialized x initializes t h = ground arith
step_initialized x finalizes t h = ground arith
step_initialized x constructs t h =
    ap (λ r. r.1.krepe_is_initialized) (construct_again x user t h) ∙ h
step_initialized x destroys t h = ground arith
step_initialized x (resets kokkos_runs) t h = (reset-Stays x.platform kokkos_runs t).0 ∙ h

run_initialized :
    (x : Machine) (es : List Event) (t : Session)
    → t.krepe_is_initialized ≡ true
    → (run x es t).krepe_is_initialized ≡ true
unfolding run
run_initialized x [] t h = h
run_initialized x (e ∷ es) t h = run_initialized x es (step x e t) (step_initialized x e t h)

-- Once a dump was loaded, whatever the program does afterwards, `finalize` included, another
-- initialization or guard is refused and changes nothing.
pub run_once :
    (x : Machine) (es : List Event) (t : Session)
    → t.krepe_is_initialized ≡ true
    → let u = run x es t in
      (initialize x u ≡ (err already_initialized, u))
      × (construct x user u ≡ (err already_initialized, u))
unfolding initialize
run_once x es t h =
    let i = run_initialized x es t h in (ground arith, construct_again x user (run x es t) i)
