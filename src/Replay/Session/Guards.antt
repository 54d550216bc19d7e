-- ===== src/Replay/Session/Guards.antt =====
-- The one guard, and the pointers to it.
use mathlib.Core.Path.{subst}
use krepe.Prelude.{
  Text, ◌≡◌, refl, sym, ap, ◌∙◌, inl, inr, Bool, true, false, Option, none, some, arith, Result, ok,
  err, Option-cases, if◌then◌else◌,
}
use krepe.Replay.Error.{Error, already_initialized, dump_flag_expected}
use krepe.Replay.Session.{
  Session, Machine, ScopeGuard, DumpFile, Owner, internal, user, load, read_globals, read_arguments,
  set_guard, publish, open_file, construct, destroy, unless_owned, guard_of,
}

-- The variables that the life of the guards is about.
abbrev pub Stays : Session → Session → Type 0
Stays t u =
    (u.krepe_is_initialized ≡ t.krepe_is_initialized)
    × (u.initialize_internal_scope_guard ≡ t.initialize_internal_scope_guard)
    × (u.user_guard ≡ t.user_guard)
    × (u.scope_guard ≡ t.scope_guard)
    × (u.replay_allocations ≡ t.replay_allocations)

-- The pointers point to the one guard that exists, and to nothing if there is none.
abbrev pub Alive : Session → Option Owner → Type 0
Alive t none = (t.initialize_internal_scope_guard ≡ none) × (t.user_guard ≡ none)
Alive t (some internal) =
    ((g : ScopeGuard) × (t.initialize_internal_scope_guard ≡ some g))
    × (t.user_guard ≡ none)
    × (t.krepe_is_initialized ≡ true)
Alive t (some user) =
    ((g : ScopeGuard) × (t.user_guard ≡ some g))
    × (t.initialize_internal_scope_guard ≡ none)
    × (t.krepe_is_initialized ≡ true)

pub record IsSession (t : Session) : Type 0 where
  pub same_guard : t.replay_allocations ≡ t.scope_guard
  pub alive : Alive t t.scope_guard

load-Stays : (x : Machine) (f : DumpFile) (t : Session) → Stays t (load x f t).1
unfolding load read_globals
load-Stays x f t = ground arith

-- How a construction ends: it throws and leaves the guards as they are, or the new guard is the
-- active one.
abbrev Ends : Owner → Session → Result Error (Unit {0}) × Session → Type 0
Ends o t (err z, u) = Stays t u
Ends o t (ok done, u) = (g : ScopeGuard) × (v : Session) × Stays t v × (u ≡ publish o g v)

open_file-Ends :
    (x : Machine) (o : Owner) (name : Text) (t v : Session)
    → Stays t v
    → Ends o t (open_file x o name v)
unfolding open_file
open_file-Ends x o name t v s = elim (Option-cases (x.open_dump name)) [
  | inl missing ↦ rw (missing, open_file) s
  | inr (f, opened) ↦ rw (opened, open_file) (loaded f (load x f v).0 refl (load-Stays x f v))
]
  where
    loaded :
        (f : DumpFile) (r : Result Error ScopeGuard)
        → (load x f v).0 ≡ r
        → Stays v (load x f v).1
        → Ends o t (elim r as (λ _. Result Error (Unit {0}) × Session) [
          | err z ↦ (err z, (load x f v).1)
          | ok g ↦ (ok tt, publish o g (load x f v).1)
        ])
    loaded f (err z) q k = ground (arith, s, k)
    loaded f (ok g) q k = (g, (load x f v).1, ground (arith, s, k), refl)

read_arguments-Stays : (t : Session) → Stays t (read_arguments t).1
unfolding read_arguments
read_arguments-Stays t = (refl, refl, refl, refl, refl)

construct-Ends :
    (x : Machine) (o : Owner) (t : Session)
    → t.krepe_is_initialized ≡ false
    → Ends o t (construct x o t)
unfolding construct
construct-Ends x o t fresh = checked t.krepe_is_initialized fresh
  where
    named :
        (filename : Option Text)
        → Ends o t (elim filename as (λ _. Result Error (Unit {0}) × Session) [
          | none ↦ (err dump_flag_expected, (read_arguments t).1)
          | some name ↦ open_file x o name (read_arguments t).1
        ])
    named none = read_arguments-Stays t
    named (some name) = open_file-Ends x o name t (read_arguments t).1 (read_arguments-Stays t)

    checked :
        (b : Bool)
        → b ≡ false
        → Ends o t (
            if b
            then (err already_initialized, t)
            else (elim (read_arguments t).0 as (λ _. Result Error (Unit {0}) × Session) [
              | none ↦ (err dump_flag_expected, (read_arguments t).1)
              | some name ↦ open_file x o name (read_arguments t).1
            ]))
    checked true e = absurd (ground arith)
    checked false e = named (read_arguments t).0

pub construct_again :
    (x : Machine) (o : Owner) (t : Session)
    → t.krepe_is_initialized ≡ true
    → construct x o t ≡ (err already_initialized, t)
unfolding construct
construct_again x o t h = ground arith

Alive-Stays : (t u : Session) (p : Option Owner) → Stays t u → Alive t p → Alive u p
Alive-Stays t u none (i, g, h, s, r) (a, b) = (g ∙ a, h ∙ b)
Alive-Stays t u (some internal) (i, g, h, s, r) ((k, a), b, c) = ((k, g ∙ a), h ∙ b, i ∙ c)
Alive-Stays t u (some user) (i, g, h, s, r) ((k, a), b, c) = ((k, h ∙ a), g ∙ b, i ∙ c)

pub Stays-IsSession : (t u : Session) → Stays t u → IsSession t → IsSession u
Stays-IsSession t u k w =
    let (i, g, h, s, r) = k in
    record {
      same_guard = r ∙ w.same_guard ∙ sym s;
      alive = subst (Alive u) (sym s) (Alive-Stays t u t.scope_guard k w.alive);
    }

-- With no active guard there is none.
idle :
    (t : Session) (p : Option Owner)
    → t.krepe_is_initialized ≡ false
    → Alive t p
    → (t.initialize_internal_scope_guard ≡ none) × (t.user_guard ≡ none)
idle t none f a = a
idle t (some internal) f (g, b, c) = absurd (ground arith)
idle t (some user) f (g, b, c) = absurd (ground arith)

publish-IsSession :
    (o : Owner) (g : ScopeGuard) (v : Session)
    → v.initialize_internal_scope_guard ≡ none
    → v.user_guard ≡ none
    → IsSession (publish o g v)
unfolding publish set_guard
publish-IsSession internal g v a b = record { same_guard = refl; alive = ((g, refl), b, refl) }
publish-IsSession user g v a b = record { same_guard = refl; alive = ((g, refl), a, refl) }

pub construct-IsSession :
    (x : Machine) (o : Owner) (t : Session)
    → t.krepe_is_initialized ≡ false
    → IsSession t
    → IsSession (construct x o t).1
construct-IsSession x o t f w = ends (construct x o t) (construct-Ends x o t f)
  where
    ends : (r : Result Error (Unit {0}) × Session) → Ends o t r → IsSession r.1
    ends (err z, u) k = Stays-IsSession t u k w
    ends (ok done, u) (g, v, (i, a, b, s, r), e) =
        let (c, d) = idle t t.scope_guard f w.alive in
        subst IsSession (sym e) (publish-IsSession o g v (a ∙ c) (b ∙ d))

-- The guard that exists is the active one, and the only one.
pub sole_internal :
    (t : Session) (p : Option Owner) (g : ScopeGuard)
    → t.initialize_internal_scope_guard ≡ some g
    → Alive t p
    → (p ≡ some internal) × (t.user_guard ≡ none)
sole_internal t none g e a = absurd (ground arith)
sole_internal t (some internal) g e (h, b, c) = (refl, b)
sole_internal t (some user) g e (h, b, c) = absurd (ground arith)

sole_user :
    (t : Session) (p : Option Owner) (g : ScopeGuard)
    → t.user_guard ≡ some g
    → Alive t p
    → (p ≡ some user) × (t.initialize_internal_scope_guard ≡ none)
sole_user t none g e a = absurd (ground arith)
sole_user t (some internal) g e (h, b, c) = absurd (ground arith)
sole_user t (some user) g e (h, b, c) = (refl, b)

pub destroy-IsSession :
    (o : Owner) (t : Session) (g : ScopeGuard)
    → guard_of o t ≡ some g
    → IsSession t
    → IsSession (destroy o t)
unfolding destroy set_guard
destroy-IsSession internal t g e w =
    let (active, other) = sole_internal t t.scope_guard g e w.alive in
    record {
      same_guard = ap (unless_owned internal) (w.same_guard ∙ active);
      alive = (refl, other);
    }
destroy-IsSession user t g e w =
    let (active, other) = sole_user t t.scope_guard g e w.alive in
    record { same_guard = ap (unless_owned user) (w.same_guard ∙ active); alive = (other, refl) }
