-- ===== src/Replay/Session/Finalize.antt =====
-- What `finalize` does.
use krepe.Prelude.{
  ◌≡◌, ◌≢◌, refl, ap, ◌∙◌, ◌⊎◌, ◌↔◌, inl, inr, true, Option, none, some, arith, ok, err, Bool-cases,
  Option-cases,
}
use krepe.Replay.Error.{guard_owned_by_user}
use krepe.Replay.Session.{
  Session, ScopeGuard, Owner, internal, user, set_guard, destroy, unless_owned, finalize,
}
use krepe.Replay.Session.Guards.{Alive, IsSession, sole_internal}

-- A call of `finalize` does nothing, or destroys the guard of `initialize`.
pub finalize_cases :
    (t : Session)
    → (((finalize t).1 ≡ t) × ((finalize t).0 ≢ ok tt))
      ⊎ (((g : ScopeGuard) × (t.initialize_internal_scope_guard ≡ some g))
          × ((finalize t).1 ≡ destroy internal t))
unfolding finalize
finalize_cases t = elim (Option-cases t.initialize_internal_scope_guard) [
  | inl absent ↦ inl (ground arith, λ done. ground arith)
  | inr (g, found) ↦ elim (Bool-cases t.krepe_is_initialized) [
    | inl before ↦ inr ((g, found), ground arith)
    | inr never ↦ inl (ground arith, λ done. ground arith)
  ]
]

-- Where the pointers follow the guards, `finalize` succeeds exactly if the program was
-- initialized and the guard of `initialize` exists; then that guard is gone and the pointers are
-- null. A guard of the user is never destroyed, and is the active one where `finalize` blames it.
pub finalize_lem :
    (t : Session)
    → IsSession t
    → (((finalize t).0 ≡ ok tt) ↔ (
        (t.krepe_is_initialized ≡ true)
        × ((g : ScopeGuard) × (t.initialize_internal_scope_guard ≡ some g))))
      × ((finalize t).0 ≡ ok tt
          → ((finalize t).1.scope_guard ≡ none)
            × ((finalize t).1.replay_allocations ≡ none)
            × ((finalize t).1.initialize_internal_scope_guard ≡ none))
      × ((finalize t).1.user_guard ≡ t.user_guard)
      × ((finalize t).0 ≡ err guard_owned_by_user → t.scope_guard ≡ some user)
unfolding finalize destroy set_guard
finalize_lem t w = (
  (λ h. ground arith, λ h. ground arith),
  λ h. elim (finalize_cases t) [
    | inl (same, failed) ↦ absurd (failed h)
    | inr ((g, found), gone) ↦
        let (active, other) = sole_internal t t.scope_guard g found w.alive in
        (
          ap (λ u. u.scope_guard) gone,
          ap (λ u. u.replay_allocations) gone ∙ ap (unless_owned internal) (w.same_guard ∙ active),
          ap (λ u. u.initialize_internal_scope_guard) gone,
        )
  ],
  ground arith,
  λ h. refused t.scope_guard refl w.alive h,
)
  where
    refused :
        (p : Option Owner)
        → t.scope_guard ≡ p
        → Alive t p
        → (finalize t).0 ≡ err guard_owned_by_user
        → t.scope_guard ≡ some user
    refused none e a h = absurd (ground arith)
    refused (some internal) e ((g, found), b, c) h = absurd (ground arith)
    refused (some user) e a h = e
