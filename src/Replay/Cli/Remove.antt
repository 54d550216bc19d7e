-- ===== src/Replay/Cli/Remove.antt =====
-- `remove_cli_args` closes the gap and keeps the order.
use krepe.Prelude.{
  ℕ, zero, suc, ◌+◌, ◌-◌, ◌<◌, ◌≡◌, refl, ap, ◌∙◌, some, List, [], ◌∷◌, ◌++◌, Text, arith, length,
  get_elem?, set, length-append, take-append, ltb, lt→ltb, false,
}
use mathlib.Core.List.{append_assoc, append-nil}
use krepe.Replay.Cli.{Arguments, swap, remove_loop, remove_cli_args, visible}

pub get_elem?-length-append :
    (xs : List Text) (y : Text) (ys : List Text) (i : ℕ)
    → i ≡ length xs
    → get_elem? (xs ++ y ∷ ys) i ≡ some y
get_elem?-length-append [] y ys zero e = refl
get_elem?-length-append [] y ys (suc i) e = absurd (omega arith)
get_elem?-length-append (x ∷ xs) y ys zero e = absurd (omega arith)
get_elem?-length-append (x ∷ xs) y ys (suc i) e = get_elem?-length-append xs y ys i (omega arith)

set-length-append :
    (xs : List Text) (y z : Text) (ys : List Text) (i : ℕ)
    → i ≡ length xs
    → set (xs ++ y ∷ ys) i z ≡ xs ++ z ∷ ys
set-length-append [] y z ys zero e = refl
set-length-append [] y z ys (suc i) e = absurd (omega arith)
set-length-append (x ∷ xs) y z ys zero e = absurd (omega arith)
set-length-append (x ∷ xs) y z ys (suc i) e =
    ap (◌∷◌ x) (set-length-append xs y z ys i (omega arith))

swap_window :
    (pre ws rest : List Text) (w r : Text) (i j : ℕ)
    → i ≡ length pre
    → j ≡ length pre + suc (length ws)
    → swap i j (pre ++ w ∷ (ws ++ r ∷ rest)) ≡ pre ++ r ∷ (ws ++ w ∷ rest)
unfolding swap
swap_window pre ws rest w r i j e f =
    rw (get_elem?-length-append pre w (ws ++ r ∷ rest) i e, swap)
      (rw (second, swap) (rw first stored))
  where
    behind : (v : Text) → j ≡ length (pre ++ v ∷ ws)
    behind v = omega (arith, f, length-append pre (v ∷ ws))

    second : get_elem? (pre ++ w ∷ (ws ++ r ∷ rest)) j ≡ some r
    second =
        rw (← append_assoc pre (w ∷ ws) (r ∷ rest))
          (get_elem?-length-append (pre ++ w ∷ ws) r rest j (behind w))

    first : set (pre ++ w ∷ (ws ++ r ∷ rest)) i r ≡ pre ++ r ∷ (ws ++ r ∷ rest)
    first = set-length-append pre w r (ws ++ r ∷ rest) i e

    stored : set (pre ++ r ∷ (ws ++ r ∷ rest)) j w ≡ pre ++ r ∷ (ws ++ w ∷ rest)
    stored =
        rw (← append_assoc pre (r ∷ ws) (r ∷ rest), ← append_assoc pre (r ∷ ws) (w ∷ rest))
          (set-length-append (pre ++ r ∷ ws) r w rest j (behind r))

-- The loop moves `mid` over the window before it, whose entries end up behind it in some order.
remove_loop_window :
    (pre mid rest window : List Text) (k i n : ℕ)
    → k ≡ length mid
    → i ≡ length pre
    → n ≡ length window
    → 0 < n
    → (out : List Text) × (remove_loop k i n (pre ++ (window ++ (mid ++ rest)))
        ≡ pre ++ (mid ++ out))
unfolding remove_loop
remove_loop_window pre [] rest window zero i n ek ei en h = (window ++ rest, refl)
remove_loop_window pre [] rest window (suc k) i n ek ei en h = absurd (omega arith)
remove_loop_window pre (m ∷ mid) rest window zero i n ek ei en h = absurd (omega arith)
remove_loop_window pre (m ∷ mid) rest [] (suc k) i n ek ei en h = absurd (omega arith)
remove_loop_window pre (m ∷ mid) rest (w ∷ ws) (suc k) i n ek ei en h =
    let (out, e) =
      remove_loop_window (pre ++ m ∷ []) mid rest (ws ++ w ∷ []) k (i + 1) n (omega arith)
        (omega (arith, length-append pre (m ∷ []))) (omega (arith, length-append ws (w ∷ []))) h in
    (out, rw (round, shifted) (e ∙ append_assoc pre (m ∷ []) (mid ++ out)))
  where
    round :
        swap i (i + n) (pre ++ w ∷ (ws ++ m ∷ (mid ++ rest))) ≡ pre ++ m ∷ (ws ++ w ∷ (mid ++ rest))
    round = swap_window pre ws (mid ++ rest) w m i (i + n) ei (omega arith)

    shifted :
        pre ++ m ∷ (ws ++ w ∷ (mid ++ rest)) ≡ (pre ++ m ∷ []) ++ ((ws ++ w ∷ []) ++ (mid ++ rest))
    shifted = rw (append_assoc pre (m ∷ []), append_assoc ws (w ∷ []))

-- Where the removed arguments are inside of the array, what is left to see are the arguments
-- before and behind them, in their order.
pub visible-remove :
    (a : Arguments) (pre gone mid post : List Text)
    → a.argv ≡ pre ++ (gone ++ (mid ++ post))
    → a.argc ≡ length pre + length gone + length mid
    → 0 < length gone
    → visible (remove_cli_args a (length pre) (length gone)) ≡ pre ++ mid
unfolding remove_cli_args
visible-remove a pre gone [] post e c h =
    let still : ltb (length pre + length gone) a.argc ≡ false = ground arith in
    rw (still, e, append-nil) (take-append (a.argc - length gone) pre (gone ++ post) (omega arith))
visible-remove a pre gone (m ∷ mid) post e c h =
    let (out, moved) =
      remove_loop_window pre (m ∷ mid) post gone (a.argc - length gone - length pre) (length pre)
        (length gone) (omega arith) refl refl h in
    rw (lt→ltb (length pre + length gone) a.argc (omega arith)) (
      (rw (e, moved)
        (rw (← append_assoc pre (m ∷ mid) out) (
          take-append (a.argc - length gone) (pre ++ m ∷ mid) out
            (omega (arith, length-append pre (m ∷ mid)))))))
