-- ===== src/Prelude/Loops.antt =====
-- `while` of C: recursion on fuel, `none` where it runs out.
use Prim.Native.Nat.{ℕ, zero, suc, ◌<◌}
use mathlib.Core.Path.{◌≡◌, refl}
use mathlib.Core.Bool.{Bool, true, false}
use mathlib.Core.Logic.{inl, inr}
use mathlib.Core.Option.{Option, none, some}
use native.Mathlib.Omega.{arith}
use toxsh.Prelude.Tests.{Bool-cases}

module _ {ℓ} {S : Type ℓ} (goes_on : S → Bool) (round : S → S) where
  unfoldable pub while_loop : ℕ → S → Option S
  while_loop zero s = elim (goes_on s) [ true ↦ none | false ↦ some s ]
  while_loop (suc n) s = elim (goes_on s) [ true ↦ while_loop n (round s) | false ↦ some s ]

  while_loop_stops : (n : ℕ) (s : S) → goes_on s ≡ false → while_loop n s ≡ some s
  unfolding while_loop
  while_loop_stops zero s stop = rw (stop, while_loop) refl
  while_loop_stops (suc n) s stop = rw (stop, while_loop) refl

  -- A state that keeps `Good` is left by the test if each round that is not the last has less to do.
  pub while_loop_ends {κ} :
      (Good : S → Type κ) (to_do : S → ℕ)
      → ((s : S) → Good s → goes_on s ≡ true → goes_on (round s) ≡ true → to_do (round s) < to_do s)
      → ((s : S) → Good s → goes_on s ≡ true → Good (round s))
      → (n : ℕ) (s : S) → to_do s < n
      → Good s
      → (last : S) × (while_loop n s ≡ some last) × Good last × (goes_on last ≡ false)
  unfolding while_loop
  while_loop_ends Good to_do less kept zero s few good = absurd (omega arith)
  while_loop_ends Good to_do less kept (suc n) s few good = elim (Bool-cases (goes_on s)) [
    | inr stop ↦ (s, rw (stop, while_loop) refl, good, stop)
    | inl more ↦ elim (Bool-cases (goes_on (round s))) [
      | inr stop ↦ (
        round s,
        rw (more, while_loop) (while_loop_stops n (round s) stop),
        kept s good more,
        stop,
      )
      | inl again ↦
          let (last, runs, good', stop) =
            while_loop_ends Good to_do less kept n (round s) (omega (arith, less s good more again))
              (kept s good more) in
          (last, rw (more, while_loop) runs, good', stop)
    ]
  ]
