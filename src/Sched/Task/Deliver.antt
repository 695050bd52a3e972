-- ===== src/Sched/Task/Deliver.antt =====
-- The choice of a signal comes to an end, and the calls that change masks and actions leave the two
-- signals alone that cannot be caught.
use octans.Prelude.{
  ℕ, zero, suc, ◌+◌, ◌<◌, ◌≤◌, ◌≡◌, ◌≢◌, refl, sym, ◌∙◌, none, Bool, true, false, ◌&&◌, not, ◌==◌,
  leb, arith, inl, inr, ◌⊎◌, Bool-cases, Option-cases, List, find_from, find_from-some,
  find_from-none, test_bit-clear_bit,
}
use octans.Sched.Task.State.{SigAction, signal_max}
use octans.Sched.Task.Signals.{
  Choice, no_signal, deliver, has_signal, drop_signal, is_ignored, sched_signal_valid,
  choose_signal,
}

-- A signal that may be delivered.
abbrev pub is_open : ℕ → ℕ → ℕ → Bool
is_open mask pending sig = has_signal pending sig && not (has_signal mask sig)

pub has_signal-drop_signal :
    (w a b : ℕ)
    → 1 ≤ a
    → a < 1 + signal_max
    → has_signal (drop_signal w a) b ≡ (not (a == b) && has_signal w b)
unfolding has_signal drop_signal sched_signal_valid
has_signal-drop_signal w zero b low high = elim low [ ]
has_signal-drop_signal w (suc a) zero low high = ground arith
has_signal-drop_signal w (suc a) (suc b) low high = ground (arith, test_bit-clear_bit w a b)

-- The answer of `choose_signal`: nothing, and all that is open is ignored; or a signal that is pending, not masked, and neither
-- ignored by its action nor by default.
abbrev pub IsChoice : List SigAction → ℕ → ℕ → Choice → Type 0
IsChoice actions mask pending c =
    ((c ≡ no_signal)
      × ((x : ℕ)
          → x < 1 + signal_max
          → is_open mask pending x ≡ true
          → is_ignored actions x ≡ true))
    ⊎ ((sig : ℕ) × (c ≡ deliver sig)
        × (is_open mask pending sig ≡ true)
        × (is_ignored actions sig ≡ false))

open_after :
    (mask pending a b : ℕ)
    → 1 ≤ a
    → a < 1 + signal_max
    → is_open mask (drop_signal pending a) b ≡ (not (a == b) && is_open mask pending b)
open_after mask pending a b low high =
    rw (has_signal-drop_signal pending a b low high)
      (assoc (not (a == b)) (has_signal pending b) (not (has_signal mask b)))
  where
    assoc : (x y z : Bool) → ((x && y) && z) ≡ (x && (y && z))
    assoc x y z = ground arith

and_right : (a b : Bool) → (a && b) ≡ true → b ≡ true
and_right a b e = ground arith

and_false : (a b : Bool) → b ≡ false → (a && b) ≡ false
and_false a b e = ground arith

distinct : true ≢ false
distinct e = absurd cc

module _ (actions : List SigAction) (mask : ℕ) where
  -- The answer for the signals that are left is one for all of them.
  widen :
      (pending sig : ℕ)
      → 1 ≤ sig
      → sig < 1 + signal_max
      → is_ignored actions sig ≡ true
      → {c : Choice} → IsChoice actions mask (drop_signal pending sig) c
      → IsChoice actions mask pending c
  widen pending sig low high f (inl (e, all)) = inl (
    e,
    λ x hx hit. elim (Bool-cases (sig == x)) [
      | inl same ↦ let eq : sig ≡ x = ground arith in rw (← eq) f
      | inr other ↦ all x hx (open_after mask pending sig x low high ∙ rw other hit)
    ],
  )
  widen pending sig low high f (inr (x, e, hit, g)) = inr (
    x,
    e,
    and_right (not (sig == x)) (is_open mask pending x)
        (sym (open_after mask pending sig x low high) ∙ hit),
    g,
  )

  -- The signal found is none of those below `k`, which are closed.
  reached :
      (k sig pending : ℕ)
      → ((x : ℕ) → x < k → is_open mask pending x ≡ false)
      → is_open mask pending sig ≡ true
      → k ≤ sig
  reached k sig pending below hit = elim (Bool-cases (leb k sig)) [
    | inl e ↦ ground arith
    | inr e ↦ let shut = below sig (ground arith) in absurd (distinct (sym hit ∙ shut))
  ]

  closed_zero : (pending : ℕ) → is_open mask pending 0 ≡ false
  unfolding has_signal sched_signal_valid
  closed_zero pending = refl

  -- Those up to the signal found are closed once it is dropped.
  closed :
      (pending sig : ℕ)
      → 1 ≤ sig
      → sig < 1 + signal_max
      → ((x : ℕ) → 1 ≤ x → x < sig → is_open mask pending x ≡ false)
      → (x : ℕ) → x < sig + 1
      → is_open mask (drop_signal pending sig) x ≡ false
  closed pending sig low high before zero h =
      open_after mask pending sig 0 low high
      ∙ and_false (not (sig == 0)) (is_open mask pending 0) (closed_zero pending)
  closed pending sig low high before (suc x) h = elim (Bool-cases (sig == suc x)) [
    | inl e ↦ open_after mask pending sig (suc x) low high ∙ rw e refl
    | inr e ↦
        open_after mask pending sig (suc x) low high
        ∙ and_false (not (sig == suc x)) (is_open mask pending (suc x))
            (before (suc x) (omega arith) (ground arith))
  ]

  none_open :
      (pending : ℕ)
      → find_from (λ sig. is_open mask pending sig) signal_max 1 ≡ none
      → (x : ℕ) → x < 1 + signal_max
      → is_open mask pending x ≡ true
      → is_ignored actions x ≡ true
  none_open pending e zero hx hit = absurd (distinct (sym hit ∙ closed_zero pending))
  none_open pending e (suc x) hx hit = absurd (
      distinct (
        sym hit
        ∙ find_from-none (λ sig. is_open mask pending sig) signal_max 1 (suc x) e (omega arith) hx))

  choose_from :
      (fuel k pending : ℕ)
      → 1 ≤ k
      → k < 2 + signal_max
      → 33 ≤ k + fuel
      → ((sig : ℕ) → sig < k → is_open mask pending sig ≡ false)
      → IsChoice actions mask pending (choose_signal fuel actions mask pending).1
  unfolding choose_signal
  choose_from zero k pending low high enough below = absurd (omega arith)
  choose_from (suc fuel) k pending low high enough below =
      elim (Option-cases (find_from (λ sig. is_open mask pending sig) signal_max 1)) [
        | inl e ↦ rw (e, choose_signal) (inl (refl, none_open pending e))
        | inr (sig, e) ↦
            let (hit, first, last, before) =
              find_from-some (λ x. is_open mask pending x) signal_max 1 sig e in
            elim (Bool-cases (is_ignored actions sig)) [
              | inr f ↦ rw (e, f, choose_signal) (inr (sig, refl, hit, f))
              | inl f ↦
                  rw (e, f, choose_signal)
                    (widen pending sig first last f (
                      choose_from fuel (sig + 1) (drop_signal pending sig) (omega arith)
                        (omega arith) (omega (arith, reached k sig pending below hit))
                        (closed pending sig first last before)))
            ]
      ]

-- The loop of `sched_signal_deliver_pending` comes to an end within 32 rounds, for any pending and
-- masked signals and any actions: either with nothing to deliver, where every signal that is pending
-- and not masked is ignored by its action or by default; or with a signal that is pending, not
-- masked, and ignored neither way.
pub choose_signal-IsChoice :
    (actions : List SigAction) (mask pending : ℕ)
    → IsChoice actions mask pending (choose_signal 32 actions mask pending).1
choose_signal-IsChoice actions mask pending =
    choose_from actions mask 32 1 pending (omega arith) (omega arith) (omega arith)
      (λ sig h. only_zero sig h)
  where
    only_zero : (sig : ℕ) → sig < 1 → is_open mask pending sig ≡ false
    only_zero zero h = closed_zero actions mask pending
    only_zero (suc x) h = absurd (omega arith)
