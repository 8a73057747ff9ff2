-- ===== src/Server/Scheduler/Due.antt =====
-- `isCronDue` against the moments at which a schedule fires.
use lifygo.Prelude.{
  ℕ, ◌+◌, ◌-◌, ◌*◌, ◌%◌, ◌<◌, ◌≤◌, ◌≡◌, ◌↔◌, ◌⊎◌, refl, subst, Bool, true, false, Option, none,
  some, arith, Option-cases, Bool-cases, inl, inr, ltb,
}
use lifygo.Server.Scheduler.{second, minute, truncated, is_due}

-- `Next(t)`, as documented: the first moment after `t` at which the schedule fires, or the zero time if
-- there is none within five years. It fires at whole minutes.
pub record IsNext (fires : ℕ → Bool) (t : ℕ) (answer : Option ℕ) : Type 0 where
  pub whole : (u : ℕ) → fires u ≡ true → u % minute ≡ 0
  pub found : (u : ℕ) → answer ≡ some u → (t < u) × (fires u ≡ true)
  pub first : (u v : ℕ) → answer ≡ some u → t < v → v < u → fires v ≡ false
  pub zero_time : (u : ℕ) → answer ≡ none → t < u → u ≤ t + 2628000 * minute → fires u ≡ false

-- The only whole minute from a second before a minute's start to a second before its end.
only_start :
    (now u : ℕ)
    → minute ≤ now
    → u % minute ≡ 0
    → truncated now - second < u
    → u ≤ truncated now + (minute - second)
    → u ≡ truncated now
only_start now u late whole after before = omega arith

start_whole : (now : ℕ) → truncated now % minute ≡ 0
start_whole now = omega arith

due_before :
    (next : ℕ → Option ℕ) (now u : ℕ)
    → next (truncated now - second) ≡ some u
    → (is_due next now ≡ true) ↔ (u ≤ truncated now + (minute - second))
unfolding is_due
due_before next now u found = rw (is_due, found) (λ h. ground arith, λ h. ground arith)

due_unfound :
    (next : ℕ → Option ℕ) (now : ℕ) → next (truncated now - second) ≡ none → is_due next now ≡ true
unfolding is_due
due_unfound next now unfound = rw (is_due, unfound) refl

-- A schedule is due in a minute, after the first of the epoch, exactly if it fires at its start, or if no moment at which it fires is
-- found at all: one that never fires is due in every minute.
pub is_due-fires :
    (fires : ℕ → Bool) (next : ℕ → Option ℕ) (now : ℕ)
    → minute ≤ now
    → IsNext fires (truncated now - second) (next (truncated now - second))
    → (is_due next now ≡ true)
      ↔ ((fires (truncated now) ≡ true) ⊎ (next (truncated now - second) ≡ none))
is_due-fires fires next now late spec =
    let start = truncated now in
    elim (Option-cases (next (start - second))) [
      | inl unfound ↦ (λ due. inr unfound, λ h. due_unfound next now unfound)
      | inr (u, is_next) ↦
          let (to, from) = due_before next now u is_next in
          let (after, fires_then) = spec.found u is_next in
          (
            λ due. inl (
                subst (λ v. fires v ≡ true)
                  (only_start now u late (spec.whole u fires_then) after (to due)) fires_then),
            elim [
              | inl fires_now ↦ from (elim (Bool-cases (ltb start u)) [
                | inl later ↦
                    let missed = spec.first u start is_next (omega arith) (ground arith) in cc
                | inr sooner ↦ ground arith
              ])
              | inr unfound ↦ cc
            ],
          )
    ]
