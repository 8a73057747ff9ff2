-- ===== src/Overview/Setup.antt =====
-- app/dashboard/page.tsx: the section that leads through the setup.
use lifygo.Prelude.{◌+◌, ◌*◌, ◌≤◌, ◌≡◌, count, ltb, arith, Bool-cases, inl, inr}
use lifygo.Features.{DashboardStats}
use lifygo.Overview.{checklist, setup_incomplete, progress, Task}

-- The shown progress is the rounded share of the done tasks, and the section is shown exactly while
-- it is less than 100 per cent.
pub progress-rounds :
    (stats : DashboardStats)
    → let done = count (λ (c : Task). c.done) (checklist stats) in
      (3 * progress stats ≤ 100 * done + 1)
      × (100 * done ≤ 3 * progress stats + 1)
      × (setup_incomplete stats ≡ ltb (progress stats) 100)
unfolding progress
progress-rounds stats = elim (Bool-cases stats.has_smtp_config) [
  | inl e ↦ ground arith
  | inr e ↦ ground arith
]
