-- ===== src/Load/Schedule.antt =====
-- src/load/schedule.hpp: the open-loop schedule that the workers share. `fetch_add` on the counter
-- makes each `claim` one step; the counter is a `uint64_t`.
use dariyanaap.Prelude.{ℕ, ◌+◌, u64}
use dariyanaap.Core.Double.{Double}
use dariyanaap.Core.Units.{Rate, due_at}

module _ (double : Double) where
  pub record Schedule : Type 0 where
    pub rate : Rate double
    pub start : ℕ
    pub next : ℕ

  pub record Slot : Type 0 where
    pub index : ℕ
    pub due : ℕ

  unfoldable pub claim : Schedule → Slot × Schedule
  claim s = (
    record { index = s.next; due = s.start + due_at double s.rate s.next },
    record s { next = u64 (s.next + 1) },
  )

  unfoldable pub claimed : Schedule → ℕ
  claimed s = s.next
