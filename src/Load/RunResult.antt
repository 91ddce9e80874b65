-- ===== src/Load/RunResult.antt =====
-- src/load/run_result.hpp: what a run counts, and whether the counts add up.
use dariyanaap.Prelude.{ℕ, ◌+◌, Option, none, some, Bool, ◌==◌, u64}
use dariyanaap.Stats.Summary.{Summary}

pub record ErrorCounts : Type 0 where
  pub connect : ℕ
  pub write : ℕ
  pub read : ℕ
  pub timeout : ℕ
  pub protocol : ℕ
  pub rejected : ℕ

abbrev pub no_errors : ErrorCounts
no_errors = record { connect = 0; write = 0; read = 0; timeout = 0; protocol = 0; rejected = 0 }

unfoldable pub total : ErrorCounts → ℕ
total e = u64 (e.connect + e.write + e.read + e.timeout + e.protocol + e.rejected)

unfoldable pub merge : ErrorCounts → ErrorCounts → ErrorCounts
merge e other = record {
  connect = u64 (e.connect + other.connect);
  write = u64 (e.write + other.write);
  read = u64 (e.read + other.read);
  timeout = u64 (e.timeout + other.timeout);
  protocol = u64 (e.protocol + other.protocol);
  rejected = u64 (e.rejected + other.rejected);
}

pub record RunResult : Type 0 where
  pub attempted : ℕ
  pub errors : ErrorCounts
  pub latency : Option Summary
  pub duration : ℕ

abbrev pub samples_of : Option Summary → ℕ
samples_of none = 0
samples_of (some s) = s.samples

unfoldable pub timed : RunResult → ℕ
timed r = samples_of r.latency

unfoldable pub untimed : RunResult → ℕ
untimed r = u64 (r.errors.connect + r.errors.write + r.errors.read + r.errors.protocol)

unfoldable pub consistent : RunResult → Bool
unfolding timed untimed
consistent r = r.attempted == u64 (timed r + untimed r)
