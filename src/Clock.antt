-- ===== src/Clock.antt =====
-- clock.py: instants in UTC. An instant is the count of microseconds since datetime.min; `now` is
-- what one call of Clock.now() returned. Subtracting a timedelta raises OverflowError outside of
-- Python's years 1 to 9999, which `none` stands for.
use job_aggregator.Prelude.{ℕ, suc, ◌+◌, ◌-◌, ◌*◌, Option, none, some, leb, if◌then◌else◌}
use job_aggregator.Models.Amount.{ℤ, pos, negsuc}

abbrev pub day : ℕ
day = 86_400_000_000

-- datetime.max
abbrev pub max_instant : ℕ
max_instant = 3_652_059 * 86_400_000_000 - 1

-- now - timedelta(days=n)
unfoldable pub minus_days : ℕ → ℤ → Option ℕ
minus_days now (pos n) = if leb (n * day) now then some (now - n * day) else none
minus_days now (negsuc n) =
    let later = now + suc n * day in if leb later max_instant then some later else none
