-- ===== src/Fleet/Clock.antt =====
-- Instants and spans of steam_pumper/fleet.py: microseconds since the epoch, the resolution of
-- `datetime`. `Asia/Shanghai` is UTC+8 at every instant that the program meets.
use steam_download_pumper.Common.{ℕ, ◌+◌, ◌*◌, ◌/◌, ◌%◌}

abbrev pub second : ℕ
second = 1000000

abbrev pub minute : ℕ
minute = 60000000

abbrev pub hour : ℕ
hour = 3600000000

abbrev pub day : ℕ
day = 86400000000

-- `int(t.timestamp() // 60)`
abbrev pub minute_of : ℕ → ℕ
minute_of t = t / minute

-- `int(t.timestamp())`
abbrev pub timestamp : ℕ → ℕ
timestamp t = t / second

-- The wall clock of Shanghai, as microseconds since the local epoch.
abbrev pub local : ℕ → ℕ
local t = t + 8 * hour

-- `now.hour` there.
abbrev pub local_hour : ℕ → ℕ
local_hour t = local t % day / hour
