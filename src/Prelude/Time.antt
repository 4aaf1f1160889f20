-- ===== src/Prelude/Time.antt =====
-- Clock readings. `time.time()` is a float of seconds and `datetime.now` a count of microseconds:
-- both are read as a number of microseconds since the epoch.
use Prim.Native.Nat.{ℕ, ◌*◌, ◌/◌}

abbrev pub second : ℕ
second = 1000000

-- a duration or an instant that the program holds as whole seconds
abbrev pub seconds : ℕ → ℕ
seconds n = n * second

-- `int(time.time())`
abbrev pub int_time : ℕ → ℕ
int_time now = now / second
