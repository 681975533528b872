-- ===== src/Strings/Tests.antt =====
-- The string functions at work on a concrete memory.
use xv.Prelude.{◌+◌, ◌-◌, ltb, ◌==◌, if◌then◌else◌}
use xv.Strings.{Memory}

-- Bytes 1, 2, 3, … up to a NUL at 10, and again from 11 on.
abbrev bytes : Memory
bytes a = if a == 10 then 0 else if ltb a 10 then a + 1 else a - 10
