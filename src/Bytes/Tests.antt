-- ===== src/Bytes/Tests.antt =====
-- Blocks of a memory in which each byte is its address.
use operating_system.Common.{◌==◌, if◌then◌else◌, ℕ, ◌%◌, ◌≡◌, inr, arith, pos}
use operating_system.Bytes.{memcmp, memmove, strncmp, strncpy, safestrcpy}
use operating_system.Bytes.Strings.{EndsAt, strncmp-strncpy, safestrcpy_lem}
use operating_system.Bytes.Copy.{moved, memmove-moved, Compares, memcmp_lem}

abbrev counted_bytes : ℕ → ℕ
counted_bytes a = a % 256

-- The blocks overlap.
memmove-moved_example : memmove counted_bytes 12 10 5 14 ≡ moved counted_bytes 12 10 5 14
memmove-moved_example = memmove-moved counted_bytes 12 10 5 14

-- The bytes at 10 and at 266 differ first in the sixth place, where 15 is compared to 0x90.
abbrev patched_bytes : ℕ → ℕ
patched_bytes a = if a == 271 then 0x90 else counted_bytes a

memcmp_lem_example : Compares patched_bytes 10 266 8 (memcmp patched_bytes 10 266 8)
memcmp_lem_example = memcmp_lem 8 patched_bytes 10 266

strncmp-strncpy_example : strncmp 6 (strncpy 6 counted_bytes 1000 252) 1000 252 ≡ pos 0
strncmp-strncpy_example = strncmp-strncpy 6 counted_bytes 1000 252 (inr (omega arith))

safestrcpy_lem_example : EndsAt 5 counted_bytes 1000 252 (safestrcpy 6 counted_bytes 1000 252)
safestrcpy_lem_example = safestrcpy_lem 5 counted_bytes 1000 252 (inr (omega arith))
