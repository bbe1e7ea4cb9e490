-- ===== src/Pipe.antt =====
-- The pipe of mp2/kernel/pipe.c. The pipe's lock is held through a round of either loop, so a round is
-- one step; between two rounds other processes may run. `copyin` and `copyout` are the results of the
-- functions of that name on the round's byte.
pub mod Contents
pub mod Trace
mod Tests
use operating_system.Common.{
  ℕ, zero, suc, ◌+◌, ◌-◌, ◌*◌, ◌/◌, ◌%◌, ◌^◌, ◌≤◌, ◌<◌, min, max, ◌≡◌, refl, sym, ap, ap₂, ◌∙◌,
  subst, ◌≢◌, ◌↔◌, ◌⊎◌, inl, inr, Bool, true, false, not, ◌&&◌, ◌||◌, Option, none, some, List, [],
  ◌∷◌, ◌++◌, append-nil, append_assoc, arith, ltb, leb, ◌==◌, if◌then◌else◌, ltb→lt, lt→ltb, le→ltb,
  ==_iff, ==_refl, Bool-cases, Option-cases, length, get_elem?, get_or, set, take, drop, replicate,
  erase_idx, length-append, length-set, length-take, length-drop, length-replicate,
  length-erase_idx, take-set, get_or-take, get_or-set_self, contains, contains-append, IsDistinct,
  append-IsDistinct, Run, ok, panic, fault, out_of_fuel, ◌>>=◌, ◌>>◌, ℤ, pos, negsuc, minus_one,
  is_negative,
}

-- PIPESIZE
abbrev pub pipe_size : ℕ
pipe_size = 512

-- `struct pipe`; `bytes` is its array `data`, `nread` and `nwrite` are of type `uint`.
pub record Pipe : Type 0 where
  pub bytes : List ℕ
  pub nread : ℕ
  pub nwrite : ℕ
  pub readopen : Bool
  pub writeopen : Bool

-- The fields that `pipealloc` sets, over a page with the bytes `junk`.
unfoldable pub pipealloc : (junk : List ℕ) → Pipe
pipealloc junk = record { bytes = junk; nread = 0; nwrite = 0; readopen = true; writeopen = true }

-- The pipe, and whether its page is freed.
unfoldable pub pipeclose : Pipe → (writable : Bool) → Pipe × Bool
pipeclose p writable =
    let q = if writable then record p { writeopen = false } else record p { readopen = false } in
    (q, not q.readopen && not q.writeopen)

-- How a round of a loop ends: the call returns -1, the process sleeps, the loop ends, or it goes on.
pub data Round : Type 0 where
  fails : Round
  sleeps : Round
  breaks : Round
  goes_on : Round

-- A round of the loop of `pipewrite`.
unfoldable pub pipewrite_round : Pipe → (killed : Bool) → (copyin : Option ℕ) → Round × Pipe
pipewrite_round p killed copyin =
    if not p.readopen || killed
    then (fails, p)
    else if p.nwrite == (p.nread + pipe_size) % 2 ^ 32
    then (sleeps, p)
    else elim copyin [
      | none ↦ (breaks, p)
      | some ch ↦ (
        goes_on,
        record p {
          bytes = set p.bytes (p.nwrite % pipe_size) ch;
          nwrite = (p.nwrite + 1) % 2 ^ 32;
        },
      )
    ]

-- A round of the first loop of `piperead`, which waits for a byte.
unfoldable pub piperead_wait : Pipe → (killed : Bool) → Round
piperead_wait p killed =
    if (p.nread == p.nwrite) && p.writeopen then (if killed then fails else sleeps) else breaks

-- A round of its second loop, with the byte that it takes: a byte that `copyout` cannot deliver is
-- taken all the same.
unfoldable pub piperead_round : Pipe → (copyout : Bool) → Option ℕ × (Round × Pipe)
piperead_round p copyout = if p.nread == p.nwrite then (none, (breaks, p)) else (
  some (get_or p.bytes (p.nread % pipe_size) 0),
  (if copyout then goes_on else breaks, record p { nread = (p.nread + 1) % 2 ^ 32 }),
)
