-- ===== src/Pipe/Tests.antt =====
-- A pipe of mp2/kernel/pipe.c whose counters are about to wrap.
use operating_system.Common.{ℕ, ◌≡◌, refl, true, false, List, [], ◌∷◌, ◌++◌, arith, set, replicate}
use operating_system.Pipe.{Pipe, goes_on, pipe_size, pipewrite_round, piperead_round}
use operating_system.Pipe.Contents.{contents, unread, bytes_from, IsPipe}
use operating_system.Pipe.Trace.{Trace, start, written, taken, Trace-fifo}

abbrev last_count : ℕ
last_count = 0xffffffff

abbrev pipe_at : ℕ → ℕ → List ℕ → Pipe
pipe_at r w xs = record { bytes = xs; nread = r; nwrite = w; readopen = true; writeopen = true }

abbrev blank : List ℕ
blank = replicate pipe_size 0

abbrev empty_pipe : Pipe
empty_pipe = pipe_at last_count last_count blank

empty_pipe-IsPipe : IsPipe empty_pipe
unfolding unread
empty_pipe-IsPipe = record {
  storage = refl;
  reads = omega arith;
  writes = omega arith;
  fits = omega arith;
}

abbrev one_byte : Pipe
one_byte = pipe_at last_count 0 (set blank 511 65)

abbrev two_bytes : Pipe
two_bytes = pipe_at last_count 1 (set (set blank 511 65) 0 66)

two_bytes-IsPipe : IsPipe two_bytes
unfolding unread
two_bytes-IsPipe = record {
  storage = refl;
  reads = omega arith;
  writes = omega arith;
  fits = omega arith;
}

two_bytes-contents : contents two_bytes ≡ 65 ∷ 66 ∷ []
unfolding contents bytes_from unread
two_bytes-contents = refl

abbrev later_pipe : Pipe
later_pipe = pipe_at 0 1 (set (set blank 511 65) 0 66)

exchange : Trace empty_pipe (65 ∷ 66 ∷ []) (65 ∷ []) later_pipe
unfolding pipewrite_round piperead_round
exchange = taken {ws = 65 ∷ 66 ∷ []} {rs = []} {p = two_bytes} later_pipe goes_on true 65 refl (
    written {ws = 65 ∷ []} {rs = []} {p = one_byte} two_bytes false 66 refl
      (written {ws = []} {rs = []} {p = empty_pipe} one_byte false 65 refl start))

empty_pipe-contents : contents empty_pipe ≡ []
unfolding contents bytes_from unread
empty_pipe-contents = refl

Trace-fifo_example : (65 ∷ 66 ∷ [] ≡ (65 ∷ []) ++ contents later_pipe) × IsPipe later_pipe
Trace-fifo_example = Trace-fifo empty_pipe-IsPipe empty_pipe-contents exchange
