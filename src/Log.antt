-- ===== src/Log.antt =====
-- The write-ahead log of mp2/kernel/log.c. `A` is the contents of a block. What `bread` returns of a
-- block is `cached`: the buffers of a transaction stay in the cache, as log_write pins them. The list
-- `past` holds the disk before each of the writes so far, one block at a time, so that a crash between
-- two writes leaves one of these disks.
pub mod Write
pub mod Install
pub mod Recover
pub mod Crash
pub mod Budget
pub mod Reserve
mod Tests
use operating_system.Common.{
  ℕ, zero, suc, ◌+◌, ◌-◌, ◌*◌, ◌/◌, ◌%◌, ◌^◌, ◌≤◌, ◌<◌, min, max, ◌≡◌, refl, sym, ap, ap₂, ◌∙◌,
  subst, ◌≢◌, ◌↔◌, ◌⊎◌, inl, inr, Bool, true, false, not, ◌&&◌, ◌||◌, Option, none, some, List, [],
  ◌∷◌, ◌++◌, append-nil, append_assoc, arith, ltb, leb, ◌==◌, if◌then◌else◌, ltb→lt, lt→ltb, le→ltb,
  ==_iff, ==_refl, Bool-cases, Option-cases, length, get_elem?, get_or, set, take, drop, replicate,
  erase_idx, length-append, length-set, length-take, length-drop, length-replicate,
  length-erase_idx, take-set, get_or-take, get_or-set_self, contains, contains-append, IsDistinct,
  append-IsDistinct, Run, ok, panic, fault, out_of_fuel, ◌>>=◌, ◌>>◌, ℤ, pos, negsuc, minus_one,
  is_negative,
}

-- The blocks, and the header block as the `struct logheader` that it holds: the first `n` numbers of
-- its array.
pub record Disk (A : Type 0) : Type 0 where
  pub block : ℕ → A
  pub head : List ℕ

-- `struct log`, with the disk and the cache that it works on; `pins` counts what bpin has added to the
-- reference counts.
pub record Log (A : Type 0) : Type 0 where
  pub disk : Disk A
  pub past : List (Disk A)
  pub cached : ℕ → A
  pub pins : ℕ → ℕ
  pub lh : List ℕ
  pub start : ℕ
  pub size : ℕ
  pub outstanding : ℕ
  pub committing : Bool

-- LOGSIZE and MAXOPBLOCKS of param.h
abbrev pub log_size : ℕ
log_size = 30

abbrev pub max_op_blocks : ℕ
max_op_blocks = 10

module _ {A : Type 0} where
  unfoldable pub store_block : (ℕ → A) → ℕ → A → ℕ → A
  store_block f b v x = if x == b then v else f x

  -- `bwrite`: the buffer of block `b` goes to the disk.
  unfoldable pub bwrite : Log A → ℕ → Log A
  unfolding store_block
  bwrite m b = record m {
    disk = record { block = store_block m.disk.block b (m.cached b); head = m.disk.head };
    past = m.disk ∷ m.past;
  }

  -- `memmove` from the buffer of `src` to that of `dst`
  unfoldable pub copy_block : Log A → (dst src : ℕ) → Log A
  unfolding store_block
  copy_block m dst src = record m { cached = store_block m.cached dst (m.cached src) }

  unfoldable pub bpin : Log A → ℕ → Log A
  bpin m b = record m { pins = λ x. if x == b then m.pins x + 1 else m.pins x }

  unfoldable pub bunpin : Log A → ℕ → Log A
  bunpin m b = record m { pins = λ x. if x == b then m.pins x - 1 else m.pins x }

  -- The loop of `install_trans` from the round `tail` on, for the block numbers that are left.
  unfoldable pub install_loop : (recovering : Bool) → (blocks : List ℕ) → (tail : ℕ) → Log A → Log A
  unfolding bwrite copy_block bunpin
  install_loop recovering [] tail m = m
  install_loop recovering (b ∷ bs) tail m =
      let written = bwrite (copy_block m b (m.start + tail + 1)) b in
      install_loop recovering bs (tail + 1)
        (record written { pins = if recovering then written.pins else (bunpin written b).pins })

  unfoldable pub install_trans : (recovering : Bool) → Log A → Log A
  install_trans recovering m = install_loop recovering m.lh 0 m

  unfoldable pub read_head : Log A → Log A
  read_head m = record m { lh = m.disk.head }

  unfoldable pub write_head : Log A → Log A
  write_head m = record m {
    disk = record { block = m.disk.block; head = m.lh };
    past = m.disk ∷ m.past;
  }

  unfoldable pub recover_from_log : Log A → Log A
  unfolding read_head install_trans write_head
  recover_from_log m = write_head (record (install_trans true (read_head m)) { lh = [] })

  -- `initlog` on a machine that has started with this disk: nothing is cached yet.
  unfoldable pub initlog : Disk A → (start size : ℕ) → Log A
  unfolding recover_from_log
  initlog d start size = recover_from_log (record {
    disk = d;
    past = [];
    cached = d.block;
    pins = λ _. 0;
    lh = [];
    start = start;
    size = size;
    outstanding = 0;
    committing = false;
  })

  -- The loop of `write_log`, likewise.
  unfoldable pub write_log_loop : (blocks : List ℕ) → (tail : ℕ) → Log A → Log A
  unfolding bwrite copy_block
  write_log_loop [] tail m = m
  write_log_loop (b ∷ bs) tail m =
      write_log_loop bs (tail + 1)
        (bwrite (copy_block m (m.start + tail + 1) b) (m.start + tail + 1))

  unfoldable pub write_log : Log A → Log A
  write_log m = write_log_loop m.lh 0 m

  unfoldable pub commit : Log A → Log A
  unfolding write_log write_head install_trans
  commit m =
      if length m.lh == 0
      then m
      else write_head (record (install_trans false (write_head (write_log m))) { lh = [] })

  -- A round of the loop of `begin_op`: `none` where the process sleeps.
  unfoldable pub begin_op : Log A → Option (Log A)
  begin_op m =
      if m.committing
      then none
      else if ltb log_size (length m.lh + (m.outstanding + 1) * max_op_blocks)
      then none
      else some (record m { outstanding = m.outstanding + 1 })

  -- `end_op` up to its release of the lock, and whether this call commits. A call that no begin_op
  -- precedes would make the counter -1; it is a fault here.
  unfoldable pub end_op : Log A → Run (Bool × Log A)
  end_op m =
      if m.outstanding == 0
      then fault
      else if m.committing
      then panic
      else if m.outstanding == 1
      then ok (true, record m { outstanding = 0; committing = true })
      else ok (false, record m { outstanding = m.outstanding - 1 })

  -- The rest of `end_op`, in the call that commits.
  unfoldable pub end_commit : Log A → Log A
  unfolding commit
  end_commit m = record (commit m) { committing = false }

  unfoldable pub log_write : Log A → ℕ → Run (Log A)
  unfolding bpin
  log_write m b =
      if leb log_size (length m.lh) || leb (m.size - 1) (length m.lh)
      then panic
      else if m.outstanding == 0
      then panic
      else if contains m.lh b
      then ok m
      else ok (record (bpin m b) { lh = m.lh ++ b ∷ [] })
