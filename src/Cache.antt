-- ===== src/Cache.antt =====
-- The buffer cache of mp2/kernel/bio.c and the pages that swapping passes through it. A buffer is a
-- number, and the list `bcache.head` is the list of these numbers, the most recently used first. The
-- disk holds a block of bytes under each block number, and `virtio_disk_rw` passes a block. The caller
-- of `bwrite` and of `brelse` holds the sleep lock that `bget` has taken.
pub mod Lookup
pub mod View
pub mod Write
pub mod Load
pub mod Round
pub mod Page
mod Tests
use operating_system.Common.{
  ℕ, zero, suc, ◌+◌, ◌-◌, ◌*◌, ◌/◌, ◌%◌, ◌^◌, ◌≤◌, ◌<◌, min, max, ◌≡◌, refl, sym, ap, ap₂, ◌∙◌,
  subst, ◌≢◌, ◌↔◌, ◌⊎◌, inl, inr, Bool, true, false, not, ◌&&◌, ◌||◌, Option, none, some, List, [],
  ◌∷◌, ◌++◌, append-nil, append_assoc, arith, ltb, leb, ◌==◌, if◌then◌else◌, ltb→lt, lt→ltb, le→ltb,
  ==_iff, ==_refl, Bool-cases, Option-cases, length, get_elem?, get_or, set, take, drop, replicate,
  erase_idx, length-append, length-set, length-take, length-drop, length-replicate,
  length-erase_idx, take-set, get_or-take, get_or-set_self, contains, contains-append, IsDistinct,
  append-IsDistinct, get_elem?-lt, get_elem?-contains, Run, ok, panic, fault, out_of_fuel, ◌>>=◌,
  ◌>>◌, bind-ok, ℤ, pos, negsuc, minus_one, is_negative,
}

-- `struct buf`; its bytes are those from 0 to BSIZE.
pub record Buf : Type 0 where
  pub valid : Bool
  pub dev : ℕ
  pub blockno : ℕ
  pub refcnt : ℕ
  pub bytes : ℕ → ℕ

pub record Cache : Type 0 where
  pub order : List ℕ
  pub buf : ℕ → Buf
  pub disk : ℕ → ℕ → ℕ

-- NBUF and ROOTDEV
abbrev pub nbuf : ℕ
nbuf = 30

abbrev pub root_dev : ℕ
root_dev = 1

abbrev pub put_buf : Cache → ℕ → Buf → Cache
put_buf c b q = record c { buf = λ a. if a == b then q else c.buf a }

-- The order that the loop of `binit` leaves.
unfoldable pub link_all : (rounds : ℕ) → (order : List ℕ) → (b : ℕ) → List ℕ
link_all zero order b = order
link_all (suc n) order b = link_all n (b ∷ order) (b + 1)

unfoldable pub binit : Cache → Cache
unfolding link_all
binit c = record c { order = link_all nbuf [] 0 }

abbrev pub is_block : Buf → (dev blockno : ℕ) → Bool
is_block q dev blockno = q.dev == dev && q.blockno == blockno

-- The first loop of `bget`, from the head on.
unfoldable pub find_buf : List ℕ → (ℕ → Buf) → (dev blockno : ℕ) → Option ℕ
find_buf [] buf dev blockno = none
find_buf (b ∷ bs) buf dev blockno =
    let rest = find_buf bs buf dev blockno in if is_block (buf b) dev blockno then some b else rest

-- The second, from the other end on.
unfoldable pub find_free : List ℕ → (ℕ → Buf) → Option ℕ
find_free [] buf = none
find_free (b ∷ bs) buf = elim (find_free bs buf) [
  | some a ↦ some a
  | none ↦ if (buf b).refcnt == 0 then some b else none
]

unfoldable pub bget : Cache → (dev blockno : ℕ) → Run (ℕ × Cache)
unfolding find_buf find_free
bget c dev blockno = elim (find_buf c.order c.buf dev blockno) [
  | some b ↦ ok (b, put_buf c b (record (c.buf b) { refcnt = ((c.buf b).refcnt + 1) % 2 ^ 32 }))
  | none ↦ elim (find_free c.order c.buf) [
    | some b ↦ ok (
      b,
      put_buf c b (record (c.buf b) { dev = dev; blockno = blockno; valid = false; refcnt = 1 }),
    )
    | none ↦ panic
  ]
]

unfoldable pub load : Cache → (b : ℕ) → Cache
load c b =
    if (c.buf b).valid
    then c
    else put_buf c b (record (c.buf b) { bytes = c.disk (c.buf b).blockno; valid = true })

unfoldable pub bread : Cache → (dev blockno : ℕ) → Run (ℕ × Cache)
unfolding bget load
bread c dev blockno = bget c dev blockno >>= λ r. ok (r.0, load r.1 r.0)

unfoldable pub bwrite : Cache → (b : ℕ) → Cache
bwrite c b = record c { disk = λ x. if x == (c.buf b).blockno then (c.buf b).bytes else c.disk x }

abbrev pub without : ℕ → List ℕ → List ℕ
without b [] = []
without b (a ∷ bs) = if a == b then bs else a ∷ without b bs

unfoldable pub brelse : Cache → (b : ℕ) → Cache
brelse c b =
    let n = ((c.buf b).refcnt + 2 ^ 32 - 1) % 2 ^ 32 in
    let c' = put_buf c b (record (c.buf b) { refcnt = n }) in
    if n == 0 then record c' { order = b ∷ without b c.order } else c'

-- `memmove` of 512 bytes.
abbrev pub piece : (from : ℕ → ℕ) → (to : ℕ → ℕ) → ℕ → ℕ
piece from to x = if ltb x 512 then from x else to x

-- The loop of `write_page_to_disk`; `page` has the bytes of the page. Block numbers are of type uint.
unfoldable pub write_page_loop : (rounds : ℕ) → Cache → (page : ℕ → ℕ) → (blk i : ℕ) → Run Cache
unfolding bget bwrite brelse
write_page_loop zero c page blk i = ok c
write_page_loop (suc n) c page blk i = bget c root_dev ((blk + i) % 2 ^ 32) >>= λ r.
    let filled =
      put_buf r.1 r.0 (record ((r.1).buf r.0) {
        bytes = piece (λ x. page (i * 512 + x)) ((r.1).buf r.0).bytes;
      }) in
    write_page_loop n (brelse (bwrite filled r.0) r.0) page blk (i + 1)

unfoldable pub write_page_to_disk : Cache → (page : ℕ → ℕ) → (blk : ℕ) → Run Cache
unfolding write_page_loop
write_page_to_disk c page blk = write_page_loop 8 c page blk 0

-- `memmove` of 512 bytes to the place `i * 512` of a page.
abbrev pub placed : (from page : ℕ → ℕ) → (i : ℕ) → ℕ → ℕ
placed from page i x =
    if leb (i * 512) x && ltb x (i * 512 + 512) then from (x - i * 512) else page x

unfoldable pub read_page_loop :
    (rounds : ℕ) → Cache → (page : ℕ → ℕ) → (blk i : ℕ) → Run ((ℕ → ℕ) × Cache)
unfolding bread brelse
read_page_loop zero c page blk i = ok (page, c)
read_page_loop (suc n) c page blk i = bread c root_dev ((blk + i) % 2 ^ 32) >>= λ r.
    read_page_loop n (brelse r.1 r.0) (placed ((r.1).buf r.0).bytes page i) blk (i + 1)

unfoldable pub read_page_from_disk : Cache → (page : ℕ → ℕ) → (blk : ℕ) → Run ((ℕ → ℕ) × Cache)
unfolding read_page_loop
read_page_from_disk c page blk = read_page_loop 8 c page blk 0
