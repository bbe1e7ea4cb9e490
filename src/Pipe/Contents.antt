-- ===== src/Pipe/Contents.antt =====
-- The bytes in the pipe as a list, and what a round does to them.
use operating_system.Common.{
  ℕ, zero, suc, ◌+◌, ◌-◌, ◌%◌, ◌^◌, ◌≤◌, ◌<◌, ◌≡◌, refl, ap, ap₂, ◌∙◌, subst, ◌≢◌, Bool, true,
  false, Option, some, List, [], ◌∷◌, ◌++◌, arith, ◌==◌, if◌then◌else◌, length, get_or, set,
  length-set, get_or-set_self,
}
use operating_system.Pipe.{
  Pipe, pipe_size, pipealloc, pipewrite_round, piperead_round, goes_on, breaks, sleeps,
}

-- The `n` bytes from the counter value `r` on; the counters wrap at 2 ^ 32.
unfoldable pub bytes_from : List ℕ → (r n : ℕ) → List ℕ
bytes_from xs r zero = []
bytes_from xs r (suc n) = get_or xs (r % pipe_size) 0 ∷ bytes_from xs ((r + 1) % 2 ^ 32) n

-- The bytes that were written and not yet read.
unfoldable pub unread : Pipe → ℕ
unread p = (p.nwrite + 2 ^ 32 - p.nread) % 2 ^ 32

unfoldable pub contents : Pipe → List ℕ
unfolding bytes_from unread
contents p = bytes_from p.bytes p.nread (unread p)

pub record IsPipe (p : Pipe) : Type 0 where
  pub storage : length p.bytes ≡ pipe_size
  pub reads : p.nread < 2 ^ 32
  pub writes : p.nwrite < 2 ^ 32
  pub fits : unread p ≤ pipe_size

get_or-set_other : (xs : List ℕ) (i j v d : ℕ) → i ≢ j → get_or (set xs i v) j d ≡ get_or xs j d
get_or-set_other [] i j v d ne = refl
get_or-set_other (x ∷ xs) zero zero v d ne = absurd (ne refl)
get_or-set_other (x ∷ xs) zero (suc j) v d ne = refl
get_or-set_other (x ∷ xs) (suc i) zero v d ne = refl
get_or-set_other (x ∷ xs) (suc i) (suc j) v d ne = get_or-set_other xs i j v d (λ e. ne (ap suc e))

-- A store at counter `w` behind the bytes appends one.
pub bytes_from-set :
    (n r : ℕ) (xs : List ℕ) (v : ℕ)
    → length xs ≡ pipe_size
    → r < 2 ^ 32
    → n < pipe_size
    → bytes_from (set xs ((r + n) % 2 ^ 32 % pipe_size) v) r (suc n) ≡ bytes_from xs r n ++ v ∷ []
unfolding bytes_from
bytes_from-set zero r xs v l h k =
    let place : (r + 0) % 2 ^ 32 % pipe_size ≡ r % pipe_size = omega arith in
    rw place (ap (λ x. x ∷ []) (get_or-set_self xs (r % pipe_size) v 0 (omega arith)))
bytes_from-set (suc n) r xs v l h k =
    let place : ((r + 1) % 2 ^ 32 + n) % 2 ^ 32 ≡ (r + suc n) % 2 ^ 32 = omega arith in
    let other : (r + suc n) % 2 ^ 32 % pipe_size ≢ r % pipe_size = omega arith in
    ap₂ (λ x ys. x ∷ ys)
      (get_or-set_other xs ((r + suc n) % 2 ^ 32 % pipe_size) (r % pipe_size) v 0 other)
      (subst
        (λ w.
          bytes_from (set xs (w % pipe_size) v) ((r + 1) % 2 ^ 32) (suc n)
          ≡ bytes_from xs ((r + 1) % 2 ^ 32) n ++ v ∷ [])
        place (bytes_from-set n ((r + 1) % 2 ^ 32) xs v l (omega arith) (omega arith)))

pub pipealloc-contents : (junk : List ℕ) → contents (pipealloc junk) ≡ []
unfolding contents pipealloc
pipealloc-contents junk = refl

bytes_from-cons :
    (xs : List ℕ) (r n b : ℕ) (bs : List ℕ)
    → bytes_from xs r n ≡ b ∷ bs
    → (m : ℕ) × (n ≡ suc m)
      × (get_or xs (r % pipe_size) 0 ≡ b)
      × (bytes_from xs ((r + 1) % 2 ^ 32) m ≡ bs)
unfolding bytes_from
bytes_from-cons xs r zero b bs e = absurd (cc)
bytes_from-cons xs r (suc m) b bs e = (m, refl, cc, cc)

bytes_from-positive :
    (xs : List ℕ) (r n : ℕ)
    → 0 < n
    → (bs : List ℕ) × (bytes_from xs r n ≡ get_or xs (r % pipe_size) 0 ∷ bs)
unfolding bytes_from
bytes_from-positive xs r zero h = absurd (omega arith)
bytes_from-positive xs r (suc n) h = (bytes_from xs ((r + 1) % 2 ^ 32) n, refl)

module _ {p : Pipe} (v : IsPipe p) where
  -- While the pipe is open for reading and has room, a round of `pipewrite` puts its byte behind the
  -- others and goes on.
  pub pipewrite_round-appends :
      (ch : ℕ)
      → p.readopen ≡ true
      → unread p < pipe_size
      → (p' : Pipe) × (pipewrite_round p false (some ch) ≡ (goes_on, p'))
        × (contents p' ≡ contents p ++ ch ∷ [])
        × IsPipe p'
  unfolding pipewrite_round contents unread
  pipewrite_round-appends ch open_end room =
      let l : length p.bytes ≡ pipe_size = v.storage in
      let r : p.nread < 2 ^ 32 = v.reads in
      let w : p.nwrite < 2 ^ 32 = v.writes in
      let n : ℕ = (p.nwrite + 2 ^ 32 - p.nread) % 2 ^ 32 in
      let not_full : (p.nwrite == (p.nread + pipe_size) % 2 ^ 32) ≡ false = ground arith in
      let more : ((p.nwrite + 1) % 2 ^ 32 + 2 ^ 32 - p.nread) % 2 ^ 32 ≡ suc n = omega arith in
      let place : (p.nread + n) % 2 ^ 32 ≡ p.nwrite = omega arith in
      (
        record p {
          bytes = set p.bytes (p.nwrite % pipe_size) ch;
          nwrite = (p.nwrite + 1) % 2 ^ 32;
        },
        rw (open_end, not_full) refl,
        ap (bytes_from (set p.bytes (p.nwrite % pipe_size) ch) p.nread) more
            ∙ subst
                (λ x.
                  bytes_from (set p.bytes (x % pipe_size) ch) p.nread (suc n)
                  ≡ bytes_from p.bytes p.nread n ++ ch ∷ [])
                place (bytes_from-set n p.nread p.bytes ch l r room),
        record {
          storage = length-set p.bytes (p.nwrite % pipe_size) ch ∙ l;
          reads = r;
          writes = omega arith;
          fits = omega arith;
        },
      )

  -- A full pipe that is open for reading puts the writer to sleep, with nothing lost.
  pub pipewrite_round-sleeps :
      (copyin : Option ℕ)
      → p.readopen ≡ true
      → unread p ≡ pipe_size
      → pipewrite_round p false copyin ≡ (sleeps, p)
  unfolding pipewrite_round unread
  pipewrite_round-sleeps copyin open_end full =
      let r : p.nread < 2 ^ 32 = v.reads in
      let w : p.nwrite < 2 ^ 32 = v.writes in
      let is_full : (p.nwrite == (p.nread + pipe_size) % 2 ^ 32) ≡ true = ground arith in
      rw (open_end, is_full) refl

  -- A round of `piperead` takes the byte that was written first, if there is one.
  pub piperead_round-takes :
      (copyout : Bool) (b : ℕ) (bs : List ℕ)
      → contents p ≡ b ∷ bs
      → (p' : Pipe) × (piperead_round p copyout
          ≡ (some b, (if copyout then goes_on else breaks, p')))
        × (contents p' ≡ bs)
        × IsPipe p'
  unfolding piperead_round contents unread bytes_from
  piperead_round-takes copyout b bs e =
      let r : p.nread < 2 ^ 32 = v.reads in
      let w : p.nwrite < 2 ^ 32 = v.writes in
      let f : (p.nwrite + 2 ^ 32 - p.nread) % 2 ^ 32 ≤ pipe_size = v.fits in
      let (m, count, first, rest) =
        bytes_from-cons p.bytes p.nread ((p.nwrite + 2 ^ 32 - p.nread) % 2 ^ 32) b bs e in
      let not_empty : (p.nread == p.nwrite) ≡ false = ground arith in
      let less : (p.nwrite + 2 ^ 32 - (p.nread + 1) % 2 ^ 32) % 2 ^ 32 ≡ m = omega arith in
      (
        record p { nread = (p.nread + 1) % 2 ^ 32 },
        rw (not_empty, first) refl,
        ap (bytes_from p.bytes ((p.nread + 1) % 2 ^ 32)) less ∙ rest,
        record { storage = v.storage; reads = omega arith; writes = w; fits = omega arith },
      )

  -- Counters that differ mean that a byte is there.
  pub contents_cons :
      (p.nread == p.nwrite) ≡ false
      → (bs : List ℕ) × (contents p ≡ get_or p.bytes (p.nread % pipe_size) 0 ∷ bs)
  unfolding contents unread
  contents_cons differ =
      let r : p.nread < 2 ^ 32 = v.reads in
      let w : p.nwrite < 2 ^ 32 = v.writes in bytes_from-positive p.bytes p.nread _ (ground arith)
