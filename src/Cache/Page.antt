-- ===== src/Cache/Page.antt =====
-- A page that is swapped out and read back: write_page_to_disk and read_page_from_disk.
use operating_system.Common.{
  ℕ, zero, suc, ◌+◌, ◌-◌, ◌*◌, ◌%◌, ◌^◌, ◌≤◌, ◌<◌, ◌≡◌, refl, ap, ◌∙◌, subst, ◌≢◌, ◌⊎◌, inl, inr,
  true, false, ◌&&◌, arith, ltb, leb, ltb→lt, Bool-cases, ok,
}
use operating_system.Cache.{
  Cache, brelse, piece, placed, write_page_loop, write_page_to_disk, read_page_loop,
  read_page_from_disk,
}
use operating_system.Cache.View.{Stored, same-cases}
use operating_system.Cache.Write.{written}
use operating_system.Cache.Round.{IsReady, WriteRound, write_round, ReadRound, read_round}

-- The block that has the piece `i` of the page.
abbrev place : ℕ → ℕ → ℕ
place blk i = (blk + i) % 2 ^ 32

place-distinct : (blk i j : ℕ) → i < j → j < 8 → place blk i ≢ place blk j
place-distinct blk i j lt eight e = omega arith

abbrev part : (ℕ → ℕ) → ℕ → ℕ → ℕ
part page i x = page (i * 512 + x)

write_page_loop_lem :
    (n : ℕ) (c : Cache) (page : ℕ → ℕ) (blk i : ℕ)
    → i + n ≤ 8
    → IsReady c
    → (c' : Cache) × (write_page_loop n c page blk i ≡ ok c')
      × IsReady c'
      × ((j : ℕ) → i ≤ j → j < i + n → Stored c' (place blk j) (part page j))
      × ((x : ℕ) (g : ℕ → ℕ)
          → ((j : ℕ) → i ≤ j → j < i + n → x ≢ place blk j)
          → Stored c x g
          → Stored c' x g)
unfolding write_page_loop
write_page_loop_lem zero c page blk i room r =
    (c, refl, r, λ j lo hi. absurd (omega arith), λ x g away s. s)
write_page_loop_lem (suc n) c page blk i room r =
    let w : WriteRound c (place blk i) (part page i) =
      write_round c (place blk i) (part page i) r in
    let next : Cache = brelse (written w.c₁ w.b (piece (part page i) (w.c₁.buf w.b).bytes)) w.b in
    let (c', e, r', stored, kept) =
      write_page_loop_lem n next page blk (i + 1) (omega arith) w.ready in
    let out : write_page_loop (suc n) c page blk i ≡ write_page_loop n next page blk (i + 1) =
      rw (w.gets, write_page_loop) refl in
    (
      c',
      out ∙ e,
      r',
      λ j lo hi. elim (same-cases i j) [
        | inl at ↦
            subst (λ m. Stored c' (place blk m) (part page m)) at
              (kept (place blk i) (part page i)
                (λ m lo' hi'. place-distinct blk i m (omega arith) (omega arith)) w.stored)
        | inr ne ↦ stored j (omega arith) (omega arith)
      ],
      λ x g away s.
          kept x g (λ j lo hi. away j (omega arith) (omega arith))
            (w.kept x g (away i (omega arith) (omega arith)) s),
    )

-- The bytes of a page from `placed`.
placed-in :
    (from page : ℕ → ℕ) (i y : ℕ)
    → i * 512 ≤ y
    → y < i * 512 + 512
    → placed from page i y ≡ from (y - i * 512)
placed-in from page i y lo hi =
    let t : (leb (i * 512) y && ltb y (i * 512 + 512)) ≡ true = ground arith in rw t

placed-out :
    (from page : ℕ → ℕ) (i y : ℕ)
    → (y < i * 512) ⊎ (i * 512 + 512 ≤ y)
    → placed from page i y ≡ page y
placed-out from page i y out =
    let t : (leb (i * 512) y && ltb y (i * 512 + 512)) ≡ false = ground arith in rw t

read_page_loop_lem :
    (n : ℕ) (c : Cache) (into page : ℕ → ℕ) (blk i : ℕ)
    → IsReady c
    → ((j : ℕ) → i ≤ j → j < i + n → Stored c (place blk j) (part page j))
    → (page' : ℕ → ℕ) × (c' : Cache) × (read_page_loop n c into blk i ≡ ok (page', c'))
      × IsReady c'
      × ((y : ℕ) → i * 512 ≤ y → y < (i + n) * 512 → page' y ≡ page y)
      × ((y : ℕ) → (y < i * 512) ⊎ ((i + n) * 512 ≤ y) → page' y ≡ into y)
unfolding read_page_loop
read_page_loop_lem zero c into page blk i r stored =
    (into, c, refl, r, λ y lo hi. absurd (omega arith), λ y out. refl)
read_page_loop_lem (suc n) c into page blk i r stored =
    let w : ReadRound c (place blk i) (part page i) =
      read_round c (place blk i) (part page i) r (stored i (omega arith) (omega arith)) in
    let into' : ℕ → ℕ = placed (w.c₁.buf w.b).bytes into i in
    let (page', c', e, r', inside, outside) =
      read_page_loop_lem n (brelse w.c₁ w.b) into' page blk (i + 1) w.ready
        (λ j lo hi. w.kept (place blk j) (part page j) (stored j (omega arith) (omega arith))) in
    let out : read_page_loop (suc n) c into blk i
        ≡ read_page_loop n (brelse w.c₁ w.b) into' blk (i + 1) =
      rw (w.reads, read_page_loop) refl in
    (
      page',
      c',
      out ∙ e,
      r',
      λ y lo hi. elim (Bool-cases (ltb y (i * 512 + 512))) [
        | inl t ↦
            let t' : y < i * 512 + 512 = ltb→lt y (i * 512 + 512) t in
            let back : i * 512 + (y - i * 512) ≡ y = omega arith in
            outside y (inl (omega arith))
            ∙ placed-in (w.c₁.buf w.b).bytes into i y lo t'
            ∙ w.bytes_are (y - i * 512) (omega arith)
            ∙ ap page back
        | inr t ↦ inside y (ground arith) (omega arith)
      ],
      λ y away. elim away [
        | inl lo ↦ outside y (inl (omega arith)) ∙ placed-out (w.c₁.buf w.b).bytes into i y (inl lo)
        | inr hi ↦
            outside y (inr (omega arith))
            ∙ placed-out (w.c₁.buf w.b).bytes into i y (inr (omega arith))
      ],
    )

-- When every buffer stands for a block of its own and one is unused, `write_page_to_disk` and then
-- `read_page_from_disk` of the same blocks both end, and the second gives back the 4096 bytes of the page
-- and leaves the others alone.
pub read_page_from_disk-write_page_to_disk :
    (c : Cache) (page into : ℕ → ℕ) (blk : ℕ)
    → IsReady c
    → (c₁ c₂ : Cache) × (page' : ℕ → ℕ) × (write_page_to_disk c page blk ≡ ok c₁)
      × (read_page_from_disk c₁ into blk ≡ ok (page', c₂))
      × ((y : ℕ) → y < 4096 → page' y ≡ page y)
      × ((y : ℕ) → 4096 ≤ y → page' y ≡ into y)
unfolding write_page_to_disk read_page_from_disk
read_page_from_disk-write_page_to_disk c page into blk r =
    let (c₁, e₁, r₁, stored, _) = write_page_loop_lem 8 c page blk 0 (omega arith) r in
    let (page', c₂, e₂, _, inside, outside) = read_page_loop_lem 8 c₁ into page blk 0 r₁ stored in
    (
      c₁,
      c₂,
      page',
      e₁,
      e₂,
      λ y lt. inside y (omega arith) (omega arith),
      λ y le. outside y (inr (omega arith)),
    )
