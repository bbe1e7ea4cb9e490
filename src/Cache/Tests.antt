-- ===== src/Cache/Tests.antt =====
-- The cache after `binit`, and a page that goes through it.
use operating_system.Common.{ℕ, ◌%◌, ◌≤◌, ◌<◌, ◌≡◌, refl, ◌≢◌, ◌⊎◌, false, [], arith, ok, panic}
use operating_system.Cache.{Cache, binit, link_all, bget, write_page_to_disk, read_page_from_disk}
use operating_system.Cache.Lookup.{IsIn, Got, bget_lem}
use operating_system.Cache.Page.{read_page_from_disk-write_page_to_disk}
use operating_system.Cache.Round.{IsReady}

abbrev empty : Cache
empty = binit (record {
  order = [];
  buf = λ _. record { valid = false; dev = 0; blockno = 0; refcnt = 0; bytes = λ _. 0 };
  disk = λ n i. n;
})

empty-IsReady : IsReady empty
unfolding binit link_all
empty-IsReady = record {
  unique = λ a b ha hb da db e. absurd (omega (arith, da));
  free = (0, refl, refl);
}

read_page_from_disk-write_page_to_disk_example :
    (c₁ c₂ : Cache) × (page' : ℕ → ℕ) × (write_page_to_disk empty (λ y. y % 256) 48 ≡ ok c₁)
    × (read_page_from_disk c₁ (λ _. 9) 48 ≡ ok (page', c₂))
    × ((y : ℕ) → y < 4096 → page' y ≡ y % 256)
    × ((y : ℕ) → 4096 ≤ y → page' y ≡ 9)
read_page_from_disk-write_page_to_disk_example =
    read_page_from_disk-write_page_to_disk empty (λ y. y % 256) (λ _. 9) 48 empty-IsReady

bget_lem_example :
    ((b : ℕ) × (c' : Cache) × (bget empty 1 48 ≡ ok (b, c')) × Got empty 1 48 b c')
    ⊎ ((bget empty 1 48 ≡ panic) × ((a : ℕ) → IsIn a empty.order → (empty.buf a).refcnt ≢ 0))
bget_lem_example = bget_lem empty 1 48
