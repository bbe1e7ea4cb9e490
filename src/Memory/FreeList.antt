-- ===== src/Memory/FreeList.antt =====
-- The list that kalloc.c threads through the free pages, against a stack of pages.
use operating_system.Common.{
  ℕ, zero, suc, ◌+◌, ◌-◌, ◌/◌, ◌%◌, ◌≤◌, ◌<◌, ◌≡◌, refl, sym, ap, ◌∙◌, subst, ◌≢◌, ◌⊎◌, true, false,
  not, ◌||◌, List, [], ◌∷◌, arith, ltb, leb, ◌==◌, ==_refl, contains, ok, panic,
}
use operating_system.Memory.{
  page_size, phys_stop, Mem, store, fill_page, junk_free, junk_alloc, kfree, kalloc, freerange_loop,
  freerange, kinit, page_round_up,
}

-- From `p` the first words of the pages `xs` lead to 0. The pages are distinct, aligned and not 0.
pub data Chain (w : ℕ → ℕ) : ℕ → List ℕ → Type 0 where
  nil : Chain w 0 []
  cons :
      {p q : ℕ} {xs : List ℕ}
      → p ≢ 0
      → p % page_size ≡ 0
      → contains xs p ≡ false
      → w p ≡ q
      → Chain w q xs
      → Chain w p (p ∷ xs)

-- The allocator's free pages, the next to be handed out first.
abbrev pub Free : Mem → List ℕ → Type 0
Free m xs = Chain m.word m.freelist xs

-- A chain survives a change of memory that spares the first words of its pages.
pub frame :
    {v w : ℕ → ℕ} {p : ℕ} {xs : List ℕ}
    → Chain w p xs
    → ((a : ℕ) → contains xs a ≡ true → a % page_size ≡ 0 → v a ≡ w a)
    → Chain v p xs
frame nil same = nil
frame (cons {p} n al out e c) same =
    cons n al out (same p (ground (arith, ==_refl p)) al ∙ e)
      (frame c λ a i al'. same a (ground arith) al')

-- Filling an aligned page spares the first word of every other.
pub fill_page-other :
    (w : ℕ → ℕ) (p v a : ℕ)
    → p % page_size ≡ 0
    → a % page_size ≡ 0
    → a ≢ p
    → fill_page w p v a ≡ w a
unfolding fill_page
fill_page-other w p v a al al' ne = ground arith

pub fill_page-inside : (w : ℕ → ℕ) (p v a : ℕ) → p ≤ a → a < p + page_size → fill_page w p v a ≡ v
unfolding fill_page
fill_page-inside w p v a lo hi = ground arith

pub fill_page-outside :
    (w : ℕ → ℕ) (p v a : ℕ) → (a < p) ⊎ (p + page_size ≤ a) → fill_page w p v a ≡ w a
unfolding fill_page
fill_page-outside w p v a h = ground arith

pub frame-fill_page :
    {w : ℕ → ℕ} {q : ℕ} {xs : List ℕ} (p v : ℕ)
    → Chain w q xs
    → p % page_size ≡ 0
    → contains xs p ≡ false
    → Chain (fill_page w p v) q xs
frame-fill_page {w} p v c al out =
    frame c λ a i al'. fill_page-other w p v a al al' (λ e. cc (sym (rw e at i) ∙ out))

pub Chain-cons :
    {w : ℕ → ℕ} {p x : ℕ} {xs : List ℕ}
    → Chain w p (x ∷ xs)
    → (p ≡ x) × (p ≢ 0) × (p % page_size ≡ 0) × (contains xs p ≡ false) × Chain w (w p) xs
Chain-cons {w} (cons {p} {xs} n al out e c) =
    (refl, n, al, out, subst (λ q. Chain w q xs) (sym e) c)

pub Chain-nil : {w : ℕ → ℕ} {p : ℕ} → Chain w p [] → p ≡ 0
Chain-nil nil = refl

-- While a page is free, `kalloc` returns the one on top, takes it off the list, fills it with junk
-- and leaves every word outside it alone.
pub kalloc_cons :
    {m : Mem} {p : ℕ} {xs : List ℕ}
    → Free m (p ∷ xs)
    → (m' : Mem) × (kalloc m ≡ (p, m'))
      × Free m' xs
      × ((a : ℕ) → p ≤ a → a < p + page_size → m'.word a ≡ junk_alloc)
      × ((a : ℕ) → (a < p) ⊎ (p + page_size ≤ a) → m'.word a ≡ m.word a)
unfolding kalloc
kalloc_cons {m} {p} {xs} c =
    let (e, n, al, out, rest) = Chain-cons c in
    let some_page : (m.freelist == 0) ≡ false = ground arith in
    (
      record { word = fill_page m.word m.freelist junk_alloc; freelist = m.word m.freelist },
      rw some_page (
          ap
            (λ q. (
              q,
              record {
                word = fill_page m.word m.freelist junk_alloc;
                freelist = m.word m.freelist;
              },
            ))
            e),
      frame-fill_page m.freelist junk_alloc rest al out,
      λ a lo hi. fill_page-inside m.word m.freelist junk_alloc a (omega arith) (omega arith),
      λ a h. fill_page-outside m.word m.freelist junk_alloc a (omega arith),
    )

-- With no page free, `kalloc` returns 0 and changes nothing.
pub kalloc_nil : {m : Mem} → Free m [] → kalloc m ≡ (0, m)
unfolding kalloc
kalloc_nil {m} c =
    let e : m.freelist ≡ 0 = Chain-nil c in let z : (m.freelist == 0) ≡ true = ground arith in rw z

-- The pages that `kfree` accepts.
pub record IsPage (kernel_end p : ℕ) : Type 0 where
  pub aligned : p % page_size ≡ 0
  pub above : kernel_end ≤ p
  pub below : p < phys_stop
  pub not_zero : p ≢ 0

-- `kfree` of a page that is not free puts it on top of the list and writes nothing outside it.
pub kfree_cons :
    {kernel_end : ℕ} {m : Mem} {p : ℕ} {xs : List ℕ}
    → Free m xs
    → IsPage kernel_end p
    → contains xs p ≡ false
    → (m' : Mem) × (kfree kernel_end m p ≡ ok m')
      × Free m' (p ∷ xs)
      × ((a : ℕ) → (a < p) ⊎ (p + page_size ≤ a) → m'.word a ≡ m.word a)
unfolding kfree store
kfree_cons {kernel_end} {m} {p} {xs} c v out =
    let w : ℕ → ℕ = store (fill_page m.word p junk_free) p m.freelist in
    let accepted : (not (p % page_size == 0) || (ltb p kernel_end || leb phys_stop p)) ≡ false =
      ground (arith, v.aligned, v.above, v.below) in
    let kept : Chain w m.freelist xs =
      frame (frame-fill_page p junk_free c v.aligned out) (λ a i al. ground arith) in
    (
      record { word = w; freelist = p },
      rw accepted,
      cons v.not_zero v.aligned out (ground (arith, ==_refl p)) kept,
      λ a h. ground (arith, fill_page-outside m.word p junk_free a h),
    )

-- `kfree` of an address that is no page boundary, or outside the memory above the kernel, panics.
pub kfree_rejects :
    (kernel_end : ℕ) (m : Mem) (p : ℕ)
    → (p % page_size ≢ 0) ⊎ ((p < kernel_end) ⊎ (phys_stop ≤ p))
    → kfree kernel_end m p ≡ panic
unfolding kfree
kfree_rejects kernel_end m p h = ground arith

-- A page that is not free and that `kfree` accepts is the next one that `kalloc` returns, and the list
-- of free pages is then as before.
pub kalloc-kfree :
    {kernel_end : ℕ} {m : Mem} {p : ℕ} {xs : List ℕ}
    → Free m xs
    → IsPage kernel_end p
    → contains xs p ≡ false
    → (m₁ : Mem) × (m₂ : Mem) × (kfree kernel_end m p ≡ ok m₁) × (kalloc m₁ ≡ (p, m₂)) × Free m₂ xs
kalloc-kfree c v out =
    let (m₁, e₁, c₁, same₁) = kfree_cons c v out in
    let (m₂, e₂, c₂, junk, same₂) = kalloc_cons c₁ in (m₁, m₂, e₁, e₂, c₂)

-- `n` pages from `p` on, put on the list one after the other.
unfoldable pub pages_from : ℕ → ℕ → List ℕ → List ℕ
pages_from zero p xs = xs
pages_from (suc n) p xs = pages_from n (p + page_size) (p ∷ xs)

freerange_loop-pages :
    (fuel n : ℕ) {kernel_end : ℕ} {m : Mem} {xs : List ℕ} (p pa_end : ℕ)
    → Free m xs
    → ((a : ℕ) → contains xs a ≡ true → a < p)
    → p % page_size ≡ 0
    → 0 < p
    → kernel_end ≤ p
    → pa_end ≤ phys_stop
    → n ≡ (pa_end - p) / page_size
    → n < fuel
    → (m' : Mem) × (freerange_loop fuel kernel_end m p pa_end ≡ ok m') × Free m' (pages_from n p xs)
unfolding freerange_loop pages_from
freerange_loop-pages zero n p pa_end c low al pp hk hs hn hf = absurd (omega arith)
freerange_loop-pages (suc fuel) zero {m} p pa_end c low al pp hk hs hn hf =
    let stop : leb (p + page_size) pa_end ≡ false = ground arith in
    rw (stop, freerange_loop) (m, refl, c)
freerange_loop-pages (suc fuel) (suc n) {xs} p pa_end c low al pp hk hs hn hf =
    let go : leb (p + page_size) pa_end ≡ true = ground arith in
    let fresh : contains xs p ≡ false = ground (arith, low p) in
    let (m₁, e₁, c₁, same) =
      kfree_cons c
        (record { aligned = al; above = hk; below = omega arith; not_zero = omega arith }) fresh in
    rw (go, e₁, freerange_loop)
      (freerange_loop-pages fuel n (p + page_size) pa_end c₁ (λ a i. ground (arith, low a))
        (omega arith) (omega arith) (omega arith) hs (omega arith) (omega arith))

-- From an empty list `kinit` succeeds within its fuel, and the free pages are then exactly the
-- whole pages between the end of the kernel and the end of memory, the highest on top.
pub kinit_lem :
    (kernel_end : ℕ) (m : Mem)
    → m.freelist ≡ 0
    → 0 < kernel_end
    → kernel_end ≤ phys_stop
    → let start = page_round_up kernel_end in
      (m' : Mem) × (kinit kernel_end m ≡ ok m')
      × Free m' (pages_from ((phys_stop - start) / page_size) start [])
unfolding kinit freerange page_round_up
kinit_lem kernel_end m e pos_end below =
    freerange_loop-pages (phys_stop / page_size + 1) _ (page_round_up kernel_end) phys_stop
      (subst (λ f. Chain m.word f []) (sym e) nil) (λ a i. cc) (omega arith) (omega arith)
      (omega arith) (omega arith) refl (omega arith)
