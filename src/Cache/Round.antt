-- ===== src/Cache/Round.antt =====
-- A round of the loops of write_page_to_disk and read_page_from_disk.
use operating_system.Common.{
  ℕ, ◌+◌, ◌%◌, ◌^◌, ◌<◌, ◌≡◌, refl, sym, ap, ◌∙◌, subst, ◌≢◌, inl, inr, true, ltb, lt→ltb, contains,
  ok, ◌>>=◌,
}
use operating_system.Cache.{Cache, root_dev, bget, bread, load, bwrite, brelse, piece}
use operating_system.Cache.Lookup.{IsIn, Got, bget_lem}
use operating_system.Cache.View.{
  IsUnique, Stored, HasFree, got-IsUnique, got-Stored, SameView, view-IsUnique, view-Stored,
  one_less, brelse-SameView, brelse-refcnt,
}
use operating_system.Cache.Write.{
  written, written-IsUnique, written-Stored, other-Stored, written-refcnt,
}
use operating_system.Cache.Load.{load-IsUnique, load-Stored, load-fields, load-bytes}

-- Every buffer stands for a block of its own, and one is unused.
pub record IsReady (c : Cache) : Type 0 where
  pub unique : IsUnique c
  pub free : HasFree c

-- A buffer that was unused is unused again when it is released.
pub released-HasFree :
    (c : Cache) (n b : ℕ) (c₁ c₂ : Cache)
    → Got c root_dev n b c₁
    → c₂.order ≡ c.order
    → ((a : ℕ) → (c₂.buf a).refcnt ≡ (c₁.buf a).refcnt)
    → HasFree c
    → HasFree (brelse c₂ b)
released-HasFree c n b c₁ c₂ g order counts (a, h, zero_refs) =
    let member : IsIn b c₂.order = subst (λ l. IsIn b l) (sym order) g.member in
    (
      a,
      (brelse-SameView c₂ b member).members a ∙ ap (λ l. contains l a) order ∙ h,
      elim (brelse-refcnt c₂ b a) [
        | inl (at, e) ↦
            e ∙ ap one_less (counts b ∙ one_ref (sym (ap (λ j. (c.buf j).refcnt) at) ∙ zero_refs))
        | inr (ne, e) ↦ e ∙ counts a ∙ ap (λ q. q.refcnt) (g.others a ne) ∙ zero_refs
      ],
    )
  where
    one_ref : (c.buf b).refcnt ≡ 0 → (c₁.buf b).refcnt ≡ 1
    one_ref z = elim g.before [
      | inl (_, _, _, _, up) ↦ up ∙ ap (λ r. (r + 1) % 2 ^ 32) z
      | inr (_, _, _, up) ↦ up
    ]

pub got :
    (c : Cache) (n : ℕ)
    → HasFree c
    → (b : ℕ) × (c₁ : Cache) × (bget c root_dev n ≡ ok (b, c₁)) × Got c root_dev n b c₁
got c n (a, h, z) = elim (bget_lem c root_dev n) [ inl r ↦ r | inr (_, busy) ↦ absurd (busy a h z) ]

-- A round of the loop of write_page_to_disk, on block `n`.
pub record WriteRound (c : Cache) (n : ℕ) (f : ℕ → ℕ) : Type 0 where
  pub b : ℕ
  pub c₁ : Cache
  pub gets : bget c root_dev n ≡ ok (b, c₁)
  pub ready : IsReady (brelse (written c₁ b (piece f (c₁.buf b).bytes)) b)
  pub stored : Stored (brelse (written c₁ b (piece f (c₁.buf b).bytes)) b) n f
  pub kept :
      (x : ℕ) (g : ℕ → ℕ)
      → x ≢ n
      → Stored c x g
      → Stored (brelse (written c₁ b (piece f (c₁.buf b).bytes)) b) x g

pub piece-Stored : (c : Cache) (n : ℕ) (f old : ℕ → ℕ) → Stored c n (piece f old) → Stored c n f
piece-Stored c n f old s = record {
  on_disk = λ i lt. s.on_disk i lt ∙ within i lt;
  cached = λ b h d e v i lt. s.cached b h d e v i lt ∙ within i lt;
}
  where
    within : (i : ℕ) → i < 512 → piece f old i ≡ f i
    within i lt = let t : ltb i 512 ≡ true = lt→ltb i 512 lt in rw t

pub write_round : (c : Cache) (n : ℕ) (f : ℕ → ℕ) → IsReady c → WriteRound c n f
unfolding bwrite
write_round c n f r =
    let (b, c₁, e, g) = got c n r.free in
    let new : ℕ → ℕ = piece f (c₁.buf b).bytes in
    let u : IsUnique c₁ = got-IsUnique c n b c₁ g r.unique in
    let h : IsIn b c₁.order = subst (λ l. IsIn b l) (sym g.same_order) g.member in
    let h' : IsIn b (written c₁ b new).order = written-member c₁ b new h in
    let v : SameView (written c₁ b new) (brelse (written c₁ b new) b) =
      brelse-SameView (written c₁ b new) b h' in
    record {
      b = b;
      c₁ = c₁;
      gets = e;
      ready = record {
        unique = view-IsUnique _ _ v (written-IsUnique c₁ n b new u h g.is_it.0 g.is_it.1);
        free =
            released-HasFree c n b c₁ (written c₁ b new) g (written-order c₁ b new ∙ g.same_order)
              (written-refcnt c₁ n b new u h g.is_it.0 g.is_it.1) r.free;
      };
      stored =
          piece-Stored _ n f (c₁.buf b).bytes
            (view-Stored _ _ n new v (written-Stored c₁ n b new u h g.is_it.0 g.is_it.1));
      kept = λ x k ne s.
          view-Stored _ _ x k v
            (other-Stored c₁ n b new u h g.is_it.0 g.is_it.1 x k ne (got-Stored c n b c₁ g x k s));
    }
  where
    written-order : (c : Cache) (b : ℕ) (f : ℕ → ℕ) → (written c b f).order ≡ c.order
    written-order c b f = refl

    written-member : (c : Cache) (b : ℕ) (f : ℕ → ℕ) → IsIn b c.order → IsIn b (written c b f).order
    written-member c b f h = h

-- A round of the loop of read_page_from_disk.
pub record ReadRound (c : Cache) (n : ℕ) (f : ℕ → ℕ) : Type 0 where
  pub b : ℕ
  pub c₁ : Cache
  pub reads : bread c root_dev n ≡ ok (b, c₁)
  pub ready : IsReady (brelse c₁ b)
  pub bytes_are : (i : ℕ) → i < 512 → (c₁.buf b).bytes i ≡ f i
  pub kept : (x : ℕ) (g : ℕ → ℕ) → Stored c x g → Stored (brelse c₁ b) x g

pub read_round : (c : Cache) (n : ℕ) (f : ℕ → ℕ) → IsReady c → Stored c n f → ReadRound c n f
unfolding bread
read_round c n f r s =
    let (b, c₁, e, g) = got c n r.free in
    let c₂ : Cache = load c₁ b in
    let order : c₂.order ≡ c.order = (load-fields c₁ b).0 ∙ g.same_order in
    let h : IsIn b c₁.order = subst (λ l. IsIn b l) (sym g.same_order) g.member in
    let v : SameView c₂ (brelse c₂ b) =
      brelse-SameView c₂ b (subst (λ l. IsIn b l) (sym order) g.member) in
    record {
      b = b;
      c₁ = c₂;
      reads = ap (λ m. m >>= λ q. ok (q.0, load q.1 q.0)) e;
      ready = record {
        unique = view-IsUnique _ _ v (load-IsUnique c₁ b (got-IsUnique c n b c₁ g r.unique));
        free = released-HasFree c n b c₁ c₂ g order (load-fields c₁ b).1 r.free;
      };
      bytes_are = load-bytes c₁ b n f (got-Stored c n b c₁ g n f s) h g.is_it.0 g.is_it.1;
      kept = λ x k s'. view-Stored _ _ x k v (load-Stored c₁ b x k (got-Stored c n b c₁ g x k s'));
    }
