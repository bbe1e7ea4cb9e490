-- ===== src/Proc/Counts.antt =====
-- The reference counts of open files when `fork` copies a table of them and `exit` closes it.
use operating_system.Common.{
  ℕ, ◌+◌, ◌-◌, ◌≤◌, ◌≡◌, refl, sym, ap, ◌∙◌, subst, inl, inr, false, Option, none, some, List, [],
  ◌∷◌, arith, ltb, ◌==◌, if◌then◌else◌, ==_iff, ==_refl, Bool-cases, ok, panic, ◌>>=◌, bind-ok,
}
use operating_system.Proc.Calls.{filedup, fileclose, dup_files, close_files}

-- How often a table of open files has the file `g`.
abbrev pub count : List (Option ℕ) → ℕ → ℕ
count [] g = 0
count (none ∷ fs) g = count fs g
count (some f ∷ fs) g = (if g == f then 1 else 0) + count fs g

count_self : (f : ℕ) (fs : List (Option ℕ)) → 1 ≤ count (some f ∷ fs) f
count_self f fs = rw (==_refl f) (omega arith)

dup_one :
    (refs refs' : ℕ → ℕ) (f : ℕ)
    → filedup refs f ≡ ok refs'
    → (g : ℕ) → refs' g ≡ refs g + (if g == f then 1 else 0)
unfolding filedup
dup_one refs refs' f e g = elim (Bool-cases (ltb (refs f) 1)) [
  | inl h ↦ let out : filedup refs f ≡ panic = rw h in absurd (cc (out, e))
  | inr h ↦
      let out : filedup refs f ≡ ok (λ g. if g == f then refs g + 1 else refs g) = rw h in
      let same : (λ g. if g == f then refs g + 1 else refs g) ≡ refs' = cc (out, e) in
      ap (λ r. r g) (sym same) ∙ at
]
  where
    at : (if g == f then refs g + 1 else refs g) ≡ refs g + (if g == f then 1 else 0)
    at = elim (Bool-cases (g == f)) [ inl h ↦ rw h | inr h ↦ rw h (omega arith) ]

-- `filedup` of each file adds to each count the number of times that the table has the file.
pub dup_files_lem :
    (fs : List (Option ℕ)) (refs refs' : ℕ → ℕ)
    → dup_files fs refs ≡ ok refs'
    → (g : ℕ) → refs' g ≡ refs g + count fs g
unfolding dup_files
dup_files_lem [] refs refs' e g =
    let same : refs ≡ refs' = cc e in ap (λ r. r g) (sym same) ∙ omega arith
dup_files_lem (none ∷ fs) refs refs' e g = dup_files_lem fs refs refs' e g
dup_files_lem (some f ∷ fs) refs refs' e g =
    let (r, first, rest) = bind-ok (filedup refs f) (dup_files fs) refs' e in
    let a : r g ≡ refs g + (if g == f then 1 else 0) = dup_one refs r f first g in
    let b : refs' g ≡ r g + count fs g = dup_files_lem fs r refs' rest g in omega (arith, a, b)

close_one :
    (refs : ℕ → ℕ) (f : ℕ)
    → 1 ≤ refs f
    → (r : ℕ → ℕ) × (fileclose refs f ≡ ok r) × ((g : ℕ) → r g + (if g == f then 1 else 0) ≡ refs g)
unfolding fileclose
close_one refs f has =
    let some_left : ltb (refs f) 1 ≡ false = ground arith in
    (
      λ g. if g == f then refs g - 1 else refs g,
      rw some_left,
      λ g. elim (Bool-cases (g == f)) [
        | inl h ↦
            let same : g ≡ f = (==_iff g f).0 h in
            let has' : 1 ≤ refs g = subst (λ x. 1 ≤ refs x) (sym same) has in rw h (omega arith)
        | inr h ↦ rw h (omega arith)
      ],
    )

-- When each file has as many references as the table has entries for it, no `fileclose` panics, and each
-- count goes down by that number.
pub close_files_lem :
    (fs : List (Option ℕ)) (refs : ℕ → ℕ)
    → ((g : ℕ) → count fs g ≤ refs g)
    → (r : ℕ → ℕ) × (close_files fs refs ≡ ok r) × ((g : ℕ) → r g + count fs g ≡ refs g)
unfolding close_files
close_files_lem [] refs enough = (refs, refl, λ g. omega arith)
close_files_lem (none ∷ fs) refs enough = close_files_lem fs refs enough
close_files_lem (some f ∷ fs) refs enough =
    let has : 1 ≤ refs f = omega (arith, enough f, count_self f fs) in
    let (r, first, one) = close_one refs f has in
    let (r', rest, down) = close_files_lem fs r (λ g. omega (arith, enough g, one g)) in
    (r', ap (λ m. m >>= close_files fs) first ∙ rest, λ g. omega (arith, one g, down g))

-- The files that `fork` has copied can be closed again, without a panic, and then every count is what it
-- was before.
pub dup_files-close_files :
    (fs : List (Option ℕ)) (refs refs' : ℕ → ℕ)
    → dup_files fs refs ≡ ok refs'
    → (r : ℕ → ℕ) × (close_files fs refs' ≡ ok r) × ((g : ℕ) → r g ≡ refs g)
dup_files-close_files fs refs refs' e =
    let up : (g : ℕ) → refs' g ≡ refs g + count fs g = dup_files_lem fs refs refs' e in
    let (r, closed, down) = close_files_lem fs refs' (λ g. omega (arith, up g)) in
    (r, closed, λ g. omega (arith, up g, down g))
