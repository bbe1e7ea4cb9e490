-- ===== src/Grep/Language.antt =====
-- What the expressions of grep.c mean, and that the matcher decides it.
use operating_system.Common.{
  ℕ, ◌≡◌, refl, sym, ap, ◌∙◌, subst, ◌↔◌, inl, inr, Bool, true, false, ◌||◌, List, [], ◌∷◌, ◌++◌,
  arith, ◌==◌, ==_iff, Bool-cases,
}
use operating_system.Grep.{
  caret, dollar, star, dot, fits, matchstar, match_one, is_empty, matchhere, match_loop, match,
}

abbrev pub starts_with : List ℕ → ℕ → Bool
starts_with [] c = false
starts_with (d ∷ _) c = d == c

-- A dollar sign stands for the end only as the last character.
abbrev pub is_end : (c : ℕ) → List ℕ → Bool
is_end c [] = c == dollar
is_end c (_ ∷ _) = false

abbrev pub AllFit : ℕ → List ℕ → Type 0
AllFit c [] = Unit {0}
AllFit c (t ∷ ts) = (fits c t ≡ true) × AllFit c ts

-- The expression matches the beginning of the text.
pub data Matches : (re text : List ℕ) → Type 0 where
  nothing : {text : List ℕ} → Matches [] text
  the_end : Matches (dollar ∷ []) []
  one :
      {c t : ℕ} {re ts : List ℕ}
      → starts_with re star ≡ false
      → is_end c re ≡ false
      → fits c t ≡ true
      → Matches re ts
      → Matches (c ∷ re) (t ∷ ts)
  many :
      {c : ℕ} {re ts : List ℕ} (xs : List ℕ)
      → AllFit c xs
      → Matches re ts
      → Matches (c ∷ star ∷ re) (xs ++ ts)

swapped : (c t : ℕ) → (t == c || c == dot) ≡ fits c t
swapped c t = ground arith

-- `matchstar` tries every number of repetitions.
matchstar_sound :
    (rest : List ℕ → Bool) (c : ℕ) (text : List ℕ)
    → matchstar rest c text ≡ true
    → (xs ys : List ℕ) × (text ≡ xs ++ ys) × AllFit c xs × (rest ys ≡ true)
unfolding matchstar
matchstar_sound rest c [] e = ([], [], refl, tt, e)
matchstar_sound rest c (t ∷ ts) e = elim (Bool-cases (rest (t ∷ ts))) [
  | inl h ↦ ([], t ∷ ts, refl, tt, h)
  | inr h ↦ elim (Bool-cases (t == c || c == dot)) [
    | inl g ↦
        let next : matchstar rest c (t ∷ ts) ≡ matchstar rest c ts = rw (h, g) refl in
        let (xs, ys, e', fit, last) = matchstar_sound rest c ts (sym next ∙ e) in
        (t ∷ xs, ys, ap (λ l. t ∷ l) e', (sym (swapped c t) ∙ g, fit), last)
    | inr g ↦ let stop : matchstar rest c (t ∷ ts) ≡ false = rw (h, g) refl in absurd (cc (stop, e))
  ]
]

matchstar_complete :
    (rest : List ℕ → Bool) (c : ℕ) (xs ys : List ℕ)
    → AllFit c xs
    → rest ys ≡ true
    → matchstar rest c (xs ++ ys) ≡ true
unfolding matchstar
matchstar_complete rest c [] [] fit e = e
matchstar_complete rest c [] (y ∷ ys) fit e = rw e
matchstar_complete rest c (x ∷ xs) ys fit e =
    let later : matchstar rest c (xs ++ ys) ≡ true = matchstar_complete rest c xs ys fit.1 e in
    let g : (x == c || c == dot) ≡ true = swapped c x ∙ fit.0 in
    elim (Bool-cases (rest (x ∷ xs ++ ys))) [ inl h ↦ rw h | inr h ↦ rw (h, g) later ]

at_end : (text : List ℕ) → is_empty text ≡ true → Matches (dollar ∷ []) text
at_end [] e = the_end
at_end (t ∷ ts) e = absurd (cc e)

step-Matches :
    (c : ℕ) (re text : List ℕ)
    → starts_with re star ≡ false
    → is_end c re ≡ false
    → ((ts : List ℕ) → matchhere re ts ≡ true → Matches re ts)
    → match_one (matchhere re) c text ≡ true
    → Matches (c ∷ re) text
step-Matches c re [] no_star no_end rest e = absurd (cc e)
step-Matches c re (t ∷ ts) no_star no_end rest e = elim (Bool-cases (fits c t)) [
  | inl h ↦
      let next : match_one (matchhere re) c (t ∷ ts) ≡ matchhere re ts = rw h in
      one no_star no_end h (rest ts (sym next ∙ e))
  | inr h ↦ let stop : match_one (matchhere re) c (t ∷ ts) ≡ false = rw h in absurd (cc (stop, e))
]

pub matchhere_sound : (re text : List ℕ) → matchhere re text ≡ true → Matches re text
unfolding matchhere
matchhere_sound [] text e = nothing
matchhere_sound (c ∷ []) text e = elim (Bool-cases (c == dollar)) [
  | inl h ↦
      let same : c ≡ dollar = (==_iff c dollar).0 h in
      subst (λ x. Matches (x ∷ []) text) (sym same) (at_end text (sym (rw h) ∙ e))
  | inr h ↦ step-Matches c [] text refl h (matchhere_sound []) (sym (rw h) ∙ e)
]
matchhere_sound (c ∷ d ∷ re) text e = elim (Bool-cases (d == star)) [
  | inl h ↦
      let same : d ≡ star = (==_iff d star).0 h in
      let (xs, ys, e', fit, last) = matchstar_sound (matchhere re) c text (sym (rw h) ∙ e) in
      subst (λ x. Matches (c ∷ x ∷ re) text) (sym same)
        (subst (λ l. Matches (c ∷ star ∷ re) l) (sym e') (many xs fit (matchhere_sound re ys last)))
  | inr h ↦ step-Matches c (d ∷ re) text h refl (matchhere_sound (d ∷ re)) (sym (rw h) ∙ e)
]

pub matchhere_complete : {re text : List ℕ} → Matches re text → matchhere re text ≡ true
unfolding matchhere
matchhere_complete nothing = refl
matchhere_complete the_end = refl
matchhere_complete (one {re = []} no_star no_end fit m) = rw (no_end, fit) refl
matchhere_complete (one {re = d ∷ re} no_star no_end fit m) =
    rw (no_star, fit) (matchhere_complete m)
matchhere_complete (many {c = c} {re = re} {ts = ts} xs fit m) =
    matchstar_complete (matchhere re) c xs ts fit (matchhere_complete m)

-- Where `match` may find the expression: at the beginning of the text if it starts with '^', else anywhere.
pub data Found : (re text : List ℕ) → Type 0 where
  at_start : {re text : List ℕ} → Matches re text → Found (caret ∷ re) text
  anywhere :
      {re text : List ℕ} (xs : List ℕ)
      → starts_with re caret ≡ false
      → Matches re text
      → Found re (xs ++ text)

match_loop_sound :
    (re text : List ℕ)
    → match_loop re text ≡ true
    → (xs ys : List ℕ) × (text ≡ xs ++ ys) × Matches re ys
unfolding match_loop
match_loop_sound re [] e = ([], [], refl, matchhere_sound re [] e)
match_loop_sound re (t ∷ ts) e = elim (Bool-cases (matchhere re (t ∷ ts))) [
  | inl h ↦ ([], t ∷ ts, refl, matchhere_sound re (t ∷ ts) h)
  | inr h ↦
      let next : match_loop re (t ∷ ts) ≡ match_loop re ts = rw h in
      let (xs, ys, e', m) = match_loop_sound re ts (sym next ∙ e) in
      (t ∷ xs, ys, ap (λ l. t ∷ l) e', m)
]

match_loop_complete : (re xs ys : List ℕ) → Matches re ys → match_loop re (xs ++ ys) ≡ true
unfolding match_loop
match_loop_complete re [] [] m = matchhere_complete m
match_loop_complete re [] (y ∷ ys) m = rw (matchhere_complete m)
match_loop_complete re (x ∷ xs) ys m =
    let later : match_loop re (xs ++ ys) ≡ true = match_loop_complete re xs ys m in
    elim (Bool-cases (matchhere re (x ∷ xs ++ ys))) [ inl h ↦ rw h | inr h ↦ rw h later ]

found :
    (re text : List ℕ) → starts_with re caret ≡ false → match_loop re text ≡ true → Found re text
found re text no_caret e =
    let (xs, ys, e', m) = match_loop_sound re text e in
    subst (λ l. Found re l) (sym e') (anywhere xs no_caret m)

match_sound : (re text : List ℕ) → match re text ≡ true → Found re text
unfolding match
match_sound [] text e = found [] text refl e
match_sound (c ∷ re) text e = elim (Bool-cases (c == caret)) [
  | inl h ↦
      let same : c ≡ caret = (==_iff c caret).0 h in
      let here : match (c ∷ re) text ≡ matchhere re text = rw h in
      subst (λ x. Found (x ∷ re) text) (sym same)
        (at_start (matchhere_sound re text (sym here ∙ e)))
  | inr h ↦
      let here : match (c ∷ re) text ≡ match_loop (c ∷ re) text = rw h in
      found (c ∷ re) text h (sym here ∙ e)
]

match_complete : {re text : List ℕ} → Found re text → match re text ≡ true
unfolding match
match_complete (at_start m) = matchhere_complete m
match_complete (anywhere {re = []} {text = text} xs no_caret m) = match_loop_complete [] xs text m
match_complete (anywhere {re = c ∷ re} {text = text} xs no_caret m) =
    rw no_caret (match_loop_complete (c ∷ re) xs text m)

-- `match` returns 1 exactly when the expression matches, with '^', '$', '.' and '*' read as grep means them.
pub match_lem : (re text : List ℕ) → (match re text ≡ true) ↔ Found re text
match_lem re text = (match_sound re text, match_complete)
