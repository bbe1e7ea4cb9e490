-- ===== src/Grep.antt =====
-- The matcher of mp2/user/grep.c. A string is the list of its characters before the 0 that ends it.
pub mod Language
mod Tests
use operating_system.Common.{
  ℕ, zero, suc, ◌+◌, ◌-◌, ◌*◌, ◌/◌, ◌%◌, ◌^◌, ◌≤◌, ◌<◌, min, max, ◌≡◌, refl, sym, ap, ap₂, ◌∙◌,
  subst, ◌≢◌, ◌↔◌, ◌⊎◌, inl, inr, Bool, true, false, not, ◌&&◌, ◌||◌, Option, none, some, List, [],
  ◌∷◌, ◌++◌, append-nil, append_assoc, arith, ltb, leb, ◌==◌, if◌then◌else◌, ltb→lt, lt→ltb, le→ltb,
  ==_iff, ==_refl, Bool-cases, Option-cases, length, get_elem?, get_or, set, take, drop, replicate,
  erase_idx, length-append, length-set, length-take, length-drop, length-replicate,
  length-erase_idx, take-set, get_or-take, get_or-set_self, contains, contains-append, IsDistinct,
  append-IsDistinct, get_elem?-lt, get_elem?-contains, Run, ok, panic, fault, out_of_fuel, ◌>>=◌,
  ◌>>◌, bind-ok, ℤ, pos, negsuc, minus_one, is_negative,
}

-- '^', '$', '*' and '.'
abbrev pub caret : ℕ
caret = 94

abbrev pub dollar : ℕ
dollar = 36

abbrev pub star : ℕ
star = 42

abbrev pub dot : ℕ
dot = 46

-- Whether the character `c` of an expression matches the character `t`.
abbrev pub fits : (c t : ℕ) → Bool
fits c t = c == dot || c == t

-- The loop of `matchstar` on `text`; `rest` is `matchhere` of the rest of the expression.
unfoldable pub matchstar : (rest : List ℕ → Bool) → (c : ℕ) → (text : List ℕ) → Bool
matchstar rest c [] = rest []
matchstar rest c (t ∷ ts) =
    let later = matchstar rest c ts in
    if rest (t ∷ ts) then true else if t == c || c == dot then later else false

-- One character of the expression and one of the text.
abbrev pub match_one : (rest : List ℕ → Bool) → (c : ℕ) → (text : List ℕ) → Bool
match_one rest c [] = false
match_one rest c (t ∷ ts) = if fits c t then rest ts else false

abbrev pub is_empty : List ℕ → Bool
is_empty [] = true
is_empty (_ ∷ _) = false

unfoldable pub matchhere : (re text : List ℕ) → Bool
unfolding matchstar
matchhere [] text = true
matchhere (c ∷ []) text = if c == dollar then is_empty text else match_one (matchhere []) c text
matchhere (c ∷ d ∷ re) text =
    let starred = matchstar (matchhere re) c text in
    let one = match_one (matchhere (d ∷ re)) c text in if d == star then starred else one

-- The loop of `match`.
unfoldable pub match_loop : (re text : List ℕ) → Bool
unfolding matchhere
match_loop re [] = matchhere re []
match_loop re (t ∷ ts) =
    let later = match_loop re ts in if matchhere re (t ∷ ts) then true else later

unfoldable pub match : (re text : List ℕ) → Bool
unfolding match_loop matchhere
match [] text = match_loop [] text
match (c ∷ re) text = if c == caret then matchhere re text else match_loop (c ∷ re) text
