-- ===== src/Grep/Tests.antt =====
-- The expression ^a.*b$ on the line axyb.
use operating_system.Common.{ℕ, ◌≡◌, refl, ◌↔◌, true, List, [], ◌∷◌}
use operating_system.Grep.{match, match_loop, matchhere, matchstar}
use operating_system.Grep.Language.{Found, match_lem}

abbrev expression : List ℕ
expression = 94 ∷ 97 ∷ 46 ∷ 42 ∷ 98 ∷ 36 ∷ []

abbrev line : List ℕ
line = 97 ∷ 120 ∷ 121 ∷ 98 ∷ []

match_lem_example : (match expression line ≡ true) ↔ Found expression line
match_lem_example = match_lem expression line

found_in_line : match expression line ≡ true
unfolding match match_loop matchhere matchstar
found_in_line = refl
