-- ===== src/Judge/Normalize.antt =====
-- internal/judge/judge.go: `normalize`, the form in which two outputs are compared.
use go_spoc.Prelude.{ℕ, Bool, List, [], ◌∷◌, ◌&&◌, ◌||◌, if◌then◌else◌, is_empty, map, false}
use go_spoc.Prelude.Eq.{◌==◌, nat_eq}
use go_spoc.Strings.{trim_right, split, join}

abbrev starts_line : List ℕ → Bool
starts_line [] = false
starts_line (c ∷ _) = c == 10

-- strings.ReplaceAll(s, "\r\n", "\n"): a carriage return before a line feed is dropped.
unfoldable pub replace_crlf : List ℕ → List ℕ
replace_crlf [] = []
replace_crlf (c ∷ s) =
    let rest = replace_crlf s in if c == 13 && starts_line s then rest else c ∷ rest

-- The cutset " \t".
abbrev pub is_blank : ℕ → Bool
is_blank c = c == 32 || c == 9

abbrev pub trim_blanks : List ℕ → List ℕ
trim_blanks = trim_right is_blank

abbrev pub trimmed_lines : List ℕ → List (List ℕ)
trimmed_lines s = map trim_blanks (split 10 (replace_crlf s))

unfoldable pub normalize : List ℕ → List ℕ
normalize s = join 10 (trim_right is_empty (trimmed_lines s))
