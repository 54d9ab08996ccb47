-- ===== src/Judge/SameLines.antt =====
-- When two outputs have one normal form.
use go_spoc.Prelude.{ℕ, ◌≡◌, ◌≢◌, ◌↔◌, List, [], ◌∷◌, All, get_or, is_empty, map, ap, sym, ◌∙◌}
use go_spoc.Strings.{trim_right, split}
use go_spoc.Strings.Lines.{
  Free, split-Free, trim_right-All, trim_right-ne-blank, get_or-trim_right, trim_right_ext,
  join-injective,
}
use go_spoc.Judge.Lines.{line_at, SameInk, trim_blanks_iff, get_or-trimmed_lines}
use go_spoc.Judge.Normalize.{is_blank, trim_blanks, trimmed_lines, replace_crlf, normalize}

-- Line by line the outputs are equal but for spaces and tabs at the end of a line; a line ends at a
-- line feed or at CR LF, and one that is missing counts as empty.
abbrev pub SameLines : List ℕ → List ℕ → Type 0
SameLines s t = (i : ℕ) → SameInk (line_at i s) (line_at i t)

map-trim-Free : (ls : List (List ℕ)) → All (Free 10) ls → All (Free 10) (map trim_blanks ls)
map-trim-Free [] h = tt
map-trim-Free (l ∷ ls) h = (trim_right-All (λ c. c ≢ 10) is_blank l h.0, map-trim-Free ls h.1)

kept_lines-Free : (s : List ℕ) → All (Free 10) (trim_right is_empty (trimmed_lines s))
kept_lines-Free s =
    trim_right-All (Free 10) is_empty (trimmed_lines s)
      (map-trim-Free (split 10 (replace_crlf s)) (split-Free 10 (replace_crlf s)))

-- Two outputs have the same normal form exactly when, for each i, their i-th lines differ at most in
-- the spaces and tabs at the lines' ends. A line ends at a line feed or at a carriage return with a
-- line feed behind it, any other carriage return is part of its line, and a line behind the last
-- one is empty.
pub normalize_eq_iff : (s t : List ℕ) → (normalize s ≡ normalize t) ↔ SameLines s t
unfolding normalize
normalize_eq_iff s t = (
  λ e i.
      let same =
        join-injective 10 _ _ (kept_lines-Free s) (kept_lines-Free t)
          (trim_right-ne-blank (trimmed_lines s)) (trim_right-ne-blank (trimmed_lines t)) e in
      (trim_blanks_iff (line_at i s) (line_at i t)).0 (
        sym (get_or-trimmed_lines s i)
        ∙ sym (get_or-trim_right (trimmed_lines s) i)
        ∙ ap (λ ls. get_or ls i []) same
        ∙ get_or-trim_right (trimmed_lines t) i
        ∙ get_or-trimmed_lines t i),
  λ h. rw (
      trim_right_ext (trimmed_lines s) (trimmed_lines t) (λ i.
        get_or-trimmed_lines s i
        ∙ (trim_blanks_iff (line_at i s) (line_at i t)).1 (h i)
        ∙ sym (get_or-trimmed_lines t i))),
)
