-- ===== src/Strings/Case.antt =====
-- strings.ToLower, on code points. Beyond ASCII the case tables of Go's `unicode` package are a
-- parameter.
use go_spoc.Prelude.{ℕ, ◌+◌, List, map, ◌&&◌, if◌then◌else◌, leb, ltb}

unfoldable pub to_lower : (ℕ → ℕ) → List ℕ → List ℕ
to_lower unicode_lower =
    map λ c. if leb b'A' c && leb c b'Z' then c + 32 else if ltb c 128 then c else unicode_lower c
