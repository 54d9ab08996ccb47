-- ===== src/Config/Laws.antt =====
-- Numbers in the environment.
use go_spoc.Prelude.{ℕ, String, ◌≡◌, refl, List, [], ◌∷◌, some, is_empty, false}
use go_spoc.Prelude.Int.{ℤ}
use go_spoc.Strings.Decimal.{format_int, parse_int}
use go_spoc.Strings.Decimal.RoundTrip.{parse_int-format_int, InInt64}
use go_spoc.Config.{get_int}

empty_refused : (s : List ℕ) {a : ℤ} → parse_int s ≡ some a → is_empty s ≡ false
unfolding parse_int
empty_refused [] h = cc
empty_refused (c ∷ s) h = refl

-- A variable that holds the decimal text of a 64-bit number is read as that number, whatever the
-- default.
pub get_int-format_int :
    (getenv : String → List ℕ) (key : String) (def a : ℤ)
    → InInt64 a
    → getenv key ≡ format_int a
    → get_int getenv key def ≡ a
unfolding get_int
get_int-format_int getenv key def a h e =
    let read = parse_int-format_int a h in rw (e, empty_refused (format_int a) read, read) refl
