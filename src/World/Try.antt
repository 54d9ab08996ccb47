-- ===== src/World/Try.antt =====
-- Chains of calls that stop at the first error: `if err != nil { return … }`.
use go_spoc.Prelude.{Bool, true, false, Option, none, some}
use go_spoc.Result.{Result, ok, err}
use go_spoc.World.{Env, World, Act}

abbrev pub Try : Type 0 → Type 0 → Type 0
Try E A = Act (Result E A)

abbrev pub continue : {E A B : Type 0} → (A → Try E B) → Result E A → Try E B
continue f (ok a) env w = f a env w
continue f (err e) env w = (err e, w)

infixl 5 ◌>>=◌ ◌>>◌
abbrev pub ◌>>=◌ : {E A B : Type 0} → Try E A → (A → Try E B) → Try E B
◌>>=◌ m f env w = let (r, w') = m env w in continue f r env w'

abbrev pub ◌>>◌ : {E A B : Type 0} → Try E A → Try E B → Try E B
m >> k = m >>= λ _. k

abbrev pub return : {E A : Type 0} → A → Try E A
return a env w = (ok a, w)

abbrev pub fail : {E A : Type 0} → E → Try E A
fail e env w = (err e, w)

-- The error wrapped, as `fmt.Errorf("…: %w", err)` does.
abbrev wrapped : {E F A : Type 0} → (E → F) → Result E A → Result F A
wrapped f (ok a) = ok a
wrapped f (err e) = err (f e)

abbrev pub wrap : {E F A : Type 0} → (E → F) → Try E A → Try F A
wrap f m env w = let (r, w') = m env w in (wrapped f r, w')

abbrev from_option : {E A : Type 0} → E → Option A → Result E A
from_option e none = err e
from_option e (some a) = ok a

abbrev pub require : {E A : Type 0} → E → Act (Option A) → Try E A
require e m env w = let (o, w') = m env w in (from_option e o, w')

abbrev from_bool : {E : Type 0} → E → Bool → Result E (Unit {0})
from_bool e true = ok tt
from_bool e false = err e

abbrev pub ensure : {E : Type 0} → E → Act Bool → Try E (Unit {0})
ensure e m env w = let (b, w') = m env w in (from_bool e b, w')

-- An error that is logged and otherwise ignored.
abbrev pub attempt : {E A : Type 0} → Act A → Try E A
attempt m env w = let (a, w') = m env w in (ok a, w')

-- What holds of a result, if there is one.
abbrev pub Ensures : {E A : Type 0} → (A → Type 0) → Result E A → Type 0
Ensures P (ok a) = P a
Ensures P (err e) = Unit

pub bind-Ensures :
    {E A B : Type 0} (P : B → Type 0) (m : Try E A) (f : A → Try E B) (env : Env) (w : World)
    → ((a : A) (w' : World) → Ensures P (f a env w').0)
    → Ensures P ((m >>= f) env w).0
bind-Ensures {E} {A} P m f env w h = go (m env w)
  where
    go : (r : Result E A × World) → Ensures P (continue f r.0 env r.1).0
    go (ok a, w') = h a w'
    go (err e, w') = tt
