-- ===== src/Cmd.antt =====
-- The programs of cmd. Each opens its connections and defers their closing.
pub mod Worker
pub mod Api
use go_spoc.Prelude.{Bool, List, [], ◌∷◌, ◌++◌, if◌then◌else◌}
use go_spoc.Storage.{Handle, Action, closed}
use go_spoc.World.{Act, pure, ◌>>=◌}

-- What a program comes to, with the connections that it opened and closed on the way.
abbrev pub Ran : Type 0 → Type 0
Ran A = A × List Action

-- `defer h.Close()`: it happens where the function returns, and not where the process dies.
abbrev pub deferred : {A : Type 0} → (A → Bool) → Handle → Act (Ran A) → Act (Ran A)
deferred returns h m = m >>= λ r. pure (r.0, if returns r.0 then r.1 ++ (closed h ∷ []) else r.1)

-- What is done behind a log of connections.
abbrev pub behind : {A : Type 0} → List Action → Act (Ran A) → Act (Ran A)
behind log m = m >>= λ r. pure (r.0, log ++ r.1)
