-- ===== src/World.antt =====
-- What the program runs against: the database, the Redis server, the sandbox and the clocks.
-- The database's rows are modelled; how each call to the outside ends is a parameter.
pub mod Try
use go_spoc.Prelude.{ℕ, suc, String, Bool, List, [], ◌∷◌, ◌++◌, Option}
use go_spoc.Result.{Result, err}
use go_spoc.Db.{Db, DbError, connection}
use go_spoc.Events.{Event}
use go_spoc.Sandbox.{ExecRequest, Output}

-- The Redis commands that the program sends.
pub data Command : Type 0 where
  xadd : List (String × List ℕ) → Command
  xgroup_create : Command
  xreadgroup : List ℕ → Command
  xack : List ℕ → Command
  publish : List ℕ → Event → Command

-- A field's value in a message: a string, or a value of another type.
pub data Value : Type 0 where
  text : List ℕ → Value
  other : Value

pub record RawMessage : Type 0 where
  pub id : List ℕ
  pub values : List (String × Value)

-- What XREADGROUP answers: redis.Nil, an error, or the messages of each stream.
pub data ReadReply : Type 0 where
  nothing : ReadReply
  broken : ReadReply
  streams : List (List RawMessage) → ReadReply

-- How a statement ends: it is carried out and answered, it is refused, or it is carried out and
-- its answer is lost.
pub data Link : Type 0 where
  up refused lost : Link

-- The outside, by the number of the call. `sandbox` and `mkdir_temp` give none where the call
-- fails, `create_group` gives the text of the error, if there is one.
pub record Env : Type 0 where
  pub link : ℕ → Link
  pub redis : ℕ → Command → Bool
  pub create_group : ℕ → Option (List ℕ)
  pub read_group : ℕ → List ℕ → ReadReply
  pub sandbox : ℕ → ExecRequest → Option Output
  pub mkdir_temp : ℕ → Option (List ℕ)
  pub write_file : ℕ → List ℕ → List ℕ → Bool
  pub now : ℕ → ℕ
  pub wall_clock : ℕ → ℕ

-- `sent` are the commands that Redis was sent, `ran` what the sandbox was asked to run.
pub record World : Type 0 where
  pub db : Db
  pub sent : List Command
  pub ran : List ExecRequest
  pub calls : ℕ

abbrev pub Act : Type 0 → Type 0
Act A = Env → World → A × World

infixl 5 ◌>>=◌ ◌>>◌
abbrev pub ◌>>=◌ : {A B : Type 0} → Act A → (A → Act B) → Act B
◌>>=◌ m f env w = let (a, w') = m env w in f a env w'

abbrev pub ◌>>◌ : {A B : Type 0} → Act A → Act B → Act B
m >> k = m >>= λ _. k

abbrev pub pure : {A : Type 0} → A → Act A
pure a env w = (a, w)

-- A statement, given the server's NOW().
abbrev pub Statement : Type 0 → Type 0
Statement A = ℕ → Db → Result DbError A × Db

abbrev pub settle : {A : Type 0} → Link → Result DbError A × Db → World → Result DbError A × World
settle up (r, db) w = (r, record w { db = db; calls = suc w.calls })
settle refused (r, db) w = (err connection, record w { calls = suc w.calls })
settle lost (r, db) w = (err connection, record w { db = db; calls = suc w.calls })

unfoldable pub transact : {A : Type 0} → Statement A → Act (Result DbError A)
transact q env w = settle (env.link w.calls) (q (env.now w.calls) w.db) w

-- A command to Redis; the answer is whether it succeeded.
unfoldable pub send : Command → Act Bool
send c env w = (env.redis w.calls c, record w { sent = w.sent ++ c ∷ []; calls = suc w.calls })

-- XREADGROUP for one consumer of the group.
unfoldable pub read_messages : List ℕ → Act ReadReply
read_messages consumer env w = (
  env.read_group w.calls consumer,
  record w { sent = w.sent ++ xreadgroup consumer ∷ []; calls = suc w.calls },
)

-- XGROUP CREATE … MKSTREAM; the answer is the error, if there is one.
unfoldable pub create_group : Act (Option (List ℕ))
create_group env w = (
  env.create_group w.calls,
  record w { sent = w.sent ++ xgroup_create ∷ []; calls = suc w.calls },
)

-- Sandbox.Exec.
unfoldable pub exec : ExecRequest → Act (Option Output)
exec req env w =
    (env.sandbox w.calls req, record w { ran = w.ran ++ req ∷ []; calls = suc w.calls })

-- os.MkdirTemp and os.WriteFile.
unfoldable pub mkdir_temp : Act (Option (List ℕ))
mkdir_temp env w = (env.mkdir_temp w.calls, record w { calls = suc w.calls })

unfoldable pub write_file : List ℕ → List ℕ → Act Bool
write_file path content env w =
    (env.write_file w.calls path content, record w { calls = suc w.calls })
