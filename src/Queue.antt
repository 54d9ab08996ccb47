-- ===== src/Queue.antt =====
-- internal/queue/queue.go and internal/queue/redisstream/redisstream.go. What Redis answers is a
-- parameter; the model records what it is sent.
pub mod Laws
use go_spoc.Prelude.{
  ℕ, String, Bool, true, false, not, ◌&&◌, List, [], ◌∷◌, Option, none, some, codes, if◌then◌else◌,
}
use go_spoc.Prelude.Eq.{◌==◌, nat_eq, string_eq}
use go_spoc.Prelude.Int.{ℤ}
use go_spoc.Result.{Result, ok, err}
use go_spoc.Strings.{contains}
use go_spoc.Strings.Decimal.{format_int, parse_int}
use go_spoc.World.{
  Act, pure, send, xadd, xack, read_messages, create_group, ReadReply, nothing, broken, streams,
  RawMessage, Value, text, other, ◌>>=◌, ◌>>◌,
}

pub record Job : Type 0 where
  pub submission_id : ℤ

pub record Message : Type 0 where
  pub id : List ℕ
  pub job : Job

pub data ConsumeError : Type 0 where
  no_message read_failed bad_submission_id : ConsumeError

abbrev pub field_submission_id : String
field_submission_id = "submission_id"

-- `New`: a group that is there already is no error.
unfoldable pub new : Act Bool
unfolding create_group
new = do e ← create_group; pure (accepted e)
  where
    accepted : Option (List ℕ) → Bool
    accepted none = true
    accepted (some message) = contains (codes "BUSYGROUP") message

abbrev pub job_fields : Job → List (String × List ℕ)
job_fields job = (field_submission_id, format_int job.submission_id) ∷ []

-- The answer is whether XADD succeeded.
unfoldable pub enqueue : Job → Act Bool
unfolding send
enqueue job = send (xadd (job_fields job))

-- `raw, _ := values[key].(string)`: "" if the key is missing or holds no string.
unfoldable pub string_field : String → List (String × Value) → List ℕ
string_field key [] = []
string_field key ((k, text s) ∷ rest) =
    let later = string_field key rest in if k == key then s else later
string_field key ((k, other) ∷ rest) =
    let later = string_field key rest in if k == key then [] else later

unfoldable pub parse_submission_id : List (String × Value) → Option ℤ
unfolding string_field
parse_submission_id values = parse_int (string_field field_submission_id values)

-- A message that cannot be read is acknowledged, so that it does not come again.
unfoldable pub decode : RawMessage → Option ℤ → Act (Result ConsumeError Message)
unfolding send
decode raw none = do _ ← send (xack raw.id); pure (err bad_submission_id)
decode raw (some id) = pure (ok (record { id = raw.id; job = record { submission_id = id } }))

unfoldable pub received : ReadReply → Act (Result ConsumeError Message)
unfolding decode
received nothing = pure (err no_message)
received broken = pure (err read_failed)
received (streams []) = pure (err no_message)
received (streams ([] ∷ _)) = pure (err no_message)
received (streams ((raw ∷ _) ∷ _)) = decode raw (parse_submission_id raw.values)

unfoldable pub consume : List ℕ → Act (Result ConsumeError Message)
unfolding read_messages received
consume consumer = do reply ← read_messages consumer; received reply

unfoldable pub ack : Message → Act Bool
unfolding send
ack msg = send (xack msg.id)

-- Nothing is sent: the message stays in the pending list.
unfoldable pub nack : Message → Act Bool
nack msg = pure true
