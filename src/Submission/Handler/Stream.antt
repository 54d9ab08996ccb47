-- ===== src/Submission/Handler/Stream.antt =====
-- internal/submission/handler.go: `Events`, the stream of Server-Sent Events.
pub mod Frames
use go_spoc.Prelude.{
  ℕ, String, Bool, true, false, ◌||◌, List, [], ◌∷◌, ◌++◌, Option, none, some, codes, if◌then◌else◌,
}
use go_spoc.Prelude.Eq.{◌==◌, string_eq}
use go_spoc.Prelude.Int.{ℤ}
use go_spoc.Http.{Reply, error, json, panic}
use go_spoc.World.{Act, pure, ◌>>=◌}
use go_spoc.Events.{Event}
use go_spoc.Submission.{Submission, status_text}
use go_spoc.Submission.Handler.{load_owned, parse_id}

abbrev pub is_terminal : String → Bool
is_terminal status = status == "done" || status == "failed"

abbrev pub snapshot : Submission → Event
snapshot s = record {
  submission_id = s.id;
  status = status_text s.status;
  verdict = s.verdict;
  runtime_ms = s.runtime_ms;
  memory_kb = s.memory_kb;
}

-- What the `select` of the loop chooses: the request's context is done, or the channel of updates
-- is closed or gives an event.
pub data Signal : Type 0 where
  cancelled closed : Signal
  update : Event → Signal

-- writeSSE, with json.Marshal as a parameter, and what it writes for several events.
module _ (marshal : Event → List ℕ) where
  unfoldable pub write_sse : Event → List ℕ
  write_sse e = codes "data: " ++ (marshal e ++ codes "\n\n")

  unfoldable pub body : List Event → List ℕ
  unfolding write_sse
  body [] = []
  body (e ∷ es) = write_sse e ++ body es

-- What a run of the handler has written, and whether it has returned: if not, it waits.
pub record Streamed : Type 0 where
  pub events : List Event
  pub returned : Bool

abbrev pub write_event : Event → Streamed → Streamed
write_event e later =
    if is_terminal e.status
    then record { events = e ∷ []; returned = true }
    else record { events = e ∷ later.events; returned = later.returned }

-- The loop; behind the list of signals it waits.
unfoldable pub follow : List Signal → Streamed
follow [] = record { events = []; returned = false }
follow (cancelled ∷ _) = record { events = []; returned = true }
follow (closed ∷ _) = record { events = []; returned = true }
follow (update e ∷ signals) = write_event e (follow signals)

abbrev pub streamed : List Signal → Reply Submission → Reply Streamed
streamed signals (error status text) = error status text
streamed signals (panic value) = panic value
streamed signals (json status s) = json status (write_event (snapshot s) (follow signals))

unfoldable pub begin : Bool → ℤ → Option ℤ → List Signal → Act (Reply Streamed)
unfolding load_owned follow
begin flushes user_id none signals = pure (error 400 (codes "invalid submission id"))
begin flushes user_id (some id) signals =
    if flushes
    then (load_owned user_id (some id) >>= λ reply. pure (streamed signals reply))
    else pure (error 500 (codes "streaming unsupported"))

-- The answer is the error, or what was written to the stream. `flushes` is whether the writer
-- is an `http.Flusher`.
unfoldable pub stream : Bool → Option ℤ → List ℕ → List Signal → Act (Reply Streamed)
unfolding begin parse_id
stream flushes none path_id signals = pure (error 401 (codes "unauthorized"))
stream flushes (some user_id) path_id signals = begin flushes user_id (parse_id path_id) signals
