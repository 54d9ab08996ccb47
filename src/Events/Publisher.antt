-- ===== src/Events/Publisher.antt =====
-- internal/events/events.go: the publisher.
use go_spoc.Prelude.{ℕ, Bool, List, ◌++◌, codes}
use go_spoc.Prelude.Int.{ℤ}
use go_spoc.Strings.Decimal.{format_int}
use go_spoc.Events.{Event}
use go_spoc.World.{Act, publish, send}

unfoldable pub channel : ℤ → List ℕ
channel submission_id = codes "submission-events:" ++ format_int submission_id

-- json.Marshal of an `Event` does not fail, so the command carries the event itself.
unfoldable pub publish_event : Event → Act Bool
publish_event e = send (publish (channel e.submission_id) e)
