-- ===== src/Tests/Streaming.antt =====
-- Events on their way to a subscriber.
use go_spoc.Prelude.{
  ℕ, ◌≡◌, refl, String, List, [], ◌∷◌, Option, none, some, codes, true, false, arith, if◌then◌else◌,
}
use go_spoc.Prelude.Eq.{◌==◌, list_eq, list_beq, nat_eq}
use go_spoc.Prelude.Int.{ℤ, pos, pos_part, int_eq}
use go_spoc.Db.{select}
use go_spoc.Events.{Event}
use go_spoc.Events.Subscriber.{subscribe, forward}
use go_spoc.Events.Subscriber.Own.{publish_all, deliveries, subscribe-published}
use go_spoc.Strings.{split, has_prefix}
use go_spoc.Submission.Handler.Stream.{body}
use go_spoc.Submission.Handler.Stream.Frames.{line_feed, messages, messages-body}
use go_spoc.Prelude.{map}
use go_spoc.Tests.Fixtures.{calm, start}

abbrev event : ℤ → String → Event
event id status = record {
  submission_id = id;
  status = status;
  verdict = none;
  runtime_ms = none;
  memory_kb = none;
}

-- A form that tells these events apart.
abbrev marshal : Event → List ℕ
marshal e = pos_part e.submission_id ∷ codes e.status

abbrev events : List Event
events = event (pos 1) "running" ∷ event (pos 2) "running" ∷ event (pos 1) "failed" ∷ []

abbrev find : List ℕ → List Event → Option Event
find p [] = none
find p (e ∷ es) = let rest = find p es in if marshal e == p then some e else rest

abbrev unmarshal : List ℕ → Option Event
unmarshal p = find p events

subscribe-published_example :
    subscribe unmarshal (deliveries marshal (publish_all events calm start).1.sent) (pos 1)
    ≡ select (λ e. e.submission_id == pos 1) events
unfolding list_beq
subscribe-published_example =
    subscribe-published marshal unmarshal (pos 1) events calm start (omega arith, omega arith)
      (
        ((omega arith, omega arith), refl),
        (((omega arith, omega arith), refl), (((omega arith, omega arith), refl), tt)),
      )
      refl

two_are_read :
    select (λ e. e.submission_id == pos 1) events
    ≡ event (pos 1) "running" ∷ event (pos 1) "failed" ∷ []
unfolding select
two_are_read = refl

-- The payload that is no event is passed over, and the reader stops at the event behind it.
stops_early :
    forward unmarshal (
      record { payload = codes "?"; read = false }
      ∷ record { payload = marshal (event (pos 1) "running"); read = true }
      ∷ record { payload = marshal (event (pos 1) "failed"); read = false }
      ∷ record { payload = marshal (event (pos 2) "running"); read = true }
      ∷ [])
    ≡ event (pos 1) "running" ∷ []
unfolding forward list_beq
stops_early = refl

abbrev two_events : List Event
two_events = event (pos 1) "running" ∷ event (pos 1) "done" ∷ []

messages-body_example :
    messages none (split line_feed (body marshal two_events)) ≡ map marshal two_events
messages-body_example = messages-body marshal two_events (ground arith, (ground arith, tt))

-- A text of two lines comes in two lines of data, and is joined again.
two_lines :
    messages none (split line_feed (codes "data: a\ndata: b\n\ndata: lost")) ≡ codes "a\nb" ∷ []
unfolding messages split has_prefix
two_lines = refl
