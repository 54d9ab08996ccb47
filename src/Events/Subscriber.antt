-- ===== src/Events/Subscriber.antt =====
-- internal/events/events.go: the subscriber. What json.Unmarshal makes of a payload is a parameter.
pub mod Own
use go_spoc.Prelude.{ℕ, Bool, true, false, List, [], ◌∷◌, Option, none, some}
use go_spoc.Prelude.Int.{ℤ}
use go_spoc.Events.{Event}
use go_spoc.Events.Publisher.{channel}

-- A message of the subscription, and whether its event is read from `out` before the context is
-- done.
pub record Delivery : Type 0 where
  pub payload : List ℕ
  pub read : Bool

-- A payload that is no event is passed over; an event that is not read ends the goroutine.
abbrev pub put_out : Option Event → Bool → List Event → List Event
put_out none read rest = rest
put_out (some e) true rest = e ∷ rest
put_out (some e) false rest = []

module _ (unmarshal : List ℕ → Option Event) where
  -- The events that are read from `out`.
  unfoldable pub forward : List Delivery → List Event
  forward [] = []
  forward (d ∷ ds) = let rest = forward ds in put_out (unmarshal d.payload) d.read rest

  -- `deliver` gives the messages of pubsub.Channel() for a channel's name.
  unfoldable pub subscribe : (List ℕ → List Delivery) → ℤ → List Event
  unfolding channel forward
  subscribe deliver submission_id = forward (deliver (channel submission_id))
