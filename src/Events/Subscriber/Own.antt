-- ===== src/Events/Subscriber/Own.antt =====
-- A subscription gives the events of its own submission.
use mathlib.Core.List.{append_assoc, append-nil}
use go_spoc.Prelude.{
  ℕ, ◌≡◌, refl, sym, ap, ◌∙◌, true, List, [], ◌∷◌, ◌++◌, map, Option, some, All, codes, arith,
  if◌then◌else◌, Bool-cases, inl, inr,
}
use go_spoc.Prelude.Eq.{◌==◌, list_eq, list_beq_iff, nat_eq}
use go_spoc.Prelude.Int.{ℤ, int_eq, int_beq_iff}
use go_spoc.Strings.Decimal.{parse_int, format_int}
use go_spoc.Strings.Decimal.RoundTrip.{InInt64, parse_int-format_int}
use go_spoc.Db.{select}
use go_spoc.Events.{Event}
use go_spoc.Events.Publisher.{channel, publish_event}
use go_spoc.Events.Subscriber.{Delivery, subscribe, forward}
use go_spoc.World.{Env, World, Command, publish, Act, pure, ◌>>◌, send}

cancel : {A : Type 0} (p xs ys : List A) → p ++ xs ≡ p ++ ys → xs ≡ ys
cancel [] xs ys e = e
cancel (x ∷ p) xs ys e = cancel p xs ys cc

channel-injective : (i j : ℤ) → InInt64 i → InInt64 j → channel i ≡ channel j → i ≡ j
unfolding channel
channel-injective i j h k e =
    let same = cancel (codes "submission-events:") (format_int i) (format_int j) e in
    some-injective (sym (parse_int-format_int i h) ∙ ap parse_int same ∙ parse_int-format_int j k)
  where
    some-injective : some i ≡ some j → i ≡ j
    some-injective e = cc

channel_beq : (i j : ℤ) → InInt64 i → InInt64 j → (channel i == channel j) ≡ (i == j)
channel_beq i j h k = elim (Bool-cases (i == j)) [
  | inl e ↦
      rw (e, (list_beq_iff (channel i) (channel j)).1 (ap channel ((int_beq_iff i j).0 e))) refl
  | inr e ↦
      ground
        (arith, e, int_beq_iff i j, list_beq_iff (channel i) (channel j), channel-injective i j h k)
]

unfoldable pub publish_all : List Event → Act (Unit {0})
unfolding publish_event
publish_all [] = pure tt
publish_all (e ∷ es) = publish_event e >> publish_all es

abbrev published : List Event → List Command
published es = map (λ e. publish (channel e.submission_id) e) es

publish_all_sent :
    (es : List Event) (env : Env) (w : World)
    → (publish_all es env w).1.sent ≡ w.sent ++ published es
unfolding publish_all publish_event send
publish_all_sent [] env w = sym (append-nil w.sent)
publish_all_sent (e ∷ es) env w =
    publish_all_sent es env (publish_event e env w).1
    ∙ append_assoc w.sent (publish (channel e.submission_id) e ∷ []) (published es)

module _ (marshal : Event → List ℕ) where
  -- What Redis delivers to a subscription of a channel that is read to the end: the payload of each
  -- PUBLISH on it, in order.
  abbrev delivery : List ℕ → Command → List Delivery
  delivery c (publish c' e) =
      if c' == c then record { payload = marshal e; read = true } ∷ [] else []
  delivery c _ = []

  unfoldable pub deliveries : List Command → List ℕ → List Delivery
  deliveries [] c = []
  deliveries (m ∷ ms) c = delivery c m ++ deliveries ms c

  deliveries-append :
      (ms ns : List Command) (c : List ℕ)
      → deliveries (ms ++ ns) c ≡ deliveries ms c ++ deliveries ns c
  unfolding deliveries
  deliveries-append [] ns c = refl
  deliveries-append (m ∷ ms) ns c =
      ap (λ ds. delivery c m ++ ds) (deliveries-append ms ns c)
      ∙ sym (append_assoc (delivery c m) (deliveries ms c) (deliveries ns c))

  module _ (unmarshal : List ℕ → Option Event) where
    -- An event with the id of a row, that is read back from its payload.
    abbrev pub IsSent : Event → Type 0
    IsSent e = InInt64 e.submission_id × (unmarshal (marshal e) ≡ some e)

    forward-deliveries :
        (id : ℤ) (es : List Event)
        → InInt64 id
        → All IsSent es
        → forward unmarshal (deliveries (published es) (channel id))
          ≡ select (λ e. e.submission_id == id) es
    unfolding forward deliveries select
    forward-deliveries id [] h all = refl
    forward-deliveries id (e ∷ es) h ((k, back), all) =
        ground (arith, back, channel_beq e.submission_id id k h, forward-deliveries id es h all)

    -- If Redis gives a subscription the payload of each PUBLISH on its channel, and each payload is
    -- read back as the event that it was made of, then out of the events that are published in
    -- turn, of any submissions, a subscriber reads those of its own submission, in their order.
    pub subscribe-published :
        (id : ℤ) (es : List Event) (env : Env) (w : World)
        → InInt64 id
        → All IsSent es
        → w.sent ≡ []
        → subscribe unmarshal (deliveries (publish_all es env w).1.sent) id
          ≡ select (λ e. e.submission_id == id) es
    unfolding subscribe
    subscribe-published id es env w h all fresh =
        let sent = publish_all_sent es env w ∙ ap (λ ms. ms ++ published es) fresh in
        ap (λ ms. forward unmarshal (deliveries ms (channel id))) sent
        ∙ forward-deliveries id es h all
