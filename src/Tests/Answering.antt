-- ===== src/Tests/Answering.antt =====
-- What surrounds the handlers.
use go_spoc.Prelude.{ℕ, ◌+◌, ◌%◌, ◌≡◌, ◌≢◌, refl, List, [], some, codes, arith}
use go_spoc.Http.{Panic, Reply, error, panic, other_value}
use go_spoc.World.{Act, pure, World}
use go_spoc.Httpx.RequestId.{Response, request_id, new_request_id, hex, slice}
use go_spoc.Httpx.Recovery.{serve, recover}
use go_spoc.Httpx.Uuid.{IsUuid}
use go_spoc.Httpx.Served.{serve_identifies}
use go_spoc.Tests.Fixtures.{start, calm}

abbrev noise : ℕ → ℕ
noise i = (i + 250) % 256

an_id : new_request_id (some noise) (codes "now") ≡ codes "fafbfcfd-feff-4001-8203-040506070809"
unfolding new_request_id hex slice
an_id = refl

-- GET /panic.
abbrev get_panic : List ℕ → Act (Reply ℕ)
get_panic id = pure (panic other_value)

abbrev answered : Response ℕ × World
answered = serve (some noise) (codes "now") (codes "mine") get_panic calm start

serve_identifies_example :
    (codes "mine" ≢ [] → answered.0.request_id ≡ codes "mine")
    × (codes "mine" ≡ [] → IsUuid answered.0.request_id)
    × (answered.1 ≡ start)
    × (((value : Panic) → (get_panic answered.0.request_id calm start).0 ≢ panic value)
        → answered.0.reply ≡ panic other_value)
    × (answered.0.reply ≢ panic other_value)
serve_identifies_example =
    serve_identifies noise (codes "now") (codes "mine") get_panic calm start (λ i. omega arith)

panic_is_500 : answered.0.reply ≡ error 500 (codes "Internal Server Error")
unfolding serve request_id recover
panic_is_500 = refl
