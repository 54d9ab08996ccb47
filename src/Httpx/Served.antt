-- ===== src/Httpx/Served.antt =====
-- What the client of a request is told.
use go_spoc.Prelude.{ℕ, ◌≡◌, ◌≢◌, ◌<◌, refl, List, [], ◌∷◌, some, is_empty, if◌then◌else◌, arith}
use go_spoc.Http.{Reply, error, json, panic, Panic, abort_handler, other_value}
use go_spoc.World.{Env, World, Act}
use go_spoc.Httpx.RequestId.{Response, request_id, new_request_id}
use go_spoc.Httpx.Recovery.{recover, serve}
use go_spoc.Httpx.Uuid.{IsUuid, new_request_id-IsUuid}

recover-ne-panic : {A : Type 0} (r : Reply A) → recover r ≢ panic other_value
unfolding recover
recover-ne-panic (error status text) h = cc
recover-ne-panic (json status a) h = cc
recover-ne-panic (panic abort_handler) h = ground (arith, h)
recover-ne-panic (panic other_value) h = cc

recover_kept : {A : Type 0} (r : Reply A) → ((value : Panic) → r ≢ panic value) → recover r ≡ r
unfolding recover
recover_kept (error status text) h = refl
recover_kept (json status a) h = refl
recover_kept (panic value) h = absurd (h value refl)

module _ {A : Type 0} (b : ℕ → ℕ) (time_text header : List ℕ) (next : List ℕ → Act (Reply A))
    (env : Env) (w : World) where
  abbrev pub served : Response A × World
  served = serve (some b) time_text header next env w

  abbrev pub id : List ℕ
  id = served.0.request_id

  -- A request is told its id, the client's if there is one and a UUID otherwise, which is the id
  -- that the handler was run with; a reply of the handler that is no panic is sent as it is; and
  -- the server sees no panic but that of http.ErrAbortHandler. The random source gives bytes.
  pub serve_identifies :
      ((i : ℕ) → b i < 256)
      → (header ≢ [] → id ≡ header)
        × (header ≡ [] → IsUuid id)
        × (served.1 ≡ (next id env w).1)
        × (((value : Panic) → (next id env w).0 ≢ panic value) → served.0.reply ≡ (next id env w).0)
        × (served.0.reply ≢ panic other_value)
  unfolding serve request_id
  serve_identifies h = (given header, fresh header, refl, recover_kept _, recover-ne-panic _)
    where
      given :
          (s : List ℕ) → s ≢ [] → (if is_empty s then new_request_id (some b) time_text else s) ≡ s
      given [] k = absurd (k refl)
      given (c ∷ s) k = refl

      fresh :
          (s : List ℕ)
          → s ≡ []
          → IsUuid (if is_empty s then new_request_id (some b) time_text else s)
      fresh [] k = new_request_id-IsUuid b time_text h
      fresh (c ∷ s) k = cc
