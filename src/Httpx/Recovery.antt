-- ===== src/Httpx/Recovery.antt =====
-- internal/httpx/recovery.go. No handler of the program writes before it panics.
use go_spoc.Prelude.{ℕ, List, Option, codes}
use go_spoc.Http.{Reply, error, json, panic, abort_handler, other_value}
use go_spoc.World.{Act, pure, ◌>>=◌}
use go_spoc.Httpx.RequestId.{Response, request_id}

unfoldable pub recover : {A : Type 0} → Reply A → Reply A
recover (panic abort_handler) = panic abort_handler
recover (panic other_value) = error 500 (codes "Internal Server Error")
recover (error status text) = error status text
recover (json status a) = json status a

-- `httpx.Recovery(logger)(httpx.RequestID(logger)(mux))`: the header is set before the handler
-- runs, and so stays when it panics.
unfoldable pub serve :
    {A : Type 0} → Option (ℕ → ℕ) → List ℕ → List ℕ → (List ℕ → Act (Reply A)) → Act (Response A)
unfolding request_id recover
serve random time_text header next =
    request_id random time_text header next >>= λ r. pure (record r { reply = recover r.reply })
