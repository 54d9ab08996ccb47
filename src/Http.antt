-- ===== src/Http.antt =====
-- What a handler of net/http writes. Requests reach the handlers decoded: the user that the
-- middleware found, and the body that encoding/json read, if it could read it.
use go_spoc.Prelude.{ℕ, List}

-- What a handler may panic with: http.ErrAbortHandler, or any other value.
pub data Panic : Type 0 where
  abort_handler other_value : Panic

-- `http.Error(w, text, status)`, or a header with a value as JSON, or a panic of the handler.
pub data Reply {ℓ} (A : Type ℓ) : Type ℓ where
  error : ℕ → List ℕ → Reply A
  json : ℕ → A → Reply A
  panic : Panic → Reply A
