-- ===== src/Httpx/RequestId.antt =====
-- internal/httpx/request_id.go. An array is a function of the index.
use Prim.Native.Nat.{bit_and, bit_or}
use go_spoc.Prelude.{
  ℕ, zero, suc, ◌+◌, ◌/◌, ◌%◌, List, [], ◌∷◌, ◌++◌, Option, none, some, if◌then◌else◌, ltb,
  is_empty,
}
use go_spoc.Prelude.Eq.{◌==◌, nat_eq}
use go_spoc.Http.{Reply}
use go_spoc.World.{Act, pure, ◌>>=◌}

-- b[i : i + n].
unfoldable pub slice : (ℕ → ℕ) → ℕ → ℕ → List ℕ
slice b i zero = []
slice b i (suc n) = b i ∷ slice b (i + 1) n

abbrev pub hex_digit : ℕ → ℕ
hex_digit n = if ltb n 10 then b'0' + n else 87 + n

-- hex.EncodeToString.
unfoldable pub hex : List ℕ → List ℕ
hex [] = []
hex (b ∷ s) = hex_digit (b / 16) ∷ hex_digit (b % 16) ∷ hex s

abbrev pub set : ℕ → ℕ → (ℕ → ℕ) → ℕ → ℕ
set i v b j = if j == i then v else b j

-- `b[6] = (b[6] & 0x0f) | 0x40` and `b[8] = (b[8] & 0x3f) | 0x80`.
abbrev pub stamped : (ℕ → ℕ) → ℕ → ℕ
stamped b =
    let v = set 6 (bit_or (bit_and (b 6) 0x0f) 0x40) b in set 8 (bit_or (bit_and (v 8) 0x3f) 0x80) v

abbrev pub dashed : (ℕ → ℕ) → List ℕ
dashed b =
    hex (slice b 0 4)
    ++ (b'-'
        ∷ (hex (slice b 4 2)
            ++ (b'-'
                ∷ (hex (slice b 6 2)
                    ++ (b'-' ∷ (hex (slice b 8 2) ++ (b'-' ∷ hex (slice b 10 6))))))))

-- The random source fills sixteen bytes or fails; then the time, as a text, is the id.
unfoldable pub new_request_id : Option (ℕ → ℕ) → List ℕ → List ℕ
unfolding hex slice
new_request_id none time_text = hex time_text
new_request_id (some b) time_text = dashed (stamped b)

-- A reply with its header X-Request-ID.
pub record Response (A : Type 0) : Type 0 where
  pub request_id : List ℕ
  pub reply : Reply A

-- The handler finds the id in its context.
unfoldable pub request_id :
    {A : Type 0} → Option (ℕ → ℕ) → List ℕ → List ℕ → (List ℕ → Act (Reply A)) → Act (Response A)
unfolding new_request_id
request_id random time_text header next =
    let id = if is_empty header then new_request_id random time_text else header in
    (next id >>= λ reply. pure (record { request_id = id; reply = reply }))
