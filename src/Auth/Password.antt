-- ===== src/Auth/Password.antt =====
-- internal/auth/password.go. argon2 and the random source are parameters.
pub mod Laws
use go_spoc.Prelude.{ℕ, ◌+◌, ◌%◌, ◌^◌, Bool, List, [], ◌∷◌, ◌++◌, Option, none, some, codes, length}
use go_spoc.Prelude.Eq.{◌==◌, nat_eq, list_eq}
use go_spoc.Result.{Result, ok, err}
use go_spoc.Strings.{split, cut_prefix}
use go_spoc.Strings.Decimal.{format_nat}
use go_spoc.Strings.Base64.{encode, decode}
use go_spoc.Strings.Scan.{scan_uint, ◌>>=◌}
use go_spoc.Strings.Utf8.{utf8}

-- argon2.IDKey: password, salt, time, memory, threads and length of the key; none if it panics.
abbrev pub Argon : Type 0
Argon = List ℕ → List ℕ → ℕ → ℕ → ℕ → ℕ → Option (List ℕ)

abbrev pub argon_time : ℕ
argon_time = 1

abbrev pub argon_memory : ℕ
argon_memory = 65536

abbrev pub argon_threads : ℕ
argon_threads = 4

abbrev pub argon_key_len : ℕ
argon_key_len = 32

pub data PasswordError : Type 0 where
  no_randomness invalid_format parse_params decode_salt decode_hash panicked : PasswordError

-- fmt.Sprintf("$argon2id$v=19$t=%d,m=%d,p=%d$%s$%s", …)
unfoldable pub encoded : List ℕ → List ℕ → List ℕ
unfolding format_nat
encoded b64_salt b64_hash =
    codes "$argon2id$v=19$t="
    ++ (format_nat argon_time
        ++ (codes ",m="
            ++ (format_nat argon_memory
                ++ (codes ",p="
                    ++ (format_nat argon_threads ++ (b'$' ∷ (b64_salt ++ (b'$' ∷ b64_hash))))))))

abbrev pub made : List ℕ → Option (List ℕ) → Result PasswordError (List ℕ)
made salt none = err panicked
made salt (some hash) = ok (encoded (encode salt) (encode hash))

-- The salt is what rand.Read fills in; none if it fails.
unfoldable pub hash_password : Argon → List ℕ → Option (List ℕ) → Result PasswordError (List ℕ)
unfolding encoded encode
hash_password argon password none = err no_randomness
hash_password argon password (some salt) =
    made salt (argon (utf8 password) salt argon_time argon_memory argon_threads argon_key_len)

-- fmt.Sscanf(parts[3], "t=%d,m=%d,p=%d", &time, &memory, &threads)
unfoldable pub scan_params : List ℕ → Option (ℕ × ℕ × ℕ)
unfolding cut_prefix scan_uint
scan_params s = cut_prefix (codes "t=") s >>= scan_uint (2 ^ 32) >>= λ (time, s₁).
    cut_prefix (codes ",m=") s₁ >>= scan_uint (2 ^ 32) >>= λ (memory, s₂).
    cut_prefix (codes ",p=") s₂ >>= scan_uint (2 ^ 8) >>= λ (threads, s₃).
    some (time, memory, threads)

-- subtle.ConstantTimeCompare.
abbrev pub compared : List ℕ → Option (List ℕ) → Result PasswordError Bool
compared expected none = err panicked
compared expected (some actual) = ok (actual == expected)

module _ (argon : Argon) (password : List ℕ) where
  abbrev pub with_hash : ℕ × ℕ × ℕ → List ℕ → Option (List ℕ) → Result PasswordError Bool
  with_hash (time, memory, threads) salt none = err decode_hash
  with_hash (time, memory, threads) salt (some expected) =
      compared expected (argon (utf8 password) salt time memory threads (length expected % 2 ^ 32))

  abbrev pub with_salt : ℕ × ℕ × ℕ → Option (List ℕ) → List ℕ → Result PasswordError Bool
  with_salt params none b64_hash = err decode_salt
  with_salt params (some salt) b64_hash = with_hash params salt (decode b64_hash)

  abbrev pub with_params : Option (ℕ × ℕ × ℕ) → List ℕ → List ℕ → Result PasswordError Bool
  with_params none b64_salt b64_hash = err parse_params
  with_params (some params) b64_salt b64_hash = with_salt params (decode b64_salt) b64_hash

  -- `if len(parts) != 6`.
  unfoldable pub verify_parts : List (List ℕ) → Result PasswordError Bool
  unfolding scan_params decode
  verify_parts (p₀ ∷ p₁ ∷ p₂ ∷ p₃ ∷ p₄ ∷ p₅ ∷ []) = with_params (scan_params p₃) p₄ p₅
  verify_parts _ = err invalid_format

  unfoldable pub verify_password : List ℕ → Result PasswordError Bool
  unfolding verify_parts split
  verify_password encoded_hash = verify_parts (split b'$' encoded_hash)
