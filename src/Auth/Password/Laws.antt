-- ===== src/Auth/Password/Laws.antt =====
-- A password is accepted against its own hash.
use go_spoc.Prelude.{
  ℕ, ◌<◌, ◌%◌, ◌^◌, ◌≡◌, ◌↔◌, ◌≢◌, refl, false, Bool-cases, inl, inr, sym, ap, ◌∙◌, true, List, [],
  ◌∷◌, some, codes, length, arith, All, Option, none,
}
use go_spoc.Prelude.Eq.{◌==◌, nat_eq, list_eq, list_beq_iff}
use go_spoc.Result.{ok}
use go_spoc.Strings.{split, join}
use go_spoc.Strings.Lines.{split-join}
use go_spoc.Strings.Decimal.{format_nat, digits_from}
use go_spoc.Strings.Base64.{encode}
use go_spoc.Strings.Base64.RoundTrip.{IsByte, decode-encode, encode-plain}
use go_spoc.Strings.Utf8.{utf8}
use go_spoc.Auth.Password.{
  Argon, encoded, made, hash_password, compared, verify_parts, verify_password,
}

-- What the program relies on: a key of the length asked for, made of bytes, as long as the
-- numbers of rounds and of threads are positive.
pub record IsKdf (argon : Argon) : Type 0 where
  pub key :
      (password salt : List ℕ) (time memory threads len : ℕ)
      → 0 < time
      → 0 < threads
      → (k : List ℕ) × (argon password salt time memory threads len ≡ some k)
        × (length k ≡ len)
        × All IsByte k

-- The six parts of an encoded hash.
encoded-parts :
    (b64_salt b64_hash : List ℕ)
    → encoded b64_salt b64_hash
      ≡ join b'$' (
          [] ∷ codes "argon2id" ∷ codes "v=19" ∷ codes "t=1,m=65536,p=4" ∷ b64_salt ∷ b64_hash ∷ [])
unfolding encoded join format_nat digits_from
encoded-parts b64_salt b64_hash = refl

module _ (argon : Argon) (password salt key : List ℕ) where
  -- An encoded hash is taken apart into what it was made of.
  verify-encoded :
      All IsByte salt
      → All IsByte key
      → verify_password argon password (encoded (encode salt) (encode key))
        ≡ compared key (argon (utf8 password) salt 1 65536 4 (length key % 2 ^ 32))
  unfolding verify_password verify_parts
  verify-encoded hs hk =
      ap (verify_parts argon password) (
        ap (split b'$') (encoded-parts (encode salt) (encode key))
        ∙ split-join b'$' [] _ (
          tt,
          (
            ground arith,
            (ground arith, (ground arith, (encode-plain salt hs, (encode-plain key hk, tt)))),
          ),
        ))
      ∙ rw (decode-encode salt hs, decode-encode key hk) refl

compared_iff : (key : List ℕ) (o : Option (List ℕ)) → (compared key o ≡ ok true) ↔ (o ≡ some key)
compared_iff key none = (λ h. cc, λ h. cc)
compared_iff key (some actual) = (
  λ h. ap some ((list_beq_iff actual key).0 (ground (arith, h))),
  λ h. ap ok ((list_beq_iff actual key).1 (ground (arith, h))),
)

module _ (argon : Argon) (kdf : IsKdf argon) (password salt : List ℕ) where
  abbrev pub key_of : List ℕ → Option (List ℕ)
  key_of other = argon (utf8 other) salt 1 65536 4 32

  -- What a password is compared with.
  pub verify_password-compared :
      All IsByte salt
      → (e key : List ℕ) × (hash_password argon password (some salt) ≡ ok e)
        × (key_of password ≡ some key)
        × ((other : List ℕ) → verify_password argon other e ≡ compared key (key_of other))
  unfolding hash_password
  verify_password-compared hs =
      let (key, derived, len, hk) =
        kdf.key (utf8 password) salt 1 65536 4 32 (omega arith) (omega arith) in
      (
        encoded (encode salt) (encode key),
        key,
        ap (made salt) derived,
        derived,
        λ other.
            verify-encoded argon other salt key hs hk
            ∙ ap (λ n. compared key (argon (utf8 other) salt 1 65536 4 (n % 2 ^ 32))) len,
      )

  -- A hash is always made, and a password is accepted against it exactly when argon2 derives from
  -- it, with the hash's salt, the key that it derived from the password that was hashed; this one is
  -- among them. The salt holds bytes, and argon2 gives keys of the length asked for, made of
  -- bytes.
  pub verify_password-hash_password :
      All IsByte salt
      → (e : List ℕ) × (hash_password argon password (some salt) ≡ ok e)
        × (verify_password argon password e ≡ ok true)
        × ((other : List ℕ)
            → (verify_password argon other e ≡ ok true)
              ↔ (argon (utf8 other) salt 1 65536 4 32 ≡ argon (utf8 password) salt 1 65536 4 32))
  verify_password-hash_password hs =
      let (e, key, hashed, derived, verifies) = verify_password-compared hs in
      (
        e,
        hashed,
        verifies password ∙ (compared_iff key _).1 derived,
        λ other. (
          λ h. (compared_iff key _).0 (sym (verifies other) ∙ h) ∙ sym derived,
          λ h. verifies other ∙ (compared_iff key _).1 (h ∙ derived),
        ),
      )

  -- A password from which argon2 derives another key is refused.
  pub verify_password_other :
      All IsByte salt
      → (e other : List ℕ) → hash_password argon password (some salt) ≡ ok e
      → key_of other ≢ key_of password
      → verify_password argon other e ≡ ok false
  verify_password_other hs e other made_e differ =
      let (e', key, hashed, derived, verifies) = verify_password-compared hs in
      let (k, derived', _, _) =
        kdf.key (utf8 other) salt 1 65536 4 32 (omega arith) (omega arith) in
      let same : e ≡ e' = ground (arith, made_e, hashed) in
      elim (Bool-cases (k == key)) [
        | inl hit ↦ absurd (differ (derived' ∙ ap some ((list_beq_iff k key).0 hit) ∙ sym derived))
        | inr miss ↦
            ap (verify_password argon other) same
            ∙ verifies other
            ∙ ap (compared key) derived'
            ∙ ap ok miss
      ]
