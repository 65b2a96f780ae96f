-- ===== src/Client/Sealed.antt =====
-- What the encryption of the client leaves: a field that decrypts to its plaintext.
use goph_keeper.Common.{
  ℕ, ◌+◌, true, ◌≡◌, refl, subst, Option, some, List, arith, length, ◌==◌, ==_iff,
}
use goph_keeper.Common.Bytes.{is_filled}
use goph_keeper.Vault.Payload.{EncryptedField}
use goph_keeper.Client.Run.{ok, ◌>>=◌, guard, random_failure, invalid_key_size}
use goph_keeper.Client.Steps.{Returns, steps, guard_passed, found-some}
use goph_keeper.Client.App.{App, read_random}
use goph_keeper.Client.Crypto.{Library, encrypt, decrypt, key_size, nonce_size}
use goph_keeper.Client.Vault.{encrypt_field, decrypt_field}

-- What the AEAD's documentation says: what was sealed with a key and a nonce of their sizes opens with
-- them, and is longer than the plaintext by its tag.
pub record AeadLaw (lib : Library) : Type 0 where
  pub opens :
      (key nonce plaintext : List ℕ)
      → length key ≡ key_size
      → length nonce ≡ nonce_size
      → lib.open_sealed key nonce (lib.seal key nonce plaintext) ≡ some plaintext
  pub tagged : (key nonce plaintext : List ℕ) → is_filled (lib.seal key nonce plaintext) ≡ true

-- rand.Read fills the slice.
abbrev pub FillsSlices : (ℕ → ℕ → Option (List ℕ)) → Type 0
FillsSlices random = (k n : ℕ) (b : List ℕ) → random k n ≡ some b → length b ≡ n

-- a ciphertext of a plaintext under a key
pub record IsSealed (lib : Library) (key plaintext nonce ciphertext : List ℕ) : Type 0 where
  pub key_sized : length key ≡ key_size
  pub nonce_sized : length nonce ≡ nonce_size
  pub is_seal : ciphertext ≡ lib.seal key nonce plaintext

-- a field that holds a plaintext under a key
abbrev pub Holds : Library → List ℕ → List ℕ → EncryptedField → Type 0
Holds lib key plaintext f = IsSealed lib key plaintext f.nonce f.ciphertext

-- the application after one draw of random bytes
abbrev pub drew : {R : Type 0} → App R → App R
drew a = record a { reads = a.reads + 1 }

pub read_random_drawn :
    {R : Type 0} (n : ℕ) (a : App R) (b : List ℕ) (a' : App R)
    → Returns (read_random n) a b a'
    → (a.random a.reads n ≡ some b) × (a' ≡ drew a)
unfolding read_random
read_random_drawn n a b a' h = found-some (a.random a.reads n) random_failure (drew a) b a' h

pub sealed_filled :
    (lib : Library) (key plaintext : List ℕ) (f : EncryptedField)
    → AeadLaw lib
    → Holds lib key plaintext f
    → is_filled f.ciphertext ≡ true
sealed_filled lib key plaintext f law h = rw h.is_seal (law.tagged key f.nonce plaintext)

pub decrypt-IsSealed :
    {S : Type 0} (lib : Library) (key plaintext nonce ciphertext : List ℕ) (s : S)
    → AeadLaw lib
    → IsSealed lib key plaintext nonce ciphertext
    → decrypt lib key nonce ciphertext s ≡ (ok plaintext, s)
unfolding decrypt ◌>>=◌
decrypt-IsSealed lib key plaintext nonce ciphertext s law h =
    let sized : (length key == key_size) ≡ true = ground (arith, h.key_sized) in
    let nonce_sized : (length nonce == nonce_size) ≡ true = ground (arith, h.nonce_sized) in
    rw (sized, nonce_sized, h.is_seal, law.opens key nonce plaintext h.key_sized h.nonce_sized) refl

module _ {R : Type 0} (lib : Library) where
  pub encrypt-IsSealed :
      (key plaintext : List ℕ) (a : App R) (r : List ℕ × List ℕ) (a' : App R)
      → FillsSlices a.random
      → Returns (encrypt lib key plaintext) a r a'
      → IsSealed lib key plaintext r.0 r.1 × (a' ≡ drew a)
  unfolding encrypt
  encrypt-IsSealed key plaintext a r a' law h =
      let (u, b, (sized, k)) = steps (guard (length key == key_size) invalid_key_size) _ a r a' h in
      let (fits, same) = guard_passed (length key == key_size) invalid_key_size a u b sized in
      let (nonce, c, (drawn, e)) = steps (read_random nonce_size) _ b r a' k in
      let (source, left) = read_random_drawn nonce_size b nonce c drawn in
      let n : r.0 ≡ nonce = cc in
      let ct : r.1 ≡ lib.seal key nonce plaintext = cc in
      let end : a' ≡ c = cc in
      (
        record {
          key_sized = (==_iff (length key) key_size).0 fits;
          nonce_sized = rw (n, law a.reads nonce_size nonce (rw same at source)) refl;
          is_seal = rw (ct, n) refl;
        },
        rw (end, left, same) refl,
      )

  pub encrypt_field-Holds :
      (key plaintext : List ℕ) (a : App R) (f : EncryptedField) (a' : App R)
      → FillsSlices a.random
      → Returns (encrypt_field lib key plaintext) a f a'
      → Holds lib key plaintext f × (a' ≡ drew a)
  unfolding encrypt_field
  encrypt_field-Holds key plaintext a f a' law h =
      let (r, b, (k, e)) = steps (encrypt lib key plaintext) _ a f a' h in
      let (sealed, drawn) = encrypt-IsSealed key plaintext a r b law k in
      let same : record { ciphertext = r.1; nonce = r.0 } ≡ f = cc in
      let end : b ≡ a' = cc in (subst (Holds lib key plaintext) same sealed, rw end at drawn)

  pub decrypt_field-Holds :
      (key plaintext : List ℕ) (f : EncryptedField) (a : App R)
      → AeadLaw lib
      → Holds lib key plaintext f
      → decrypt_field lib key (some f) a ≡ (ok plaintext, a)
  unfolding decrypt_field ◌>>=◌
  decrypt_field-Holds key plaintext f a law h =
      decrypt-IsSealed lib key plaintext f.nonce f.ciphertext a law h
