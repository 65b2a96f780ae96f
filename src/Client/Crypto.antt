-- ===== src/Client/Crypto.antt =====
-- internal/client/crypto, over XChaCha20-Poly1305, Argon2id and SHA-256 of Go's libraries.
use goph_keeper.Common.{ℕ, String, Option, List, length, ◌==◌}
use goph_keeper.Client.Run.{
  Exec, ◌>>=◌, ◌>>◌, pure, guard, found, invalid_key_size, invalid_nonce_size, open_failure,
}
use goph_keeper.Client.App.{App, read_random}

-- Seal and Open of an AEAD made from a key, with a nonce and no additional data; argon2.IDKey with
-- the parameters of DeriveKey; sha256.Sum256.
pub record Library : Type 0 where
  pub seal : List ℕ → List ℕ → List ℕ → List ℕ
  pub open_sealed : List ℕ → List ℕ → List ℕ → Option (List ℕ)
  pub id_key : String → List ℕ → List ℕ
  pub sha256 : List ℕ → List ℕ

-- chacha20poly1305.KeySize
abbrev pub key_size : ℕ
key_size = 32

-- chacha20poly1305.NonceSizeX
abbrev pub nonce_size : ℕ
nonce_size = 24

abbrev pub salt_size : ℕ
salt_size = 16

module _ {R : Type 0} where
  -- The nonce and the ciphertext.
  unfoldable pub encrypt : Library → List ℕ → List ℕ → Exec (App R) (List ℕ × List ℕ)
  encrypt lib key plaintext = do
    guard (length key == key_size) invalid_key_size
    nonce ← read_random nonce_size
    pure (nonce, lib.seal key nonce plaintext)

  unfoldable pub generate_salt : Exec (App R) (List ℕ)
  unfolding read_random
  generate_salt = read_random salt_size

unfoldable pub decrypt : {S : Type 0} → Library → List ℕ → List ℕ → List ℕ → Exec S (List ℕ)
decrypt lib key nonce ciphertext = do
  guard (length key == key_size) invalid_key_size
  guard (length nonce == nonce_size) invalid_nonce_size
  found (lib.open_sealed key nonce ciphertext) open_failure

unfoldable pub derive_key : Library → String → List ℕ → List ℕ
derive_key lib password salt = lib.id_key password salt
