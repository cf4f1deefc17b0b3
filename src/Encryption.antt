-- ===== src/Encryption.antt =====
-- internal/encryption/encryption.go: the AES-GCM encryptor of the passphrases of volumes. The
-- cipher, the source of random bytes and the file system are parameters.
pub mod RoundTrip
mod Examples
use ceph_provider.Prelude.{ℕ, String, ◌++◌, ltb, not, ◌==◌, length, take, drop, if◌then◌else◌}
use ceph_provider.Errors.{new, wrap}
use ceph_provider.Exec.{Exec, Result, ok, err, pure, fail, lift, annotate, ◌>>=◌}
use ceph_provider.Api.{Bytes}
use ceph_provider.External.{Encryptor}

-- cipher.AEAD with no additional data: Seal appends to its first argument what `seal` gives.
pub record Aead : Type 0 where
  pub nonce_size : ℕ
  -- nonce and plaintext
  pub seal : Bytes → Bytes → Bytes
  -- nonce and ciphertext
  pub open_sealed : Bytes → Bytes → Result Bytes

-- os.ReadFile, io.ReadFull on rand.Reader, aes.NewCipher and cipher.NewGCM. A cipher is a handle `B`.
pub record Crypto (C B : Type 0) : Type 0 where
  pub read_file : String → Exec C Bytes
  pub read_random : ℕ → Exec C Bytes
  pub new_cipher : Bytes → Result B
  pub new_gcm : B → Result Aead

module _ {C B : Type 0} (crypto : Crypto C B) where
  unfoldable pub encrypt : Aead → Bytes → Exec C Bytes
  encrypt gcm key = do
    iv ← annotate "failed to create initialization vector" (crypto.read_random gcm.nonce_size)
    pure (iv ++ gcm.seal iv key)

  unfoldable pub decrypt : Aead → Bytes → Result Bytes
  decrypt gcm encrypted_key =
      if ltb (length encrypted_key) gcm.nonce_size
      then err (new "encrypted key length must be longer than initialization vector")
      else elim (gcm.open_sealed (take gcm.nonce_size encrypted_key)
          (drop gcm.nonce_size encrypted_key)) [
            | err e ↦ err (wrap "failed to decrypt key" e)
            | ok key ↦ ok key
          ]

  abbrev pub encryptor : Aead → Encryptor C
  encryptor gcm = record { encrypt = encrypt gcm; decrypt = decrypt gcm }

  unfoldable pub new_aes_gcm_encryptor : String → Exec C (Encryptor C)
  new_aes_gcm_encryptor kek_path = do
    kek ← annotate "failed to read kek file" (crypto.read_file kek_path)
    if not (length kek == 32) then fail (new "invalid key size") else do
      block ← lift (crypto.new_cipher kek)
      gcm ← annotate "failed to aes-gcm" (lift (crypto.new_gcm block))
      pure (encryptor gcm)
