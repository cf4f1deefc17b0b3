-- ===== src/Encryption/RoundTrip.antt =====
-- Passphrases that are encrypted and decrypted, over the laws of an authenticated cipher.
use ceph_provider.Prelude.{
  ◌≡◌, sym, ap, ◌∙◌, ◌++◌, false, ltb, length, length-append, take, drop, take-append, drop-append,
  take-append-drop, Bool-cases, inl, inr, arith,
}
use ceph_provider.Errors.{wrap}
use ceph_provider.Exec.{Result, ok, err, pure, catch, annotate}
use ceph_provider.Api.{Bytes}
use ceph_provider.Encryption.{Aead, Crypto, encrypt, decrypt}

-- What is sealed opens, and nothing else opens: the tag and the ciphertext are functions of the nonce
-- and the plaintext.
pub record AeadLaws (gcm : Aead) : Type 0 where
  pub open_sealed-seal : (iv key : Bytes) → gcm.open_sealed iv (gcm.seal iv key) ≡ ok key
  pub seal-open_sealed :
      (iv box key : Bytes) → gcm.open_sealed iv box ≡ ok key → box ≡ gcm.seal iv key

module _ {C B : Type 0} (crypto : Crypto C B) (gcm : Aead) (laws : AeadLaws gcm) where
  decrypt_nonce :
      (iv box : Bytes)
      → length iv ≡ gcm.nonce_size
      → (r : Result Bytes) → gcm.open_sealed iv box ≡ r
      → decrypt crypto gcm (iv ++ box)
        ≡ elim r [ err e ↦ err (wrap "failed to decrypt key" e) | ok key ↦ ok key ]
  unfolding decrypt
  decrypt_nonce iv box h r opens =
      let long : ltb (length (iv ++ box)) gcm.nonce_size ≡ false =
        rw (← h) (rw (length-append iv box) (ground arith)) in
      rw long (rw (← h) (rw (take-append iv box, drop-append iv box) (rw opens)))

  -- Where the random source gives as many bytes as the nonce has, Encrypt succeeds, and Decrypt
  -- gives the passphrase back from its result.
  pub decrypt-encrypt :
      (key iv : Bytes) (before after : C)
      → crypto.read_random gcm.nonce_size before ≡ (ok iv, after)
      → length iv ≡ gcm.nonce_size
      → (box : Bytes) × (encrypt crypto gcm key before ≡ (ok box, after))
        × (decrypt crypto gcm box ≡ ok key)
  unfolding encrypt annotate catch pure
  decrypt-encrypt key iv before after drawn h = (
    iv ++ gcm.seal iv key,
    rw drawn,
    decrypt_nonce iv (gcm.seal iv key) h (ok key) (laws.open_sealed-seal iv key),
  )

  -- Decrypt accepts no bytes but those that Encrypt makes of its result with some nonce.
  pub decrypt_sound :
      (box key : Bytes)
      → decrypt crypto gcm box ≡ ok key
      → (iv : Bytes) × (box ≡ iv ++ gcm.seal iv key)
  unfolding decrypt
  decrypt_sound box key h = elim (Bool-cases (ltb (length box) gcm.nonce_size)) [
    | inl short ↦ absurd (cc (rw short at h))
    | inr long ↦ (
      take gcm.nonce_size box,
      sym (take-append-drop gcm.nonce_size box)
          ∙ ap (λ rest. take gcm.nonce_size box ++ rest)
              (laws.seal-open_sealed (take gcm.nonce_size box) (drop gcm.nonce_size box) key
                (opens _ (rw long at h))),
    )
  ]
    where
      opens :
          (r : Result Bytes)
          → elim r [ err e ↦ err (wrap "failed to decrypt key" e) | ok k ↦ ok k ] ≡ ok key
          → r ≡ ok key
      opens (ok k) e = e
      opens (err x) e = absurd (cc e)
