-- ===== src/Encryption/Examples.antt =====
-- A cipher that puts a zero byte before the plaintext, with nonces of two bytes.
use ceph_provider.Prelude.{zero, suc, [], ◌∷◌, ◌≡◌, refl}
use ceph_provider.Errors.{new}
use ceph_provider.Exec.{Result, ok, err, pure, fail, catch, annotate}
use ceph_provider.Api.{Bytes}
use ceph_provider.Encryption.{Aead, Crypto, encrypt, decrypt, new_aes_gcm_encryptor}
use ceph_provider.Encryption.RoundTrip.{AeadLaws, decrypt-encrypt}

abbrev open_tagged : Bytes → Result Bytes
open_tagged [] = err (new "too short")
open_tagged (zero ∷ key) = ok key
open_tagged (suc n ∷ key) = err (new "message authentication failed")

abbrev tagged : Aead
tagged = record {
  nonce_size = 2;
  seal = λ iv key. 0 ∷ key;
  open_sealed = λ iv box. open_tagged box;
}

sealed_of : (box key : Bytes) → open_tagged box ≡ ok key → box ≡ 0 ∷ key
sealed_of [] key h = absurd (cc h)
sealed_of (zero ∷ rest) key h = cc h
sealed_of (suc n ∷ rest) key h = absurd (cc h)

tagged_laws : AeadLaws tagged
tagged_laws = record {
  open_sealed-seal = λ iv key. refl;
  seal-open_sealed = λ iv box key h. sealed_of box key h;
}

-- A world without state; the key file is short, and the random bytes are 7 and 9.
abbrev crypto : Crypto Unit Unit
crypto = record {
  read_file = λ path. pure (1 ∷ 2 ∷ 3 ∷ []);
  read_random = λ n. pure (7 ∷ 9 ∷ []);
  new_cipher = λ kek. ok tt;
  new_gcm = λ block. ok tagged;
}

short_kek : new_aes_gcm_encryptor crypto "kek" tt ≡ (err (new "invalid key size"), tt)
unfolding new_aes_gcm_encryptor pure fail catch annotate
short_kek = refl

decrypt-encrypt_example :
    (box : Bytes) × (encrypt crypto tagged (5 ∷ []) tt ≡ (ok box, tt))
    × (decrypt crypto tagged box ≡ ok (5 ∷ []))
unfolding pure
decrypt-encrypt_example =
    decrypt-encrypt crypto tagged tagged_laws (5 ∷ []) (7 ∷ 9 ∷ []) tt tt refl refl
