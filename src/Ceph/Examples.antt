-- ===== src/Ceph/Examples.antt =====
-- Keyrings with a header line, and one whose client is called keystone.
use Prim.Native.Char.{code}
use ceph_provider.Prelude.{String, [], ◌∷◌, ◌++◌, ◌≡◌, refl, arith}
use ceph_provider.Exec.{ok}
use ceph_provider.Ceph.Keyring.{
  Runes, byte_count, occurs, drop_cr, strip, extract_key, is_space, trim_left, trim_right,
}
use ceph_provider.Ceph.Extraction.{IsHeader, with_lines, key_line, extract_key-key_line}

abbrev codes : String → Runes
codes String.[] = []
codes (String.◌∷◌ c s) = code c ∷ codes s

codes-IsHeader : IsHeader (codes "[client.a]")
unfolding byte_count occurs drop_cr strip
codes-IsHeader = record {
  one_line = (refl, (refl, (refl, (refl, (refl, (refl, (refl, (refl, (refl, (refl, tt))))))))));
  fits = omega arith;
  no_key = refl;
}

extract_key-key_line_example :
    extract_key (with_lines (codes "[client.a]" ∷ []) (key_line (codes "Q=") ++ b'\n' ∷ codes "x"))
    ≡ ok (codes "Q=")
unfolding is_space byte_count
extract_key-key_line_example =
    extract_key-key_line b'Q' (codes "=") (refl, (refl, tt)) (codes "[client.a]" ∷ []) (codes "x")
      (codes-IsHeader, tt) (omega arith)

-- The key of a client whose name contains the word is its header.
keystone : extract_key (codes "[client.keystone]\n\tkey = Q=\n") ≡ ok (codes "[client.keystone]")
unfolding extract_key occurs strip is_space trim_left trim_right byte_count drop_cr
keystone = refl
