-- ===== src/Ceph/Extraction.antt =====
-- The key that GetKeyFromKeyring finds in a keyring as ceph writes it.
use mathlib.Core.List.{append_assoc, append-nil}
use ceph_provider.Prelude.{
  ℕ, ◌+◌, ◌<◌, Bool, true, false, List, [], ◌∷◌, ◌++◌, ◌≡◌, refl, ap, ◌∙◌, arith, ltb, ◌==◌,
}
use ceph_provider.Exec.{ok}
use ceph_provider.Ceph.Keyring.{
  Runes, is_nil, byte_count, is_space, is_tab, trim_left, trim_right, trim, drop_cr, token,
  scan_onto, occurs, key_word, key_of_line, find_key, extract_key, trim_prefix, strip,
}

abbrev pub Avoids : (ℕ → Bool) → Runes → Type 0
Avoids cut [] = Unit
Avoids cut (c ∷ cs) = (cut c ≡ false) × Avoids cut cs

abbrev pub is_newline : ℕ → Bool
is_newline c = c == b'\n'

-- A line before the key: it fits in the buffer of the scanner and does not contain the word "key".
pub record IsHeader (line : Runes) : Type 0 where
  pub one_line : Avoids is_newline line
  pub fits : byte_count line < 65536
  pub no_key : occurs key_word (drop_cr line) ≡ false

abbrev pub AllHeaders : List Runes → Type 0
AllHeaders [] = Unit
AllHeaders (line ∷ lines) = IsHeader line × AllHeaders lines

-- Lines with their ends, before a text.
abbrev pub with_lines : List Runes → Runes → Runes
with_lines [] rest = rest
with_lines (line ∷ lines) rest = line ++ b'\n' ∷ with_lines lines rest

-- The line of a key in a keyring: `\tkey = <key>`.
abbrev pub key_line : Runes → Runes
key_line key = b'\t' ∷ b'k' ∷ b'e' ∷ b'y' ∷ b' ' ∷ b'=' ∷ b' ' ∷ key

scan_line :
    (read line rest : Runes)
    → Avoids is_newline line
    → scan_onto read (line ++ b'\n' ∷ rest) ≡ token (read ++ line) (scan_onto [] rest)
unfolding scan_onto
scan_line read [] rest h = rw (append-nil read) refl
scan_line read (c ∷ cs) rest h = rw (h.0) (
    scan_line (read ++ c ∷ []) cs rest h.1
    ∙ ap (λ l. token l (scan_onto [] rest)) (append_assoc read (c ∷ []) cs))

token-fits :
    (line : Runes) (rest : List Runes)
    → byte_count line < 65536
    → token line rest ≡ drop_cr line ∷ rest
unfolding token
token-fits line rest h = let fits : ltb (byte_count line) 65536 ≡ true = ground arith in rw fits

find_key-header :
    (line : Runes) (rest : List Runes) → IsHeader line → find_key (token line rest) ≡ find_key rest
unfolding find_key
find_key-header line rest h = rw (token-fits line rest h.fits) (rw (h.no_key))

find_key-skip :
    (lines : List Runes) (rest : Runes)
    → AllHeaders lines
    → find_key (scan_onto [] (with_lines lines rest)) ≡ find_key (scan_onto [] rest)
find_key-skip [] rest h = refl
find_key-skip (line ∷ lines) rest h =
    rw (scan_line [] line (with_lines lines rest) h.0.one_line)
      (find_key-header line _ h.0 ∙ find_key-skip lines rest h.1)

trim_right-Avoids : (cut : ℕ → Bool) (cs : Runes) → Avoids cut cs → trim_right cut cs ≡ cs
unfolding trim_right
trim_right-Avoids cut [] h = refl
trim_right-Avoids cut (c ∷ cs) h = rw (h.0) (ground (arith, trim_right-Avoids cut cs h.1))

-- What is not a space is neither a tab, nor a newline, nor a carriage return.
Avoids-spaces :
    (cut : ℕ → Bool)
    → ((c : ℕ) → is_space c ≡ false → cut c ≡ false)
    → (cs : Runes) → Avoids is_space cs
    → Avoids cut cs
Avoids-spaces cut h [] a = tt
Avoids-spaces cut h (c ∷ cs) a = (h c a.0, Avoids-spaces cut h cs a.1)

not_tab : (c : ℕ) → is_space c ≡ false → is_tab c ≡ false
unfolding is_space
not_tab c h = ground arith

not_newline : (c : ℕ) → is_space c ≡ false → is_newline c ≡ false
unfolding is_space
not_newline c h = ground arith

not_return : (c : ℕ) → is_space c ≡ false → (c == b'\r') ≡ false
unfolding is_space
not_return c h = ground arith

drop_cr-key : (cs : Runes) → Avoids is_space cs → drop_cr cs ≡ cs
unfolding drop_cr
drop_cr-key [] h = refl
drop_cr-key (c ∷ cs) h = rw (not_return c h.0) (ground (arith, drop_cr-key cs h.1))

trim_right-cons :
    (cut : ℕ → Bool) (c : ℕ) (cs : Runes)
    → is_nil cs ≡ false
    → trim_right cut cs ≡ cs
    → trim_right cut (c ∷ cs) ≡ c ∷ cs
unfolding trim_right
trim_right-cons cut c cs n e = rw (e, n) refl

-- Text that ends in what is not cut.
trim_right-append :
    (cut : ℕ → Bool) (front : Runes) (x : ℕ) (xs : Runes)
    → Avoids cut (x ∷ xs)
    → trim_right cut (front ++ x ∷ xs) ≡ front ++ x ∷ xs
trim_right-append cut [] x xs h = trim_right-Avoids cut (x ∷ xs) h
trim_right-append cut (c ∷ front) x xs h =
    trim_right-cons cut c (front ++ x ∷ xs) (nonempty front) (trim_right-append cut front x xs h)
  where
    nonempty : (front : Runes) → is_nil (front ++ x ∷ xs) ≡ false
    nonempty [] = refl
    nonempty (d ∷ ds) = refl

blank : is_space b' ' ≡ true
unfolding is_space
blank = refl

module _ (x : ℕ) (xs : Runes) (h : Avoids is_space (x ∷ xs)) where
  abbrev key : Runes
  key = x ∷ xs

  not_tabs : Avoids is_tab key
  not_tabs = Avoids-spaces is_tab not_tab key h

  trim_tabs : trim is_tab (key_line key) ≡ b'k' ∷ b'e' ∷ b'y' ∷ b' ' ∷ b'=' ∷ b' ' ∷ key
  unfolding trim trim_left
  trim_tabs = trim_right-append is_tab (b'k' ∷ b'e' ∷ b'y' ∷ b' ' ∷ b'=' ∷ b' ' ∷ []) x xs not_tabs

  trim_line :
      trim is_space (b'k' ∷ b'e' ∷ b'y' ∷ b' ' ∷ b'=' ∷ b' ' ∷ key)
      ≡ b'k' ∷ b'e' ∷ b'y' ∷ b' ' ∷ b'=' ∷ b' ' ∷ key
  unfolding trim trim_left is_space
  trim_line = trim_right-append is_space (b'k' ∷ b'e' ∷ b'y' ∷ b' ' ∷ b'=' ∷ b' ' ∷ []) x xs h

  trim_equals : trim is_space (b' ' ∷ b'=' ∷ b' ' ∷ key) ≡ b'=' ∷ b' ' ∷ key
  unfolding trim trim_left is_space
  trim_equals = trim_right-append is_space (b'=' ∷ b' ' ∷ []) x xs h

  trim_left_blank : trim_left is_space (b' ' ∷ key) ≡ key
  unfolding trim_left
  trim_left_blank = rw (blank, h.0) refl

  trim-key : trim is_space (b' ' ∷ key) ≡ key
  unfolding trim
  trim-key = rw trim_left_blank (trim_right-Avoids is_space key h)

  key_of_line-key : key_of_line (key_line key) ≡ key
  unfolding key_of_line trim_prefix strip
  key_of_line-key = rw trim_tabs (rw trim_line (rw trim_equals trim-key))

  byte_count_line : byte_count key + 7 < 65536 → byte_count (key_line key) < 65536
  unfolding byte_count
  byte_count_line short = omega arith

  drop_cr-key_line : drop_cr (key_line key) ≡ key_line key
  unfolding drop_cr
  drop_cr-key_line = ap key_line (drop_cr-key key h)

  find_key-key_line : (rest : List Runes) → find_key (key_line key ∷ rest) ≡ key
  unfolding find_key occurs strip
  find_key-key_line rest = key_of_line-key

  find_key-scan :
      (rest : Runes)
      → byte_count (x ∷ xs) + 7 < 65536
      → find_key (scan_onto [] (key_line key ++ b'\n' ∷ rest)) ≡ key
  find_key-scan rest short =
      ap find_key (
        scan_line [] (key_line key) rest no_newline
        ∙ token-fits (key_line key) (scan_onto [] rest) (byte_count_line short)
        ∙ ap (λ line. line ∷ scan_onto [] rest) drop_cr-key_line)
      ∙ find_key-key_line (scan_onto [] rest)
    where
      no_newline : Avoids is_newline (key_line key)
      no_newline = (
        refl,
        (refl, (refl, (refl, (refl, (refl, (refl, Avoids-spaces is_newline not_newline key h)))))),
      )

  -- GetKeyFromKeyring finds the key in a keyring as ceph writes it: after lines that do not contain
  -- the word "key", from the line `key = <key>`, whatever follows; where the key is not empty and has
  -- no spaces, and each of these lines is shorter than 64 KiB.
  pub extract_key-key_line :
      (lines : List Runes) (rest : Runes)
      → AllHeaders lines
      → byte_count (x ∷ xs) + 7 < 65536
      → extract_key (with_lines lines (key_line (x ∷ xs) ++ b'\n' ∷ rest)) ≡ ok (x ∷ xs)
  unfolding extract_key
  extract_key-key_line lines rest a short =
      rw (find_key-skip lines (key_line key ++ b'\n' ∷ rest) a ∙ find_key-scan rest short) refl
