-- ===== src/Ceph/Keyring.antt =====
-- GetKeyFromKeyring of internal/ceph/auth.go. A keyring is a list of code points: a file that is
-- valid UTF-8.
use ceph_provider.Prelude.{
  ℕ, ◌+◌, String, Bool, true, false, ◌&&◌, ◌||◌, Option, none, some, List, [], ◌∷◌, ◌++◌, ltb, leb,
  ◌==◌, if◌then◌else◌,
}
use ceph_provider.Errors.{new}
use ceph_provider.Exec.{Exec, Result, ok, err, lift, annotate, ◌>>=◌}

abbrev pub Runes : Type 0
Runes = List ℕ

abbrev pub is_nil : Runes → Bool
is_nil [] = true
is_nil (c ∷ cs) = false

-- The bytes of a text in UTF-8.
unfoldable pub byte_count : Runes → ℕ
byte_count [] = 0
byte_count (c ∷ cs) =
    (if ltb c 0x80 then 1 else if ltb c 0x800 then 2 else if ltb c 0x10000 then 3 else 4)
    + byte_count cs

-- unicode.IsSpace
unfoldable pub is_space : ℕ → Bool
is_space c =
    (leb 9 c && leb c 13)
    || (c == 32
        || (c == 0x85
            || (c == 0xa0
                || (c == 0x1680
                    || ((leb 0x2000 c && leb c 0x200a)
                        || (c == 0x2028
                            || (c == 0x2029 || (c == 0x202f || (c == 0x205f || c == 0x3000)))))))))

abbrev pub is_tab : ℕ → Bool
is_tab c = c == b'\t'

module _ (cut : ℕ → Bool) where
  unfoldable pub trim_left : Runes → Runes
  trim_left [] = []
  trim_left (c ∷ cs) = let rest = trim_left cs in if cut c then rest else c ∷ cs

  unfoldable pub trim_right : Runes → Runes
  trim_right [] = []
  trim_right (c ∷ cs) = let rest = trim_right cs in if is_nil rest && cut c then [] else c ∷ rest

  -- strings.Trim and strings.TrimSpace
  unfoldable pub trim : Runes → Runes
  unfolding trim_left trim_right
  trim cs = trim_right (trim_left cs)

-- Whether the text begins with the prefix, and what follows it.
unfoldable pub strip : Runes → Runes → Option Runes
strip [] cs = some cs
strip (p ∷ ps) [] = none
strip (p ∷ ps) (c ∷ cs) = if c == p then strip ps cs else none

-- strings.TrimPrefix
unfoldable pub trim_prefix : Runes → Runes → Runes
unfolding strip
trim_prefix prefix cs = elim (strip prefix cs) [ none ↦ cs | some rest ↦ rest ]

-- strings.Contains
unfoldable pub occurs : Runes → Runes → Bool
unfolding strip
occurs part [] = is_nil part
occurs part (c ∷ cs) = elim (strip part (c ∷ cs)) [ none ↦ occurs part cs | some rest ↦ true ]

abbrev pub key_word : Runes
key_word = b'k' ∷ b'e' ∷ b'y' ∷ []

abbrev pub equals : Runes
equals = b'=' ∷ []

-- The carriage return at the end of a line is dropped.
unfoldable pub drop_cr : Runes → Runes
drop_cr [] = []
drop_cr (c ∷ cs) = let rest = drop_cr cs in if is_nil cs && c == b'\r' then [] else c ∷ rest

-- One token of a bufio.Scanner, and those after it: a line that does not fit in its buffer of 64 KiB
-- ends the scan.
unfoldable pub token : Runes → List Runes → List Runes
unfolding byte_count drop_cr
token line rest = if ltb (byte_count line) 65536 then drop_cr line ∷ rest else []

-- The lines that the scanner gives; `line` is the part of the line that has been read.
unfoldable pub scan_onto : Runes → Runes → List Runes
unfolding token
scan_onto line [] = if is_nil line then [] else token line []
scan_onto line (c ∷ cs) =
    let ended = token line (scan_onto [] cs) in
    let more = scan_onto (line ++ c ∷ []) cs in if c == b'\n' then ended else more

-- The trims of a line that contains the word.
unfoldable pub key_of_line : Runes → Runes
unfolding trim is_space trim_prefix
key_of_line line =
    trim is_space
      (trim_prefix equals (trim is_space (trim_prefix key_word (trim is_space (trim is_tab line)))))

-- The key of the first line that contains the word.
unfoldable pub find_key : List Runes → Runes
unfolding occurs key_of_line
find_key [] = []
find_key (line ∷ lines) = if occurs key_word line then key_of_line line else find_key lines

unfoldable pub extract_key : Runes → Result Runes
unfolding scan_onto find_key
extract_key keyring =
    let key = find_key (scan_onto [] keyring) in
    if is_nil key then err (new "failed to extract key from keyring") else ok key

unfoldable pub get_key_from_keyring : {C : Type 0} → (String → Exec C Runes) → String → Exec C Runes
unfolding extract_key
get_key_from_keyring read_file keyring_file = do
  keyring ← annotate "failed to read file" (read_file keyring_file)
  lift (extract_key keyring)
