-- ===== src/Filesystem/Fat32/Entry.antt =====
-- Entries of a directory: 32 bytes each. `e` gives the bytes of an entry, from 0 on.
use vk.Prelude.{
  u16_at, ℕ, ◌+◌, ◌-◌, ◌*◌, ◌/◌, ◌%◌, ◌^◌, zero, suc, Bool, true, false, List, [], ◌∷◌, ◌++◌,
  if◌then◌else◌, ◌==◌, leb, ◌&&◌, ◌||◌, copy_in, Outcome, done, wild, ◌>>=◌,
}

-- FAT_ATTR_HIDDEN, FAT_ATTR_DIRECTORY and FAT_ATTR_LFN
abbrev pub fat_attr_lfn : ℕ
fat_attr_lfn = 0x0F

abbrev pub fat_attr_hidden : ℕ → Bool
fat_attr_hidden a = a / 2 % 2 == 1

abbrev pub fat_attr_directory : ℕ → Bool
fat_attr_directory a = a / 16 % 2 == 1

abbrev pub attributes : (ℕ → ℕ) → ℕ
attributes e = e 11

-- The first cluster, of 28 bits.
abbrev pub file_cluster : (ℕ → ℕ) → ℕ
file_cluster e = (u16_at e 20 * 2 ^ 16 + u16_at e 26) % 2 ^ 28

abbrev pub file_size : (ℕ → ℕ) → ℕ
file_size e = u16_at e 28 + 2 ^ 16 * u16_at e 30

-- The position of an entry of a long name, from 1 on; the last one has the bit 0x40.
abbrev pub lfn_number : (ℕ → ℕ) → ℕ
lfn_number e = if e 0 / 64 % 2 == 1 then e 0 - 64 else e 0

-- The characters of `firstn`, `nextn` and `lastn`, each the low byte of two.
abbrev pub lfn_chars : (ℕ → ℕ) → List ℕ
lfn_chars e =
    e 1 ∷ e 3 ∷ e 5 ∷ e 7 ∷ e 9 ∷ e 14 ∷ e 16 ∷ e 18 ∷ e 20 ∷ e 22 ∷ e 24 ∷ e 28 ∷ e 30 ∷ []

-- `lfn_name` and the size of its block; 0 is for none.
pub record LongName : Type 0 where
  pub memory : ℕ → ℕ
  pub size : ℕ

-- Memory that has not been written to holds any bytes.
abbrev pub no_name : (ℕ → ℕ) → LongName
no_name garbage = record { memory = garbage; size = 0 }

-- The block, as it is when an entry of a long name comes: there, or of the size for its number.
abbrev pub lfn_block : (ℕ → ℕ) → LongName → LongName
lfn_block e name =
    if name.size == 0
    then record {
      memory = λ q. if q == 13 * lfn_number e then 0 else name.memory q;
      size = 13 * lfn_number e + 1;
    }
    else name

-- The characters of the entry go to their place in the name; `wild` if that is not in the block.
pub lfn_add : (ℕ → ℕ) → LongName → Outcome LongName
lfn_add e name =
    let block = lfn_block e name in
    let offset = 13 * ((lfn_number e + (2 ^ 32 - 1)) % 2 ^ 32) % 2 ^ 32 in
    if leb (offset + 13) block.size
    then done (record block { memory = copy_in block.memory offset (lfn_chars e) })
    else wild

-- The bytes of a string up to its 0, at most `n`.
unfoldable pub text : ℕ → (ℕ → ℕ) → ℕ → List ℕ
text zero m a = []
text (suc n) m a = let rest = text n m (a + 1) in if m a == 0 then [] else m a ∷ rest

-- A letter in the other case.
abbrev pub inv_case : ℕ → ℕ
inv_case c =
    if leb b'a' c && leb c b'z' then c - 32 else if leb b'A' c && leb c b'Z' then c + 32 else c

-- `strcmpnc` returns 0.
unfoldable pub strcmpnc : List ℕ → List ℕ → Bool
strcmpnc [] [] = true
strcmpnc [] (_ ∷ _) = false
strcmpnc (_ ∷ _) [] = false
strcmpnc (x ∷ xs) (y ∷ ys) = ((x == y) || (inv_case x == y)) && strcmpnc xs ys

-- `c` in front of what is left of the rest.
abbrev pub trim : ℕ → Outcome (List ℕ) → Outcome (List ℕ)
trim c (done rest) = done (c ∷ rest)
trim c other = if c == b' ' then other else done (c ∷ [])

-- `strtrim`: without the blanks at the end; a string of blanks only leads before its beginning.
pub strtrim : List ℕ → Outcome (List ℕ)
strtrim [] = wild
strtrim (c ∷ cs) = trim c (strtrim cs)

-- The name of an entry that has no long name: the eight characters of `name` without the blanks
-- at their end and, behind a dot, the extension.
pub short_name : (ℕ → ℕ) → Outcome (List ℕ)
unfolding text strtrim
short_name e = strtrim (text 8 e 0) >>= λ name.
    done (if (e 8 == b' ') || (e 8 == 0) then name else name ++ (b'.' ∷ text 3 e 8))
