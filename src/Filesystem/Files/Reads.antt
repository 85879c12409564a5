-- ===== src/Filesystem/Files/Reads.antt =====
-- Reads of a file, one behind the other.
use vk.Prelude.{
  ℕ, ◌+◌, ◌-◌, ◌%◌, ◌^◌, ◌≤◌, ◌<◌, ◌≡◌, refl, sym, ap, ◌∙◌, zero, suc, true, false, List, [], ◌∷◌,
  ◌++◌, if◌then◌else◌, ◌==◌, ltb, leb, Bool-cases, inl, inr, ltb→lt, length, take, drop, arith,
}
use vk.Filesystem.Drive.{ok}
use vk.Filesystem.Files.{Drivers, Fd, read_with, read_file}

take_all : (n : ℕ) (xs : List ℕ) → length xs ≤ n → take n xs ≡ xs
take_all zero [] h = refl
take_all zero (x ∷ xs) h = absurd (omega arith)
take_all (suc n) [] h = refl
take_all (suc n) (x ∷ xs) h = ap (λ (l : List ℕ). x ∷ l) (take_all n xs (omega arith))

length-drop_eq : (n : ℕ) (xs : List ℕ) → length (drop n xs) ≡ length xs - n
length-drop_eq zero xs = omega arith
length-drop_eq (suc n) [] = omega arith
length-drop_eq (suc n) (x ∷ xs) = length-drop_eq n xs ∙ omega arith

drop-drop : (k m : ℕ) (xs : List ℕ) → drop m (drop k xs) ≡ drop (k + m) xs
drop-drop zero m xs = let e : m ≡ 0 + m = omega arith in ap (λ q. drop q xs) e
drop-drop (suc k) zero [] = let e : suc k + 0 ≡ suc k = omega arith in rw e refl
drop-drop (suc k) (suc m) [] = let e : suc k + suc m ≡ suc (k + suc m) = omega arith in rw e refl
drop-drop (suc k) m (x ∷ xs) =
    let e : suc k + m ≡ suc (k + m) = omega arith in rw e (drop-drop k m xs)

take-append : (m n : ℕ) (xs : List ℕ) → take m xs ++ take n (drop m xs) ≡ take (m + n) xs
take-append zero n xs = let e : 0 + n ≡ n = omega arith in rw e refl
take-append (suc m) zero [] = let e : suc m + 0 ≡ suc m = omega arith in rw e refl
take-append (suc m) (suc n) [] = let e : suc m + suc n ≡ suc (m + suc n) = omega arith in rw e refl
take-append (suc m) n (x ∷ xs) =
    let e : suc m + n ≡ suc (m + n) = omega arith in
    rw e (ap (λ (l : List ℕ). x ∷ l) (take-append m n xs))

-- The file is no directory and holds the bytes, and its driver reads them wherever it
-- is asked to inside the file.
pub record Holds {S : Type 0} (drivers : Drivers S) (s : S) (file : ℕ) (content : List ℕ)
    : Type 0 where
  pub is_file : drivers.is_dir s file ≡ false
  pub file_length : drivers.file_length s file ≡ length content
  pub small : length content < 2 ^ 63
  pub read_lem :
      (offset count : ℕ)
      → 0 < count
      → offset + count ≤ length content
      → read_with drivers s (record { file = file; offset = offset }) count
        ≡ ok (take count (drop offset content))

module _ {S : Type 0} (drivers : Drivers S) (s : S) (file : ℕ) (content : List ℕ)
    (h : Holds drivers s file content) where
  -- Behind a read of `n` bytes from the offset on.
  abbrev pub behind : ℕ → ℕ → ℕ
  behind offset n = if ltb (length content) (offset + n) then length content else offset + n

  read_file-once :
      (offset n : ℕ)
      → offset < length content
      → 0 < n
      → n < 2 ^ 63
      → read_file drivers s (record { file = file; offset = offset }) n
        ≡ (0, take n (drop offset content), record { file = file; offset = behind offset n })
  unfolding read_file
  read_file-once offset n inside pos short =
      let len = drivers.file_length s file in
      let wrap : (n + offset) % 2 ^ 64 ≡ n + offset = omega (arith, h.small) in
      let some_bytes : (length content == 0) ≡ false = ground arith in
      let before : leb (length content) offset ≡ false = ground arith in
      elim (Bool-cases (ltb (length content) (offset + n))) [
        | inl clipped ↦
            let over : ltb (length content) (n + offset) ≡ true = ground (arith, clipped) in
            let left : (length content - offset == 0) ≡ false = ground arith in
            let end : (offset + (length content - offset)) % 2 ^ 64 ≡ length content =
              omega (arith, h.small) in
            let all : take (length content - offset) (drop offset content)
                ≡ take n (drop offset content) =
              take_all (length content - offset) (drop offset content)
                (omega (arith, length-drop_eq offset content))
              ∙ sym (
                  take_all n (drop offset content) (
                    omega (
                      arith,
                      length-drop_eq offset content,
                      ltb→lt (length content) (offset + n) clipped,
                    ))) in
            rw
              (
                h.is_file,
                h.file_length,
                some_bytes,
                before,
                wrap,
                over,
                left,
                h.read_lem offset (length content - offset) (omega arith) (omega arith),
                end,
                all,
                clipped,
              )
              refl
        | inr fits ↦
            let under : ltb (length content) (n + offset) ≡ false = ground (arith, fits) in
            let le : offset + n ≤ length content = ground (arith, fits) in
            let left : (n == 0) ≡ false = ground arith in
            let end : (offset + n) % 2 ^ 64 ≡ offset + n = omega (arith, h.small) in
            rw
              (
                h.is_file,
                h.file_length,
                some_bytes,
                before,
                wrap,
                under,
                left,
                h.read_lem offset n pos le,
                end,
                fits,
              )
              refl
      ]

  -- With a driver that reads the bytes of the file wherever it is asked to inside the file, a read of
  -- `m` bytes that ends inside the file and one of `n` bytes behind it, each of some bytes
  -- and both of less than 2^63, return together the next `m + n` bytes of the file from the offset on, or all
  -- to its end if there are fewer, as one read of `m + n` bytes does, and leave the offset where that
  -- leaves it.
  pub read_file-append :
      (offset m n : ℕ)
      → 0 < m
      → 0 < n
      → m + n < 2 ^ 63
      → offset + m < length content
      → (first second : List ℕ) × (fd fd' : Fd) × (read_file drivers s
            (record { file = file; offset = offset })
            m
          ≡ (0, first, fd))
        × (read_file drivers s fd n ≡ (0, second, fd'))
        × (first ++ second ≡ take (m + n) (drop offset content))
        × (read_file drivers s (record { file = file; offset = offset }) (m + n)
            ≡ (0, first ++ second, fd'))
  read_file-append offset m n mpos npos short inside =
      let inside_first : ltb (length content) (offset + m) ≡ false = ground arith in
      let joined : take m (drop offset content) ++ take n (drop (offset + m) content)
          ≡ take (m + n) (drop offset content) =
        ap (λ (l : List ℕ). take m (drop offset content) ++ take n l)
          (sym (drop-drop offset m content))
        ∙ take-append m n (drop offset content) in
      let assoc : offset + (m + n) ≡ offset + m + n = omega arith in
      (
        take m (drop offset content),
        take n (drop (offset + m) content),
        record { file = file; offset = offset + m },
        record { file = file; offset = behind (offset + m) n },
        read_file-once offset m (omega arith) mpos (omega arith)
            ∙ ap (λ (q : ℕ). (0, take m (drop offset content), record { file = file; offset = q }))
                (rw inside_first refl),
        read_file-once (offset + m) n inside npos (omega arith),
        joined,
        rw (joined, sym assoc) (read_file-once offset (m + n) (omega arith) (omega arith) short),
      )
