-- ===== src/Filesystem/Files/Tests.antt =====
-- A file of three bytes, which its driver keeps as a sequence.
use vk.Prelude.{ℕ, ◌≡◌, refl, false, List, [], ◌∷◌, ◌++◌, take, drop, length, arith}
use vk.Filesystem.Drive.{ok}
use vk.Filesystem.Files.{Driver, Drivers, Fd, read_with, read_file}
use vk.Filesystem.Files.Reads.{Holds, read_file-append}

abbrev sequence : Driver (List ℕ)
sequence = record {
  read = λ s file offset count. ok (take count (drop offset s));
  write = λ s file offset buffer. (1, s);
}

abbrev sequences : Drivers (List ℕ)
sequences = record {
  fat32 = sequence;
  ext2 = sequence;
  iso9660 = sequence;
  devfs = sequence;
  fs_type = λ file. 2;
  is_dir = λ s file. false;
  file_length = λ s file. length s;
}

abbrev three : List ℕ
three = 1 ∷ 2 ∷ 3 ∷ []

three-Holds : Holds sequences three 0 three
unfolding read_with
three-Holds = record {
  is_file = refl;
  file_length = refl;
  small = omega arith;
  read_lem = λ offset count pos le. refl;
}

read_file-append_example :
    (first second : List ℕ) × (fd fd' : Fd) × (read_file sequences three
        (record { file = 0; offset = 0 })
        1
      ≡ (0, first, fd))
    × (read_file sequences three fd 5 ≡ (0, second, fd'))
    × (first ++ second ≡ three)
    × (read_file sequences three (record { file = 0; offset = 0 }) 6 ≡ (0, first ++ second, fd'))
read_file-append_example =
    read_file-append sequences three 0 three three-Holds 0 1 5 (omega arith) (omega arith)
      (omega arith) (omega arith)
