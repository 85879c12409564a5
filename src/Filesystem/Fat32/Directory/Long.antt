-- ===== src/Filesystem/Fat32/Directory/Long.antt =====
-- What `fat32_open` makes of names behind a long name.
use vk.Prelude.{
  ℕ, ◌+◌, ◌≤◌, ◌≡◌, ◌≢◌, refl, zero, suc, false, List, ◌==◌, Bool-cases, inl, inr, ne→==, none,
  done, arith,
}
use vk.Filesystem.Fat32.Entry.{attributes, LongName, text, strcmpnc}
use vk.Filesystem.Fat32.Directory.{entry, find_name}

-- When the loop of `fat32_open` has a long name, which is not the name that is looked for, and no
-- more entries of long names follow, it finds nothing, whatever the names of the entries are.
pub find_name-stuck :
    (rounds i : ℕ) (long : LongName) (dirents : ℕ → ℕ) (name : List ℕ)
    → long.size ≢ 0
    → strcmpnc (text long.size long.memory 0) name ≡ false
    → ((k : ℕ) → i ≤ k → attributes (entry dirents k) ≢ 0x0F)
    → find_name rounds i long dirents name ≡ done none
unfolding find_name
find_name-stuck zero i long dirents name there other short = refl
find_name-stuck (suc rounds) i long dirents name there other short =
    let a = ne→== (attributes (entry dirents i)) 0x0F (short i (omega arith)) in
    let l = ne→== long.size 0 there in
    let ih =
      find_name-stuck rounds (i + 1) long dirents name there other
        (λ k le. short k (omega (arith, le))) in
    elim (Bool-cases (entry dirents i 0 == 0)) [
      | inl end ↦ rw end refl
      | inr more ↦ elim (Bool-cases (entry dirents i 0 == 0xE5)) [
        | inl deleted ↦ rw (more, deleted) ih
        | inr used ↦ rw (more, used, a, l, other) ih
      ]
    ]
