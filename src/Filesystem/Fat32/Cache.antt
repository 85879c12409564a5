-- ===== src/Filesystem/Fat32/Cache.antt =====
-- `fat32_dirent_normalize_cache`: the node of an entry, from the list of nodes of the file system or
-- new at its end. The size that goes with the list is its length.
pub mod Unique
mod Tests
use vk.Prelude.{
  u16_at, ℕ, ◌+◌, ◌-◌, ◌*◌, ◌/◌, ◌%◌, ◌^◌, zero, suc, List, [], ◌∷◌, ◌++◌, if◌then◌else◌, ◌==◌,
  Option, none, some, Outcome, done, ◌>>=◌,
}
use vk.Time.Date.{convert_to_std_time}
use vk.Filesystem.Fat32.Entry.{
  attributes, file_cluster, file_size, fat_attr_directory, fat_attr_hidden,
}
use vk.Filesystem.Fat32.Directory.{Node}

-- The first node of the cluster.
pub find_node : List Node → ℕ → Option Node
find_node [] cluster = none
find_node (n ∷ ns) cluster =
    let rest = find_node ns cluster in if n.cluster == cluster then some n else rest

-- The time that a time and a date of an entry stand for.
abbrev pub time_of : ℕ → ℕ → Outcome ℕ
time_of time date =
    convert_to_std_time (time % 2 ^ 5 * 2) (time % 2 ^ 11 / 2 ^ 5) (time / 2 ^ 11) (date % 2 ^ 5)
      (date % 2 ^ 9 / 2 ^ 5) ((date / 2 ^ 9 + 80) % 256)

pub parse_node : (ℕ → ℕ) → ℕ → Outcome Node
parse_node e dir_cluster = time_of (u16_at e 14) (u16_at e 16) >>= λ created.
    time_of 0 (u16_at e 18) >>= λ accessed. time_of (u16_at e 22) (u16_at e 24) >>= λ modified.
    done (record {
      file_length = file_size e;
      is_dir = fat_attr_directory (attributes e);
      is_hidden = fat_attr_hidden (attributes e);
      hard_links = 1;
      creation_time = created;
      last_access_time = accessed;
      last_modification_time = modified;
      cluster = file_cluster e;
      dir_cluster = dir_cluster;
    })

abbrev pub normalize_found : (ℕ → ℕ) → ℕ → List Node → Option Node → Outcome (Node × List Node)
normalize_found e dir_cluster cache (some n) = done (n, cache)
normalize_found e dir_cluster cache none =
    parse_node e dir_cluster >>= λ n. done (n, cache ++ (n ∷ []))

unfoldable pub normalize_cache : (ℕ → ℕ) → ℕ → List Node → Outcome (Node × List Node)
unfolding find_node parse_node
normalize_cache e dir_cluster cache =
    normalize_found e dir_cluster cache (find_node cache (file_cluster e))
