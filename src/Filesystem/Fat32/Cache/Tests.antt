-- ===== src/Filesystem/Fat32/Cache/Tests.antt =====
-- The node of an entry that is not in the list.
use vk.Prelude.{ℕ, List, ◌≡◌, refl, false, [], ◌∷◌, if◌then◌else◌, ◌==◌, ◌||◌, done}
use vk.Time.Date.{convert_to_std_time}
use vk.Filesystem.Fat32.Entry.{file_cluster}
use vk.Filesystem.Fat32.Directory.{Node}
use vk.Filesystem.Fat32.Cache.{normalize_cache}
use vk.Filesystem.Fat32.Cache.Unique.{Normalized, normalize_cache-IsUnique}

-- An entry of cluster 4, whose dates are the first of January 1980.
abbrev file_four : ℕ → ℕ
file_four q =
    if (q == 16) || (q == 18) || (q == 24)
    then 33
    else if q == 26
    then 4
    else if q == 28
    then 9
    else 0

abbrev node : ℕ → Node
node c = record {
  file_length = 9;
  is_dir = false;
  is_hidden = false;
  hard_links = 1;
  creation_time = 315532800;
  last_access_time = 315532800;
  last_modification_time = 315532800;
  cluster = c;
  dir_cluster = 3;
}

node-new : normalize_cache file_four 3 (node 2 ∷ []) ≡ done (node 4, node 2 ∷ node 4 ∷ [])
unfolding normalize_cache convert_to_std_time
node-new = refl

normalize_cache-IsUnique_example :
    (n : Node) × (cache' : List Node) × (normalize_cache file_four 3 (node 2 ∷ [])
      ≡ done (n, cache'))
    × Normalized file_four (node 2 ∷ []) n cache'
    × ((e' : ℕ → ℕ) (dir' : ℕ)
        → file_cluster e' ≡ file_cluster file_four
        → normalize_cache e' dir' cache' ≡ done (n, cache'))
normalize_cache-IsUnique_example = normalize_cache-IsUnique file_four 3 (node 2 ∷ []) (tt, tt)
