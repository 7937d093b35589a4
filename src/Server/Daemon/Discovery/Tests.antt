-- ===== src/Server/Daemon/Discovery/Tests.antt =====
-- Two directories of PATH with the same extension, and entries that are none.
use whdr.Common.{ℕ, ◌≡◌, refl, [], ◌∷◌, none, some, true, Text, codes, strip_prefix}
use whdr.Server.Daemon.Discovery.{DirEntry, is_executable, scan_dir, scan_path, discover_extensions}

abbrev file : Text → Text → ℕ → DirEntry
file name path mode = record {
  file_name = some name;
  path = path;
  metadata = some (record { is_file = true; mode = mode });
}

first_wins :
    discover_extensions (
      some (
        none
        ∷ some (
            file (codes "whdr-ext-github") (codes "/a") 33261
            ∷ file (codes "whdr-ext-") (codes "/b") 33261
            ∷ file (codes "whdr-ext-hmac") (codes "/c") 33188
            ∷ file (codes "whdr") (codes "/d") 33261
            ∷ record { file_name = none; path = codes "/e"; metadata = none }
            ∷ [])
        ∷ some (
            file (codes "whdr-ext-github") (codes "/f") 33261
            ∷ file (codes "whdr-ext-hmac") (codes "/g") 33256
            ∷ [])
        ∷ []))
    ≡ (codes "github", codes "/a") ∷ (codes "hmac", codes "/g") ∷ []
unfolding discover_extensions scan_path scan_dir is_executable strip_prefix
first_wins = refl
