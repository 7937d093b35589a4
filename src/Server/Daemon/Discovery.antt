-- ===== src/Server/Daemon/Discovery.antt =====
-- crates/whdr-server/src/extension_process.rs: discover_extensions, over the directories of PATH.
mod Tests
use whdr.Common.{
  ℕ, ◌/◌, ◌%◌, List, [], ◌∷◌, Option, none, some, Bool, true, false, not, ◌&&◌, ◌||◌, Text, codes,
  ◌==◌, nat_eq, text_eq, if◌then◌else◌, is_empty, strip_prefix, contains_key, insert,
}

pub record Metadata : Type 0 where
  pub is_file : Bool
  pub mode : ℕ

-- An entry that can be read; `file_name` is none where it is no text.
pub record DirEntry : Type 0 where
  pub file_name : Option Text
  pub path : Text
  pub metadata : Option Metadata

-- `mode & 0o111 != 0`
abbrev has_execute_bit : ℕ → Bool
has_execute_bit mode = mode % 2 == 1 || mode / 8 % 2 == 1 || mode / 64 % 2 == 1

unfoldable pub is_executable : Option Metadata → Bool
is_executable none = false
is_executable (some meta) = meta.is_file && has_execute_bit meta.mode

-- `found.entry(id).entry_or_insert(path)`
abbrev entry_or_insert : List (Text × Text) → Text → Text → List (Text × Text)
entry_or_insert found id path = if contains_key found id then found else insert found id path

abbrev add_candidate : List (Text × Text) → DirEntry → Option Text → List (Text × Text)
add_candidate found entry none = found
add_candidate found entry (some id) =
    if is_empty id || not (is_executable entry.metadata)
    then found
    else entry_or_insert found id entry.path

abbrev add_entry : List (Text × Text) → DirEntry → Option Text → List (Text × Text)
add_entry found entry none = found
add_entry found entry (some name) =
    add_candidate found entry (strip_prefix (codes "whdr-ext-") name)

unfoldable pub scan_dir : List DirEntry → List (Text × Text) → List (Text × Text)
scan_dir [] found = found
scan_dir (entry ∷ entries) found = scan_dir entries (add_entry found entry entry.file_name)

-- A directory that cannot be read is left out.
unfoldable pub scan_path : List (Option (List DirEntry)) → List (Text × Text) → List (Text × Text)
scan_path [] found = found
scan_path (none ∷ dirs) found = scan_path dirs found
scan_path (some entries ∷ dirs) found = scan_path dirs (scan_dir entries found)

unfoldable pub discover_extensions : Option (List (Option (List DirEntry))) → List (Text × Text)
discover_extensions none = []
discover_extensions (some dirs) = scan_path dirs []
