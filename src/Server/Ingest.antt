-- ===== src/Server/Ingest.antt =====
-- The route key of crates/whdr-server/src/ingest.rs: the segment of a request's path that names the
-- extension.
pub mod RouteKey
pub mod Handler
mod Tests
use whdr.Common.{
  ℕ, ◌≡◌, List, [], ◌∷◌, Option, none, some, Text, split, is_empty, ◌==◌, nat_eq, if◌then◌else◌,
}

abbrev pub slash : ℕ
slash = b'/'

-- `trim_start_matches('/')`
unfoldable pub trim_start_slashes : Text → Text
trim_start_slashes [] = []
trim_start_slashes (c ∷ path) =
    let rest = trim_start_slashes path in if c == slash then rest else c ∷ path

-- `find(|segment| !segment.is_empty())`
unfoldable pub find_segment : List Text → Option Text
find_segment [] = none
find_segment (segment ∷ segments) = if is_empty segment then find_segment segments else some segment

unfoldable pub route_key_from_path : Text → Option Text
route_key_from_path path = find_segment (split slash (trim_start_slashes path))
