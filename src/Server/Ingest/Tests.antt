-- ===== src/Server/Ingest/Tests.antt =====
-- Runs of the route key on the paths of crates/whdr-server/tests/routing.rs.
use whdr.Common.{◌≡◌, refl, none, some, codes, split}
use whdr.Server.Ingest.{trim_start_slashes, find_segment, route_key_from_path}

route_key_tests :
    (route_key_from_path (codes "/github/hooks") ≡ some (codes "github"))
    × (route_key_from_path (codes "teams") ≡ some (codes "teams"))
    × (route_key_from_path (codes "/") ≡ none)
    × (route_key_from_path (codes "") ≡ none)
unfolding route_key_from_path trim_start_slashes find_segment split
route_key_tests = (refl, refl, refl, refl)
