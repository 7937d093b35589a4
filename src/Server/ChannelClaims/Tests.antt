-- ===== src/Server/ChannelClaims/Tests.antt =====
-- Runs of the claims of two extensions, and the theorems on them at concrete claims.
use whdr.Common.{◌≡◌, refl, [], ◌∷◌, codes, ok, err, split, strip_prefix}
use whdr.Proto.Channel.{validate_channel, validate_channel_tokens, valid_plain_token, plain_byte}
use whdr.Server.ChannelClaims.{
  Claims, register, insert_all, validate_registration_claims, validate_claims, validate_prefixes,
  validate_path_claim, check_claim_prefixes, check_existing, check_seen, channel_is_in_prefix,
  first_channel_segment, prefix_collides_with_route, validate_emitted_channel, not_owned,
}
use whdr.Server.ChannelClaims.Isolation.{IsIsolated}
use whdr.Server.ChannelClaims.Registration.{
  Reachable, start, registers, register-AreRegistered, Reachable-IsIsolated,
  validate_emitted_channel_isolates, AreRegistered,
}

abbrev none_claimed : Claims
none_claimed = record { routes = []; channel_prefixes = [] }

abbrev teams_claimed : Claims
teams_claimed = record {
  routes = (codes "teams", codes "teams") ∷ [];
  channel_prefixes = (codes "alerts.ops", codes "teams") ∷ [];
}

teams_registers :
    register (codes "teams") (codes "teams" ∷ []) (codes "alerts.ops" ∷ []) none_claimed
    ≡ ok teams_claimed
unfolding register insert_all validate_registration_claims validate_claims validate_prefixes
    validate_path_claim check_claim_prefixes check_existing check_seen first_channel_segment
    validate_channel validate_channel_tokens valid_plain_token plain_byte split
teams_registers = refl

-- A prefix below another extension's route is refused.
github_refused :
    register (codes "gh") (codes "gh" ∷ []) (codes "teams.notes" ∷ []) teams_claimed
    ≡ err (prefix_collides_with_route (codes "teams.notes") (codes "teams") (codes "teams"))
unfolding register insert_all validate_registration_claims validate_claims validate_prefixes
    validate_path_claim check_claim_prefixes check_existing check_seen first_channel_segment
    validate_channel validate_channel_tokens valid_plain_token plain_byte split
github_refused = refl

emitted_tests :
    (validate_emitted_channel
        (codes "alerts.ops.high")
        (codes "teams")
        (codes "teams" ∷ [])
        (codes "alerts.ops" ∷ [])
      ≡ ok tt)
    × (validate_emitted_channel
          (codes "github.push")
          (codes "teams")
          (codes "teams" ∷ [])
          (codes "alerts.ops" ∷ [])
        ≡ err (not_owned (codes "github.push") (codes "teams")))
unfolding validate_emitted_channel channel_is_in_prefix first_channel_segment validate_channel
    validate_channel_tokens valid_plain_token plain_byte split strip_prefix
emitted_tests = (refl, refl)

reachable_teams : Reachable teams_claimed
reachable_teams =
    registers teams_claimed (codes "teams") (codes "teams" ∷ []) (codes "alerts.ops" ∷ []) start
      teams_registers

Reachable-IsIsolated_example : IsIsolated teams_claimed
Reachable-IsIsolated_example = Reachable-IsIsolated {s = teams_claimed} reachable_teams

teams_AreRegistered :
    AreRegistered teams_claimed (codes "teams") (codes "teams" ∷ []) (codes "alerts.ops" ∷ [])
teams_AreRegistered =
    register-AreRegistered (codes "teams") (codes "teams" ∷ []) (codes "alerts.ops" ∷ [])
      none_claimed teams_claimed teams_registers

validate_emitted_channel_isolates_example : codes "teams" ≡ codes "teams"
validate_emitted_channel_isolates_example =
    validate_emitted_channel_isolates teams_claimed (codes "alerts.ops.high") (codes "teams")
      (codes "teams") (codes "teams" ∷ []) (codes "alerts.ops" ∷ []) (codes "teams" ∷ [])
      (codes "alerts.ops" ∷ []) reachable_teams teams_AreRegistered teams_AreRegistered
      emitted_tests.0 emitted_tests.0
