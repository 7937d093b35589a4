-- ===== src/Server/Daemon/Tests.antt =====
-- Runs of the daemon's maps with one extension.
use whdr.Common.{[], ◌∷◌, none, true, false, codes, ok, err, ◌≡◌, refl, split, strip_prefix}
use whdr.Server.ChannelClaims.{
  register, unroute, insert_all, validate_registration_claims, validate_claims, validate_prefixes,
  validate_path_claim, check_claim_prefixes, check_seen, check_existing, first_channel_segment,
  channel_is_in_prefix, channel_prefixes_overlap,
}
use whdr.Proto.Channel.{validate_channel, validate_channel_tokens, valid_plain_token, plain_byte}
use whdr.Server.Supervision.{CrashloopLimits}
use whdr.Server.Config.{ExtensionsConfig}
use whdr.Server.Daemon.{
  at_once, ExtHandle, Inner, exited, removed_from_config, drain_stop, new_state, route, starting,
  not_found, extension_is_active, extension_candidate_is_active, remove_generation,
  unroute_extension, clean_up, cleanup_extension_generation,
}
use whdr.Server.Daemon.Starting.{
  Registration, new_handle, register_handle, start_extensions, start_each, mark_missing,
  stop_removed, stop_removed_extensions, desired_extensions, take_enabled,
}
use whdr.Server.Daemon.Supervise.{by_command, after_end, should_respawn, verdict}
use whdr.Server.Daemon.Steps.{
  registers, removes, cleans, drains, drops_prefixes, Reachable, start, next,
}
use whdr.Server.Daemon.Consistent.{IsConsistent}
use whdr.Server.Daemon.Reached.{Reachable-IsConsistent}
use whdr.Server.Daemon.Routing.{Routed, route-Routed}
use whdr.Server.Daemon.Cleanup.{Cleaned, cleanup-IsCleaned}

abbrev enabled : ExtensionsConfig
enabled = record { enabled = codes "github" ∷ []; autostart_all = false }

abbrev limits : CrashloopLimits
limits = record { crashloop_threshold = 5; crashloop_window_ms = 60000 }

abbrev registration : Registration
registration = record { id = codes "github"; paths = codes "gh" ∷ []; channels = codes "code" ∷ [] }

abbrev handle : ExtHandle
handle = new_handle (codes "github") 1 registration

-- The state with the extension in it.
abbrev one_running : Inner
one_running = record (new_state enabled limits) {
  claims = record {
    routes = (codes "github", codes "github") ∷ (codes "gh", codes "github") ∷ [];
    channel_prefixes = (codes "code", codes "github") ∷ [];
  };
  extensions = (codes "github", handle) ∷ [];
}

registered : register_handle handle (new_state enabled limits) ≡ ok one_running
unfolding register_handle new_state extension_candidate_is_active register insert_all
    validate_registration_claims validate_claims validate_prefixes validate_path_claim
    check_claim_prefixes check_seen check_existing first_channel_segment channel_is_in_prefix
    channel_prefixes_overlap validate_channel validate_channel_tokens valid_plain_token plain_byte
    split strip_prefix
registered = refl

reached : Reachable (record { inner = one_running; cleaning = [] })
reached =
    next (start enabled limits) (registers (codes "github") 1 registration one_running registered)

Reachable-IsConsistent_example : IsConsistent (record { inner = one_running; cleaning = [] })
Reachable-IsConsistent_example =
    Reachable-IsConsistent (record { inner = one_running; cleaning = [] }) reached

cleanup-IsCleaned_example :
    Cleaned
      (codes "github")
      1
      true
      one_running
      (cleanup_extension_generation (codes "github") 1 (exited (codes "1")) true one_running)
cleanup-IsCleaned_example =
    cleanup-IsCleaned (codes "github") 1 (exited (codes "1")) true
      (record { inner = one_running; cleaning = [] }) reached

-- A crash leaves the routes of the extension waiting, and the end of an older generation nothing.
crash_waits :
    (route
        (at_once
          (cleanup_extension_generation (codes "github") 1 (exited (codes "1")) true one_running).0)
        (codes "gh")
      ≡ err starting)
    × (cleanup_extension_generation (codes "github") 7 (exited (codes "1")) true one_running
        ≡ (one_running, none))
unfolding route cleanup_extension_generation clean_up unroute_extension remove_generation
    extension_is_active unroute new_state
crash_waits = (refl, refl)

abbrev second : ExtHandle
second = new_handle (codes "github") 2 registration

abbrev running_again : Inner
running_again = record one_running { extensions = (codes "github", second) ∷ [] }

-- The second generation runs, and the cleanup of the first one has taken its routes away.
abbrev without_routes : Inner
without_routes = record running_again {
  claims = record { routes = []; channel_prefixes = (codes "code", codes "github") ∷ [] };
}

-- The first generation is drained and leaves the map; before its cleanup takes the routes away, the
-- second one registers under the same id.
without_routes_reached : Reachable (record { inner = without_routes; cleaning = [] })
unfolding register_handle new_state extension_candidate_is_active register insert_all
    validate_registration_claims validate_claims validate_prefixes validate_path_claim
    check_claim_prefixes check_seen check_existing first_channel_segment channel_is_in_prefix
    channel_prefixes_overlap validate_channel validate_channel_tokens valid_plain_token plain_byte
    split strip_prefix unroute remove_generation extension_is_active
without_routes_reached =
    let id = codes "github" in
    let drained = next (next reached (drains id)) (drops_prefixes id) in
    let again =
      next (next drained (removes id 1)) (registers id 2 registration running_again refl) in
    next again (cleans handle [] [] refl)

-- The route is read while the first generation runs, and the extension when the second one does.
route-Routed_example :
    Routed
      (record { inner = one_running; cleaning = [] })
      (record { inner = without_routes; cleaning = [] })
      (record (at_once one_running) { at_extensions = without_routes })
      (codes "gh")
      (route (record (at_once one_running) { at_extensions = without_routes }) (codes "gh"))
route-Routed_example =
    route-Routed (record { inner = one_running; cleaning = [] })
      (record { inner = without_routes; cleaning = [] }) reached without_routes_reached one_running
      one_running one_running (codes "gh")

runs_without_routes :
    (extension_is_active without_routes (codes "github") 2 ≡ true)
    × (route (at_once without_routes) (codes "gh") ≡ err not_found)
unfolding extension_is_active route new_state
runs_without_routes = (refl, refl)

-- A reload that takes the extension out of the configuration, and one that puts it back while it
-- drains: the second one finds it active and does not start it, and its end does not either.
abbrev removed : Inner
removed =
    (start_extensions (codes "github" ∷ []) (λ id. ok registration) (λ id. 2)
      (record one_running { config = record { enabled = []; autostart_all = false } })).0

abbrev put_back : Inner
put_back =
    (start_extensions (codes "github" ∷ []) (λ id. ok registration) (λ id. 2)
      (record removed { config = enabled })).0

never_started_again :
    (extension_candidate_is_active put_back (codes "github") ≡ true)
    × ((after_end
          (codes "github")
          (codes "github")
          1
          (by_command (drain_stop removed_from_config))
          0
          put_back).1
        ≡ none)
    × ((after_end
          (codes "github")
          (codes "github")
          1
          (by_command (drain_stop removed_from_config))
          0
          put_back).0.extensions
        ≡ [])
    × (should_respawn put_back (codes "github") ≡ true)
unfolding start_extensions start_each mark_missing stop_removed stop_removed_extensions
    desired_extensions take_enabled extension_candidate_is_active unroute_extension unroute
    new_state after_end verdict cleanup_extension_generation clean_up remove_generation
    extension_is_active should_respawn
never_started_again = (refl, refl, refl, refl)
