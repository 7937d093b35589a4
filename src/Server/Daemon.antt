-- ===== src/Server/Daemon.antt =====
-- crates/whdr-server/src/daemon.rs: the maps of AppState that say which extension answers which route,
-- with the operations on them. Each function is what runs under the locks it takes; `later` is the
-- state of a later lock. A reason is the data its text is made of; `HashMap`s are lists of entries.
pub mod Discovery
pub mod Starting
pub mod Supervise
pub mod Steps
pub mod Consistent
pub mod Registered
pub mod Reached
pub mod Routing
pub mod Cleanup
mod Tests
use whdr.Common.{
  ℕ, List, [], ◌∷◌, ◌++◌, map, Option, none, some, Bool, true, false, not, ◌&&◌, ◌||◌, Text, Result,
  ok, err, ◌>>=◌, ◌>>◌, guard, ◌==◌, nat_eq, text_eq, if◌then◌else◌, get, insert, remove,
  contains_key, any, is_some,
}
use whdr.Proto.Messages.{Uuid}
use whdr.Server.ChannelClaims.{ClaimError, Claims, register, unroute}
use whdr.Server.DispatchWindow
use whdr.Server.DispatchWindow.{DispatchWindow}
use whdr.Server.Supervision.{SupervisorState, CrashloopLimits}
use whdr.Server.Config.{ExtensionsConfig}

-- Where an answer goes: the number of a `oneshot` channel.
abbrev pub Sender : Type 0
Sender = ℕ

-- The counters that a handle shares with its tasks are in Server/ExtensionLink.
pub record ExtHandle : Type 0 where
  pub candidate_id : Text
  pub id : Text
  pub generation : Uuid
  pub paths : List Text
  pub channels : List Text
  pub dispatches : DispatchWindow Sender

pub data StartError : Type 0 where
  spawn_failed : StartError
  register_failed : StartError
  already_running : (id : Text) → StartError
  claims_refused : ClaimError → StartError

pub data Reason : Type 0 where
  binary_not_found : Reason
  start_failed : StartError → Reason
  crashloop : (threshold window_ms : ℕ) → Reason
  exited : (status : Text) → Reason
  protocol_errors : (count : ℕ) → Reason
  dispatch_timeouts : (count : ℕ) → Reason
  removed_from_config : Reason
  server_shutdown : Reason
  commands_closed : Reason

pub data SupervisorCommand : Type 0 where
  drain_stop : Reason → SupervisorCommand
  kill_and_respawn : Reason → SupervisorCommand

pub data DispatchError : Type 0 where
  busy starting timeout dead not_found : DispatchError

-- `claims` are `routes` and `channel_prefixes`; of the configuration, what these operations read.
pub record Inner : Type 0 where
  pub config : ExtensionsConfig
  pub limits : CrashloopLimits
  pub claims : Claims
  pub unavailable_routes : List (Text × Reason)
  pub extensions : List (Text × ExtHandle)
  pub failed_extensions : List (Text × Reason)
  pub supervisor : List (Text × SupervisorState)
  pub shutting_down : Bool

-- `AppState::new`
unfoldable pub new_state : ExtensionsConfig → CrashloopLimits → Inner
new_state config limits = record {
  config = config;
  limits = limits;
  claims = record { routes = []; channel_prefixes = [] };
  unavailable_routes = [];
  extensions = [];
  failed_extensions = [];
  supervisor = [];
  shutting_down = false;
}

abbrev pub remove_all {ℓ} : {V : Type ℓ} → List (Text × V) → List Text → List (Text × V)
remove_all m [] = m
remove_all m (k ∷ ks) = remove_all (remove m k) ks

abbrev pub insert_each {ℓ} : {V : Type ℓ} → V → List (Text × V) → List Text → List (Text × V)
insert_each v m [] = m
insert_each v m (k ∷ ks) = insert_each v (insert m k v) ks

abbrev pub enables : ExtensionsConfig → Text → Bool
enables config id = any (λ wanted. wanted == id) config.enabled

-- The states that the locks of a dispatch find; other tasks run between them.
pub record Reads : Type 0 where
  pub at_routes : Inner
  pub at_config : Inner
  pub at_unavailable : Inner
  pub at_failed : Inner
  pub at_extensions : Inner

-- No other task runs between the locks.
abbrev pub at_once : Inner → Reads
at_once s = record {
  at_routes = s;
  at_config = s;
  at_unavailable = s;
  at_failed = s;
  at_extensions = s;
}

-- The routing of `AppState::dispatch`.
unfoldable pub route : Reads → (route_key : Text) → Result ExtHandle DispatchError
route reads route_key = elim (get reads.at_routes.claims.routes route_key) [
  | none ↦
      if enables reads.at_config.config route_key
        || contains_key reads.at_unavailable.unavailable_routes route_key
        || contains_key reads.at_failed.failed_extensions route_key
      then err starting
      else err not_found
  | some ext_id ↦ elim (get reads.at_extensions.extensions ext_id) [
    | none ↦ err starting
    | some h ↦ ok h
  ]
]

unfoldable pub extension_is_active : Inner → (id : Text) → Uuid → Bool
extension_is_active s id generation = elim (get s.extensions id) [
  | none ↦ false
  | some h ↦ h.generation == generation
]

unfoldable pub extension_handle : Inner → (id : Text) → Uuid → Option ExtHandle
extension_handle s id generation = elim (get s.extensions id) [
  | none ↦ none
  | some h ↦ if h.generation == generation then some h else none
]

unfoldable pub extension_candidate_is_active : Inner → (candidate_id : Text) → Bool
extension_candidate_is_active s candidate_id =
    any (λ entry. entry.1.candidate_id == candidate_id) s.extensions

unfoldable pub unroute_extension : ExtHandle → Inner → Inner
unroute_extension handle s = record s {
  claims = unroute handle.id s.claims;
  unavailable_routes = remove_all (remove s.unavailable_routes handle.candidate_id) handle.paths;
}

-- The first lock of `cleanup_extension_generation`: the handle leaves the map if its generation is
-- still the one that runs.
unfoldable pub remove_generation : (id : Text) → Uuid → Inner → Inner × Option ExtHandle
remove_generation id generation s =
    if extension_is_active s id generation
    then (record s { extensions = remove s.extensions id }, get s.extensions id)
    else (s, none)

-- What it does with the handle afterwards.
unfoldable pub clean_up : Reason → (mark_unavailable : Bool) → ExtHandle → Inner → Inner
clean_up reason mark_unavailable handle s =
    let unrouted = unroute_extension handle s in
    record unrouted {
      unavailable_routes =
          (if mark_unavailable
            then insert_each reason unrouted.unavailable_routes (handle.candidate_id ∷ handle.paths)
            else remove_all (remove unrouted.unavailable_routes handle.candidate_id) handle.paths);
    }

abbrev finish_cleanup :
    Reason → (mark_unavailable : Bool) → Inner × Option ExtHandle → Inner × Option ExtHandle
finish_cleanup reason mark_unavailable (s, none) = (s, none)
finish_cleanup reason mark_unavailable (s, some handle) = (
  clean_up reason mark_unavailable handle s,
  some (record handle { dispatches = DispatchWindow.clear Sender handle.dispatches }),
)

-- Its locks as one step; Steps takes them one by one.
unfoldable pub cleanup_extension_generation :
    (id : Text) → Uuid → Reason → (mark_unavailable : Bool) → Inner → Inner × Option ExtHandle
cleanup_extension_generation id generation reason mark_unavailable s =
    finish_cleanup reason mark_unavailable (remove_generation id generation s)
