-- ===== src/Server/Daemon/Starting.antt =====
-- crates/whdr-server/src/daemon.rs: start_extension, stop_removed_extensions and start_extensions.
-- What a process that is spawned registers is an argument, and so are the generations that are made.
use whdr.Common.{
  List, [], ◌∷◌, Bool, not, ◌||◌, Text, Result, ok, err, ◌>>=◌, ◌>>◌, guard, ◌==◌, nat_eq, text_eq,
  if◌then◌else◌, insert, remove, contains_key, map, any, keep,
}
use whdr.Proto.Messages.{Uuid}
use whdr.Server.ChannelClaims.{ClaimError, Claims, register}
use whdr.Server.DispatchWindow
use whdr.Server.Config.{ExtensionsConfig}
use whdr.Server.Daemon.{
  ExtHandle, StartError, already_running, claims_refused, Reason, binary_not_found, start_failed,
  removed_from_config, SupervisorCommand, drain_stop, Inner, Sender, remove_all,
  extension_candidate_is_active, unroute_extension,
}

-- What a process registers, read by `read_registration`.
pub record Registration : Type 0 where
  pub id : Text
  pub paths : List Text
  pub channels : List Text

abbrev pub new_handle : (candidate_id : Text) → Uuid → Registration → ExtHandle
new_handle candidate_id generation r = record {
  candidate_id = candidate_id;
  id = r.id;
  generation = generation;
  paths = r.id ∷ r.paths;
  channels = r.channels;
  dispatches = DispatchWindow.new Sender;
}

abbrev pub refused : Result Claims ClaimError → Result Claims StartError
refused (ok claims) = ok claims
refused (err e) = err (claims_refused e)

-- The block under the three locks.
unfoldable pub register_handle : ExtHandle → Inner → Result Inner StartError
register_handle handle s = do
  guard (not (contains_key s.extensions handle.id)) (already_running handle.id)
  guard (not (extension_candidate_is_active s handle.candidate_id))
      (already_running handle.candidate_id)
  claims ← refused (register handle.id handle.paths handle.channels s.claims)
  ok (record s { extensions = insert s.extensions handle.id handle; claims = claims })

unfoldable pub clear_marks : ExtHandle → Inner → Inner
clear_marks handle s = record s {
  failed_extensions = remove (remove s.failed_extensions handle.candidate_id) handle.id;
  unavailable_routes = remove_all (remove s.unavailable_routes handle.candidate_id) handle.paths;
}

unfoldable pub start_extension :
    (candidate_id : Text) → Uuid → Result Registration StartError → Inner → Result Inner StartError
start_extension candidate_id generation spawned s = do
  registration ← spawned
  let handle = new_handle candidate_id generation registration
  registered ← register_handle handle s
  ok (clear_marks handle registered)

abbrev pub listed : List Text → Text → Bool
listed ids id = any (λ d. d == id) ids

-- The loop of `stop_removed_extensions` over the handles: the state, and the commands that are sent
-- to their supervisors.
unfoldable pub stop_removed :
    (desired : List Text) → List ExtHandle → Inner → Inner × List (Uuid × SupervisorCommand)
stop_removed desired [] s = (s, [])
stop_removed desired (handle ∷ current) s =
    let kept = stop_removed desired current s in
    let (stopped, commands) = stop_removed desired current (unroute_extension handle s) in
    if listed desired handle.candidate_id
    then kept
    else (stopped, (handle.generation, drain_stop removed_from_config) ∷ commands)

unfoldable pub stop_removed_extensions :
    (desired : List Text) → Inner → Inner × List (Uuid × SupervisorCommand)
stop_removed_extensions desired s = stop_removed desired (map (λ entry. entry.1) s.extensions) s

abbrev pub mark_failed : (candidate_id : Text) → Reason → Inner → Inner
mark_failed candidate_id reason s = record s {
  failed_extensions = insert s.failed_extensions candidate_id reason;
  unavailable_routes = insert s.unavailable_routes candidate_id reason;
}

abbrev forget_failure : (candidate_id : Text) → Inner → Inner
forget_failure candidate_id s = record s {
  failed_extensions = remove s.failed_extensions candidate_id;
}

-- The answer of `start_extension`, as `start_extensions` and the supervisor record it.
abbrev pub record_start : (candidate_id : Text) → Inner → Result Inner StartError → Inner
record_start candidate_id s (ok started) = forget_failure candidate_id started
record_start candidate_id s (err e) = mark_failed candidate_id (start_failed e) s

-- The loop over the extensions that are enabled.
unfoldable pub mark_missing : (wanted : List Text) → (desired : List Text) → Inner → Inner
mark_missing [] desired s = s
mark_missing (wanted ∷ rest) desired s = mark_missing rest desired (
    if extension_candidate_is_active s wanted || listed desired wanted
    then s
    else mark_failed wanted binary_not_found s)

-- The loop over the extensions to run; `spawn` and `new_v4` say what each one gets.
unfoldable pub start_each :
    (spawn : Text → Result Registration StartError)
    → (new_v4 : Text → Uuid) → (desired : List Text) → Inner
    → Inner
start_each spawn new_v4 [] s = s
start_each spawn new_v4 (id ∷ desired) s = start_each spawn new_v4 desired (
    if extension_candidate_is_active s id
    then s
    else record_start id s (start_extension id (new_v4 id) (spawn id) s))

-- The enabled ids that have a candidate, each once.
unfoldable pub take_enabled : (enabled candidates : List Text) → List Text
take_enabled [] candidates = []
take_enabled (id ∷ enabled) candidates =
    let others = take_enabled enabled (keep (λ c. not (c == id)) candidates) in
    let same = take_enabled enabled candidates in if listed candidates id then id ∷ others else same

unfoldable pub desired_extensions : ExtensionsConfig → (candidates : List Text) → List Text
desired_extensions config candidates =
    if config.autostart_all then candidates else take_enabled config.enabled candidates

-- `candidates` are the ids that `discover_extensions` finds on the PATH.
unfoldable pub start_extensions :
    (candidates : List Text)
    → (spawn : Text → Result Registration StartError) → (new_v4 : Text → Uuid) → Inner
    → Inner × List (Uuid × SupervisorCommand)
start_extensions candidates spawn new_v4 s =
    let desired = desired_extensions s.config candidates in
    let (stopped, commands) = stop_removed_extensions desired s in
    (start_each spawn new_v4 desired (mark_missing s.config.enabled desired stopped), commands)
