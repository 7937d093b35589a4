-- ===== src/Server/Daemon/Steps.antt =====
-- crates/whdr-server/src/daemon.rs: the steps that the tasks of the daemon take on its maps, one for
-- each lock, in any order. A handle that cleanup_extension_generation has taken out of the map stands
-- in `cleaning` until its routes are gone.
use whdr.Common.{List, [], ◌∷◌, ◌++◌, Option, none, some, Bool, Text, ok, ◌≡◌}
use whdr.Proto.Messages.{Uuid}
use whdr.Server.ChannelClaims.{Claims, unroute}
use whdr.Server.Supervision.{SupervisorState, CrashloopLimits}
use whdr.Server.Config.{ExtensionsConfig}
use whdr.Server.Daemon.{ExtHandle, Reason, Inner, new_state, remove_generation}
use whdr.Server.Daemon.Starting.{Registration, new_handle, register_handle}

pub record Running : Type 0 where
  pub inner : Inner
  pub cleaning : List ExtHandle

abbrev pub with_routes_of : Claims → Inner → Inner
with_routes_of claims s = record s {
  claims = record { routes = claims.routes; channel_prefixes = s.claims.channel_prefixes };
}

abbrev pub with_prefixes_of : Claims → Inner → Inner
with_prefixes_of claims s = record s {
  claims = record { routes = s.claims.routes; channel_prefixes = claims.channel_prefixes };
}

abbrev pub taken_out : List ExtHandle → Option ExtHandle → List ExtHandle
taken_out cleaning none = cleaning
taken_out cleaning (some handle) = handle ∷ cleaning

pub data Step : Running → Running → Type 0 where
  -- `start_extension`, under its three locks
  registers :
      {r : Running} (candidate_id : Text) (generation : Uuid) (registration : Registration)
      (s' : Inner)
      → register_handle (new_handle candidate_id generation registration) r.inner ≡ ok s'
      → Step r (record r { inner = s' })
  -- The first lock of `cleanup_extension_generation`
  removes :
      {r : Running} (id : Text) (generation : Uuid)
      → Step r (record {
        inner = (remove_generation id generation r.inner).0;
        cleaning = taken_out r.cleaning (remove_generation id generation r.inner).1;
      })
  -- The first lock of its `unroute_extension`
  cleans :
      {r : Running} (handle : ExtHandle) (front back : List ExtHandle)
      → r.cleaning ≡ front ++ handle ∷ back
      → Step r (record {
        inner = with_routes_of (unroute handle.id r.inner.claims) r.inner;
        cleaning = front ++ back;
      })
  -- The same lock of `stop_removed_extensions`, on a handle that was read at some time before
  drains :
      {r : Running} (id : Text)
      → Step r (record r { inner = with_routes_of (unroute id r.inner.claims) r.inner })
  -- The second lock of `unroute_extension`
  drops_prefixes :
      {r : Running} (id : Text)
      → Step r (record r { inner = with_prefixes_of (unroute id r.inner.claims) r.inner })
  -- The locks of the other maps, of the configuration and the flag
  marks :
      {r : Running} (config : ExtensionsConfig) (limits : CrashloopLimits)
      (unavailable failed : List (Text × Reason)) (supervisor : List (Text × SupervisorState))
      (shutting_down : Bool)
      → Step r (record r {
        inner = record r.inner {
          config = config;
          limits = limits;
          unavailable_routes = unavailable;
          failed_extensions = failed;
          supervisor = supervisor;
          shutting_down = shutting_down;
        };
      })

pub data Reachable : Running → Type 0 where
  start :
      (config : ExtensionsConfig) (limits : CrashloopLimits)
      → Reachable (record { inner = new_state config limits; cleaning = [] })
  next : {r r' : Running} → Reachable r → Step r r' → Reachable r'
