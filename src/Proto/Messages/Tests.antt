-- ===== src/Proto/Messages/Tests.antt =====
-- The debug output at a concrete dispatch.
use whdr.Common.{◌≡◌, refl, some, none, [], codes}
use whdr.Proto.Messages.{Dispatch, SrvMsg, debug_struct, srv_msg_debug}

abbrev push : Dispatch
push = record {
  req_id = 7;
  method = codes "POST";
  path = codes "/github";
  query = none;
  headers = [];
  body_b64 = codes "e30=";
  secret = some (codes "hunter2");
}

hides_secret :
    srv_msg_debug (SrvMsg.dispatch push)
    ≡ debug_struct (record push { secret = some (codes "<redacted>") })
unfolding srv_msg_debug
hides_secret = refl
