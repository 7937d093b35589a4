-- ===== src/Proto/Messages/Redaction.antt =====
-- Debug output of a dispatch never shows the provider secret.
use whdr.Common.{◌≡◌, refl, some, Text}
use whdr.Proto.Messages.{Dispatch, SrvMsg, srv_msg_debug}

-- The debug output of a dispatch is the same for every two secrets: it shows only whether there is
-- one.
srv_msg_debug_redacts :
    (d : Dispatch) (s t : Text)
    → srv_msg_debug (SrvMsg.dispatch (record d { secret = some s }))
      ≡ srv_msg_debug (SrvMsg.dispatch (record d { secret = some t }))
unfolding srv_msg_debug
srv_msg_debug_redacts d s t = refl
