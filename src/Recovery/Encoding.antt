-- ===== src/Recovery/Encoding.antt =====
-- An encoding of the server's messages that can be read back: a tag, the numbers, and each text but the
-- last one behind its length.
use whdr.Common.{
  ℕ, ◌≡◌, refl, [], ◌∷◌, ◌++◌, Option, some, none, Text, length, if◌then◌else◌, ◌==◌, nat_eq,
}
use whdr.Proto.Messages.{SubServerMsg, ClosingReason}
use whdr.Server.DeliveryLog.ListStore.{take_text, take_text-append}

abbrev pub encode : SubServerMsg → Text
encode (SubServerMsg.welcome name) = 0 ∷ name
encode (SubServerMsg.ok op) = 1 ∷ op
encode (SubServerMsg.error op msg) = 2 ∷ length op ∷ op ++ msg
encode (SubServerMsg.event id seq ts_ms channel payload_b64) =
    3 ∷ id ∷ seq ∷ ts_ms ∷ length channel ∷ channel ++ payload_b64
encode (SubServerMsg.replayed through_seq) = 4 ∷ through_seq ∷ []
encode (SubServerMsg.replay_gap from_seq earliest_seq) = 5 ∷ from_seq ∷ earliest_seq ∷ []
encode (SubServerMsg.lagged dropped) = 6 ∷ dropped ∷ []
encode SubServerMsg.pong = 7 ∷ []
encode (SubServerMsg.closing ClosingReason.shutdown) = 8 ∷ []
encode (SubServerMsg.closing ClosingReason.revoked) = 9 ∷ []

abbrev read_error : Text → Option SubServerMsg
read_error [] = none
read_error (n ∷ s) = let (op, msg) = take_text n s in some (SubServerMsg.error op msg)

abbrev read_event : Text → Option SubServerMsg
read_event (id ∷ seq ∷ ts_ms ∷ n ∷ s) =
    let (channel, payload_b64) = take_text n s in
    some (SubServerMsg.event id seq ts_ms channel payload_b64)
read_event _ = none

abbrev read_one_number : (ℕ → SubServerMsg) → Text → Option SubServerMsg
read_one_number f (n ∷ []) = some (f n)
read_one_number f _ = none

abbrev read_gap : Text → Option SubServerMsg
read_gap (a ∷ b ∷ []) = some (SubServerMsg.replay_gap a b)
read_gap _ = none

abbrev pub parse_frame : Text → Option SubServerMsg
parse_frame [] = none
parse_frame (tag ∷ s) =
    if tag == 0
    then some (SubServerMsg.welcome s)
    else if tag == 1
    then some (SubServerMsg.ok s)
    else if tag == 2
    then read_error s
    else if tag == 3
    then read_event s
    else if tag == 4
    then read_one_number SubServerMsg.replayed s
    else if tag == 5
    then read_gap s
    else if tag == 6
    then read_one_number SubServerMsg.lagged s
    else if tag == 7
    then some SubServerMsg.pong
    else if tag == 8
    then some (SubServerMsg.closing ClosingReason.shutdown)
    else if tag == 9
    then some (SubServerMsg.closing ClosingReason.revoked)
    else none

pub parse_frame-encode : (m : SubServerMsg) → parse_frame (encode m) ≡ some m
parse_frame-encode (SubServerMsg.welcome name) = refl
parse_frame-encode (SubServerMsg.ok op) = refl
parse_frame-encode (SubServerMsg.error op msg) = rw (take_text-append op msg)
parse_frame-encode (SubServerMsg.event id seq ts_ms channel payload_b64) =
    rw (take_text-append channel payload_b64)
parse_frame-encode (SubServerMsg.replayed through_seq) = refl
parse_frame-encode (SubServerMsg.replay_gap from_seq earliest_seq) = refl
parse_frame-encode (SubServerMsg.lagged dropped) = refl
parse_frame-encode SubServerMsg.pong = refl
parse_frame-encode (SubServerMsg.closing ClosingReason.shutdown) = refl
parse_frame-encode (SubServerMsg.closing ClosingReason.revoked) = refl
