-- ===== src/Server/ExtensionRegistration/KitRegisters.antt =====
-- run_extension of crates/whdr-ext-kit/src/lib.rs against read_registration of
-- crates/whdr-server/src/extension_registration.rs, over the lines between them.
use whdr.Common.{◌≡◌, refl, List, [], ◌∷◌, map, some, Text, Result, ok}
use whdr.Proto.Messages.{Event, HttpReply, ExtMsg, SrvMsg}
use whdr.Proto.Ndjson.{Json, IsCompact, decode_line, encode_all, lines}
use whdr.Proto.Ndjson.Stream.{decode_line-encode_all}
use whdr.Exts.Kit.{Line, run_lines, run_extension}
use whdr.Server.ExtensionRegistration.{line, accept_registration, read_registration}

-- A mapped list that has a head has one before.
map-cons :
    {A B : Type 0} (f : A → B) (xs : List A) {y : B} {ys : List B}
    → map f xs ≡ y ∷ ys
    → (x : A) × (rest : List A) × (xs ≡ x ∷ rest) × (f x ≡ y) × (map f rest ≡ ys)
map-cons f [] h = cc
map-cons f (x ∷ xs) h = (x, xs, refl, cc, cc)

-- What an extension of the kit writes under an id, where serde_json prints it, is a line that registers
-- the extension under this id with its paths and channels, whatever candidate it was started as, and
-- then one line for each message of its loop, which the daemon reads back as that message.
pub run_extension-read_registration :
    {Value Error : Type 0} (json : Json (ExtMsg Value)) (compact : IsCompact json)
    (handler : SrvMsg → Result (HttpReply × List Event) Error) (candidate_id id : Text)
    (paths channels : List Text) (meta : Value) (input : List Line) (text : Text)
    → encode_all json (run_extension handler id paths channels meta input).0 ≡ ok text
    → (first : Text) × (rest : List Text) × (lines text ≡ first ∷ rest)
      × (read_registration json candidate_id (line first)
          ≡ ok (record { id = id; paths = paths; channels = channels }))
      × (map (decode_line json) rest ≡ map (λ msg. ok (some msg)) (run_lines handler input).0)
unfolding run_extension read_registration accept_registration
run_extension-read_registration json compact handler candidate_id id paths channels meta input text
      h =
    let (first, rest, split_up, decoded, later) =
      map-cons (decode_line json) (lines text) (decode_line-encode_all json compact _ text h) in
    (first, rest, split_up, rw (read_registration, decoded) refl, later)
