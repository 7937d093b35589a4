-- ===== src/Server/Tokens/Stream.antt =====
-- handle_control_stream of crates/whdr-server/src/control_plane.rs, over the lines of a connection;
-- writing works. What a request finds besides the state comes with its line.
mod Tests
use whdr.Common.{List, [], ◌∷◌, ◌++◌, Option, none, some, Bool, Text, Result, ok, err}
use whdr.Proto.Messages.{ControlRequest, ControlResponse}
use whdr.Proto.Ndjson.{NdjsonError, Json, encode_line, decode_line}
use whdr.Server.DeliveryLog.Storage.{Store}
use whdr.Server.Tokens.{TokenError, Tokens, handle_control_request}

module _ (hash_token : Text → Text) (store : Store) (error_text : TokenError → Text)
    (Value : Type 0) (requests : Json ControlRequest) (responses : Json (ControlResponse Value))
    (malformed_text : NdjsonError → Text) where
  pub record Line : Type 0 where
    pub text : Text
    pub fault : Bool
    pub token : Text
    pub now : Text
    pub status : Value

  abbrev Answered : Type 0
  Answered = Tokens hash_token store error_text Value × Option (ControlResponse Value)

  abbrev answer_line :
      Tokens hash_token store error_text Value
      → Line
      → Result (Option ControlRequest) NdjsonError
      → Answered
  answer_line s line (err e) = (s, some (ControlResponse.error (malformed_text e)))
  answer_line s line (ok none) = (s, none)
  answer_line s line (ok (some request)) =
      let (s', response) =
        handle_control_request hash_token store error_text Value line.fault s request line.token
          line.now line.status in
      (s', some response)

  -- The state, the bytes written and how the stream ends.
  unfoldable pub handle_control_stream :
      List Line
      → Tokens hash_token store error_text Value
      → Tokens hash_token store error_text Value × Text × Result (Unit {0}) NdjsonError
  handle_control_stream [] s = (s, [], ok tt)
  handle_control_stream (line ∷ lines) s =
      let (s', answer) = answer_line s line (decode_line requests line.text) in
      let (s'', later, ended) = handle_control_stream lines s' in
      elim answer [
        | none ↦ (s'', later, ended)
        | some response ↦ elim (encode_line responses response) [
          | err e ↦ (s', [], err e)
          | ok written ↦ (s'', written ++ later, ended)
        ]
      ]
