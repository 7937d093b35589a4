-- ===== src/Server/ExtensionRegistration/Tests.antt =====
-- The first lines of the program's own tests, over an encoding of a few messages, and the theorem
-- applied to an extension that answers one dispatch.
use whdr.Common.{
  ℕ, ◌+◌, ◌-◌, arith, ◌≡◌, refl, ap, ◌∙◌, List, [], ◌∷◌, map, Option, none, some, true, false, Text,
  codes, Result, ok, err, ◌==◌, nat_eq, if◌then◌else◌, leb, all, is_empty, trim, trim_start_matches,
  trim_end_matches, Ensures, Ensures_ok,
}
use whdr.Proto.Messages.{Headers, Event, HttpReply, ExtMsg, Dispatch, SrvMsg, LogLevel}
use whdr.Proto.Ndjson.{
  NdjsonError, malformed_json, Json, IsCompact, decode_line, encode_line, encode_all, lines,
}
use whdr.Exts.Kit.{Line, message, blank, run_lines, run_extension}
use whdr.Server.Daemon.Starting.{Registration}
use whdr.Server.ExtensionRegistration.{
  line, timed_out, closed, RegistrationError, register_timeout, exited_before_register,
  malformed_line, unsupported_protocol, expected_register, blank_register_line, accept_registration,
  read_registration,
}
use whdr.Server.ExtensionRegistration.KitRegisters.{run_extension-read_registration}

abbrev Msg : Type 0
Msg = ExtMsg (Unit {0})

abbrev empty_reply : ℕ → HttpReply
empty_reply status = record { status = status; headers = []; body = [] }

-- A byte that is printable, for a number.
abbrev shifted : ℕ → ℕ
shifted n = 33 + n

-- Registrations without an id and without claims, or under the empty id, and empty results
-- have a text; other messages are not printed.
abbrev print_register : ℕ → Option Text → List Text → List Text → Result Text NdjsonError
print_register protocol none [] [] = ok (b'n' ∷ shifted protocol ∷ b'.' ∷ [])
print_register protocol (some []) [] [] = ok (b'r' ∷ shifted protocol ∷ b'.' ∷ [])
print_register protocol _ _ _ = err malformed_json

abbrev print_result :
    (req_id status : ℕ) → Headers → (body : Text) → List Event → Result Text NdjsonError
print_result req_id status [] [] [] = ok (b'a' ∷ shifted req_id ∷ shifted status ∷ b'.' ∷ [])
print_result req_id status _ _ _ = err malformed_json

abbrev print : Msg → Result Text NdjsonError
print (ExtMsg.register protocol id paths channels meta) = print_register protocol id paths channels
print (ExtMsg.result req_id http events) =
    print_result req_id http.status http.headers http.body events
print (ExtMsg.event ev) = err malformed_json
print (ExtMsg.log level msg) = err malformed_json

abbrev parse : Text → Result Msg NdjsonError
parse (c ∷ n ∷ d ∷ []) =
    if c == b'r'
    then ok (ExtMsg.register (n - 33) (some []) [] [] tt)
    else if c == b'n'
    then ok (ExtMsg.register (n - 33) none [] [] tt)
    else err malformed_json
parse (c ∷ n ∷ status ∷ d ∷ []) = ok (ExtMsg.result (n - 33) (empty_reply (status - 33)) [])
parse (c ∷ d ∷ []) = ok (ExtMsg.log LogLevel.info [])
parse _ = err malformed_json

abbrev json : Json Msg
json = record { to_string = print; from_str = parse }

abbrev first : Text → Result Registration (RegistrationError (Unit {0}))
first text = read_registration json (codes "candidate") (line text)

first_lines :
    (first (codes " n\".") ≡ ok (record { id = codes "candidate"; paths = []; channels = [] }))
    × (first (codes "r\". ") ≡ ok (record { id = []; paths = []; channels = [] }))
    × (first (codes "r#.") ≡ err (unsupported_protocol 2))
    × (first (codes "l.") ≡ err (expected_register (ExtMsg.log LogLevel.info [])))
    × (first (codes " ") ≡ err blank_register_line)
    × (first (codes "x") ≡ err (malformed_line malformed_json))
    × (read_registration json (codes "candidate") timed_out ≡ err register_timeout)
    × (read_registration json (codes "candidate") closed ≡ err exited_before_register)
unfolding read_registration accept_registration decode_line trim_start_matches trim_end_matches
first_lines = (refl, refl, refl, refl, refl, refl, refl, refl)

-- What is printed is one of these texts.
Printed : Msg → Text → Type 0
Printed a s = (parse s ≡ ok a) × (all (leb 32) s ≡ true) × (trim s ≡ s) × (is_empty s ≡ false)

unshift : (n : ℕ) → shifted n - 33 ≡ n
unshift n = omega arith

shifted_printable : (n : ℕ) → leb 32 (shifted n) ≡ true
shifted_printable n = ground arith

print_register-Printed :
    (protocol : ℕ) (id : Option Text) (paths channels : List Text)
    → Ensures
        (Printed (ExtMsg.register protocol id paths channels tt))
        (print_register protocol id paths channels)
unfolding Printed trim_start_matches trim_end_matches
print_register-Printed protocol none [] [] = (
  ap (λ n. ok (ExtMsg.register n none [] [] tt)) (unshift protocol),
  rw (shifted_printable protocol) refl,
  refl,
  refl,
)
print_register-Printed protocol none [] (c ∷ cs) = tt
print_register-Printed protocol none (p ∷ ps) cs = tt
print_register-Printed protocol (some []) [] [] = (
  ap (λ n. ok (ExtMsg.register n (some []) [] [] tt)) (unshift protocol),
  rw (shifted_printable protocol) refl,
  refl,
  refl,
)
print_register-Printed protocol (some []) [] (c ∷ cs) = tt
print_register-Printed protocol (some []) (p ∷ ps) cs = tt
print_register-Printed protocol (some (i ∷ id)) ps cs = tt

print_result-Printed :
    (req_id status : ℕ) (headers : Headers) (body : Text) (events : List Event)
    → Ensures
        (Printed (
          ExtMsg.result req_id (record { status = status; headers = headers; body = body }) events))
        (print_result req_id status headers body events)
unfolding Printed trim_start_matches trim_end_matches
print_result-Printed req_id status [] [] [] = (
  ap (λ n. ok (ExtMsg.result n (empty_reply (shifted status - 33)) [])) (unshift req_id)
      ∙ ap (λ n. ok (ExtMsg.result req_id (empty_reply n) [])) (unshift status),
  rw (shifted_printable req_id, shifted_printable status) refl,
  refl,
  refl,
)
print_result-Printed req_id status [] [] (e ∷ es) = tt
print_result-Printed req_id status [] (b ∷ body) es = tt
print_result-Printed req_id status (h ∷ headers) body es = tt

print-Printed : (a : Msg) → Ensures (Printed a) (print a)
print-Printed (ExtMsg.register protocol id paths channels meta) =
    print_register-Printed protocol id paths channels
print-Printed (ExtMsg.result req_id http events) =
    print_result-Printed req_id http.status http.headers http.body events
print-Printed (ExtMsg.event ev) = tt
print-Printed (ExtMsg.log level msg) = tt

compact : IsCompact json
unfolding Printed
compact = record {
  reads_back = λ a s h. (Ensures_ok (Printed a) (print a) (print-Printed a) h).0;
  printable = λ a s h. (Ensures_ok (Printed a) (print a) (print-Printed a) h).1;
  trimmed = λ a s h. (Ensures_ok (Printed a) (print a) (print-Printed a) h).2;
  not_empty = λ a s h. (Ensures_ok (Printed a) (print a) (print-Printed a) h).3;
}

abbrev handler : SrvMsg → Result (HttpReply × List Event) (Unit {0})
handler msg = ok (empty_reply 200, [])

abbrev request : Dispatch
request = record {
  req_id = 7;
  method = [];
  path = codes "/";
  query = none;
  headers = [];
  body_b64 = [];
  secret = none;
}

abbrev input : List Line
input = blank ∷ message (SrvMsg.dispatch request) ∷ message SrvMsg.shutdown ∷ []

abbrev text : Text
text = b'r' ∷ 34 ∷ b'.' ∷ b'\n' ∷ b'a' ∷ 40 ∷ 233 ∷ b'.' ∷ b'\n' ∷ []

writes : encode_all json (run_extension handler [] [] [] tt input).0 ≡ ok text
unfolding encode_all encode_line run_extension run_lines
writes = refl

run_extension-read_registration_example :
    (first : Text) × (rest : List Text) × (lines text ≡ first ∷ rest)
    × (read_registration json (codes "candidate") (line first)
        ≡ ok (record { id = []; paths = []; channels = [] }))
    × (map (decode_line json) rest ≡ map (λ msg. ok (some msg)) (run_lines handler input).0)
run_extension-read_registration_example =
    run_extension-read_registration json compact handler (codes "candidate") [] [] [] tt input text
      writes
