-- ===== src/Lib.antt =====
-- Verification of whdr, a daemon that takes provider webhooks, hands them to extension processes and
-- fans the events they emit out to WebSocket subscribers, with a durable log for replay.
--
-- The parts and how they interact:
--   - An extension registers path claims and channel prefixes and emits events on channels below them.
--     The daemon drops events outside the claims (crates/whdr-server/src/channel_claims.rs).
--   - The registry (crates/whdr-server/src/subscribers.rs) stamps each batch, through the delivery log
--     (crates/whdr-server/src/delivery_log.rs) where there is one, and pushes the frames to the queue of
--     each connection with a pattern that matches (crates/whdr-proto/src/channel.rs).
--   - The queue of a connection (crates/whdr-server/src/outbound_queue.rs) drops its oldest events over
--     its budgets and reports the drops.
--   - The client (crates/whdr-sub-kit) reconnects from its cursor and hands each event to the
--     application once.
--
-- Files:
--   - Common: lists, texts as byte lists, maps, 64-bit counters, the result type, Boolean tests.
--   - Proto/Channel: validate_channel, validate_pattern, channel_matches, Pattern. Grammar has what the
--     validators accept, Matching the relation that the matching loop decides.
--   - Proto/Messages: the message types of crates/whdr-proto/src/messages.rs; Redaction their Debug.
--   - Proto/Ndjson: encode_line and decode_line of crates/whdr-proto/src/ndjson.rs; Stream the lines
--     between them. Server/ExtensionRegistration: read_registration of crates/whdr-server/src/
--     extension_registration.rs; KitRegisters what it reads of an extension of the kit.
--   - Server/OutboundQueue: OutboundQueue with new, push_event, push_control, pop, take_pending_lag.
--     Eviction has the loop of push_event, Budget the invariant, Accounting the counters over calls.
--   - Server/DeliveryLog: Shared with append, read_after, prune_blocking and the recovery of open.
--     Storage has the interface to redb and serde_json, ListStore an instance, Rows facts on rows,
--     Consistent the invariant, Stamping, Reading, Append, Prune (with PruneLoop) and Reopen one
--     operation each.
--   - Server/ChannelClaims: the validation of claims, the channel filter, and register and unroute,
--     which stand for the registration block of start_extension and for unroute_extension of
--     crates/whdr-server/src/daemon.rs. Prefixes, Isolation and Registration lead to namespace
--     isolation; Filter has the event filter.
--   - Server/Subscribers: the registry with insert, remove, subscribe, unsubscribe, fanout, the close
--     methods, counts and snapshots. Delivery has the fan-out for one connection, Persistence the log.
--   - Server/SubscriberWs: handle_subscriber_text of crates/whdr-server/src/subscriber_ws.rs; Replay the
--     frames of a replay; Socket subscribe_handler and the loop of subscriber_socket, Same what its
--     branches leave as it is, Ending, Silent and Told how the loop ends.
--   - Server/DispatchWindow: the permits and pending requests of crates/whdr-server/src/
--     dispatch_window.rs; Capacity their interleavings.
--   - Server/Supervision: the respawn policy of next_respawn_delay in crates/whdr-server/src/daemon.rs;
--     Backoff its delays, CrashLoop when it gives up. Server/Daemon: the maps of AppState there with
--     dispatch routing, registration, cleanup and reload; Discovery has discover_extensions of
--     crates/whdr-server/src/extension_process.rs; Starting and Supervise have start_extensions
--     and the end of a process, Steps the steps of the tasks, one for each lock; Consistent, Registered
--     and Reached lead to the invariant, Routing and Cleanup say what a dispatch and a cleanup do.
--   - Server/ExtensionLink: ExtHandle::dispatch and ExtensionReaderTask there; Answers from a result to
--     the fan-out, Timeouts the kill of an extension that hangs, ProtocolErrors of one that writes
--     malformed lines.
--   - Server/Tokens: the token store, the token control and the control requests
--     (crates/whdr-server/src/token_store.rs, token_control.rs, control_plane.rs); Revocation what a
--     rotation and a revocation end. Tokens/File has the file with load_or_empty and persist, Durable
--     what a start reads after a persist that is cut short, Separated a printer and reader of its
--     tokens; Tokens/Reload reload_from_path of crates/whdr-server/src/daemon.rs, Closing the
--     connections that it closes; Tokens/Stream handle_control_stream.
--   - Server/Ingest: route_key_from_path; RouteKey what it picks; Handler the rest of
--     crates/whdr-server/src/ingest.rs, with Answers its responses by what the path names.
--   - Server/Config: the sections of crates/whdr-server/src/config.rs with their defaults, load and
--     validate; Safe what a configuration that loads has shown. Server/Metrics: render_prometheus of
--     crates/whdr-server/src/metrics.rs; Labels its label values, Series the rows of the subscribers.
--     Server/Status: status_json of crates/whdr-server/src/daemon.rs; Connections its subscribers in the
--     metrics.
--   - SubKit/Resume: ResumeState; Window its invariant. SubKit/Session: recv, connect, run_session and
--     run of the client; Ascent, Handling and Run follow the event numbers, Fatal which errors end it.
--   - Exts/Hmac: handle_hmac_dispatch and sign of exts/whdr-ext-hmac/src/lib.rs with the helpers of
--     crates/whdr-ext-kit/src/lib.rs; Signature what a dispatch that emits an event has
--     shown, Channels that the channels it derives are valid, Env from_env with the
--     channels under what it reads. Exts/Github: handle_github_dispatch of
--     exts/whdr-ext-github/src/lib.rs; Verified what an event of it has shown. Exts/Teams:
--     handle_teams_dispatch of exts/whdr-ext-teams/src/lib.rs; Notified its events and a body that is no
--     JSON. Exts/Kit: the loop of run_extension in crates/whdr-ext-kit/src/lib.rs.
--   - Recovery: the frames of a replay through the session of the client. Order and Client prepare
--     Resumption; Encoding is an encoding of the messages that can be read back.
--   - Tests modules run the definitions on concrete inputs and apply the theorems to them.
--
-- State is passed explicitly. A method that the source runs under a lock is one step. Atomic counters
-- are words with their wrap-around written out. Where the source indexes by character, texts are ASCII.
-- A HashMap is a list of entries in some order of iteration. Clocks, random ids, storage faults and
-- answers of the application are arguments.
--
-- Fuel: the eviction loop of push_event gets one more than the number of queued frames, and each round
-- removes one; the prune loop gets one more than the number of rows, and each round removes one. Both are
-- proved to end before it runs out. All other loops are structural.
--
-- Parameters: the files and the TOML of the configuration and of the tokens, the digits of numbers, the
-- redb table and serde_json (a record with laws, and a list instance that meets them), the JSON encoding
-- of subscriber frames and of control requests, the hash of tokens, the HMAC digests with the hex and
-- base64 encodings, and the answers of the handler, the cursor store and the socket of the client; which
-- sends of a subscriber connection work and which branch of its loop is ready; the entries of the
-- directories of PATH; what the http crate takes for a header or a status, and what the handle of an
-- extension answers to the ingest. Not modelled: spawning processes, accepting connections, the
-- scheduling of tasks, the files of the log, the syntax of TOML, the command line, floating-point delays,
-- and the clients in other languages.
pub mod Common
pub mod Exts
pub mod Proto
pub mod Recovery
pub mod Server
pub mod SubKit
