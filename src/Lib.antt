-- ===== src/Lib.antt =====
-- Verification of thespis_impl_remote, which lets actors in different processes send messages to
-- each other over a network connection.
--
-- A peer is one end of a connection. It owns a sink and a stream of frames, made by the codec from
-- a byte stream, and service maps through which it hands incoming messages to actors of the
-- process, to subscribers, or to a further process. A frame is a buffer with a header (length,
-- service id, connection id) and a serialized message. The connection id ties the response to its
-- call. Addresses of remote services turn messages into frames and frames into answers.
--
-- Where what is modelled:
--   Common: tests on numbers, byte sequences, maps with numeric keys, results and polls.
--   Wire: src/wire_format/ (identifiers, the table of service names, errors, kinds of message).
--   Frame: src/thes_wf.rs and `kind` of src/wire_format.rs. A ThesWF is its cursor; `set_len`,
--     `set_sid`, `set_cid`, `with_capacity`, `write`, `default` and `try_from` are the functions
--     of the same names on it. The byteorder crate is the record `ByteOrder`, with the laws that
--     the crate documents; `little_endian` is one that meets them.
--   Codec: src/thes_wf/encoder.rs, decoder.rs and decoder_noheap.rs. The byte stream below is what
--     the environment answers to each poll (Codec.Transport): a list of answers for the writer, a
--     record of answers with the laws of AsyncRead for a reader. `poll_next` is a loop of rounds,
--     one for each turn of the source's loop, on fuel: three rounds are always enough for the
--     decoder with futures, and the length of the frame and two more for the one without.
--     Codec.Link is one direction of a connection as `Peer::from_async_read` of src/peer.rs sets it
--     up: an encoder, the bytes that arrive, and a decoder.
--   Peer: src/peer.rs and src/peer/. The record `Peer` has the fields of the struct and a history of
--     what the peer did: frames sent, values sent on oneshot channels, events, tasks, timers. A
--     handler is a function on it, `handle_call` for `Handler<Call>` and so on, and answers
--     `panics` where the source panics. `on_stream` and `on_task_output` are one turn of the two
--     listening tasks, `listen_incoming` is the loop over the decoder. What the executor, the sink,
--     serde_cbor and printing do is the record `Env`. `Reach` is any sequence of handled messages.
--     Every handler is a chain of a few kinds of change to the state (Peer.Moves), and invariants
--     are shown of these changes.
--   Services: src/service_map.rs, src/service_handler.rs, src/relay_map.rs, src/pub_sub.rs, and the
--     module that src/service_map_macro.rs generates. A future is the task that it comes to: what
--     it hands to actors, and its output. The answers of actors, relays and serde are parameters.
--     `RemoteAddr` is the address and the sink that callers of remote services have.
--   Chat: of examples/chat/ the actors `Server` and `User` of chat_server/src/ and the messages of
--     chat_format/src/. `Room` is the server with its users, and `Reach` any sequence of what
--     clients do, where at each message other mailboxes may be there or gone. A text is its bytes; the
--     regular expression for nicknames, the clock and the mailboxes of peers are parameters.
--   Chat.Client: of examples/chat/chat_client/src/ the actors `App`, `UserList`, `ChatWindow` and
--     `User`, the colours and the forms. Actors take turns: a schedule (Chat.Client.Turns) says who
--     handles its next message. `InSync` says that all is handled and that the page shows a roster,
--     which is the nickname of each id. Chat.Together runs the server with one such client.
--
-- Numbers are natural numbers with the wrap-around of u64 and i64 written out (`% u64_mod`).
--
-- Not modelled: time (a timeout is a message that may come at any moment, the grace period of a
-- closing peer is not waited for), the order in which an executor polls the tasks of a peer other
-- than as sequences of handled messages, random identifiers, log output, a full mailbox, and the
-- capacity of buffers. Of the repository's examples only the actors of the chat are modelled, without
-- the browser and the sockets below; the other examples are user interfaces and glue. Tests are left
-- out.
pub mod Common
pub mod Wire
pub mod Frame
pub mod Codec
pub mod Peer
pub mod Services
pub mod Chat
