-- ===== src/Lib.antt =====
-- The C++ client of a LAN chat: a terminal client and a window share commands, a frame protocol and
-- a connection; the window adds list models for its views and attachments that are encrypted chunk
-- by chunk. The components do not share state: the terminal client reads its options (Auth), turns
-- lines into commands (Command) and exchanges messages (Message over Json) in frames with the
-- server (Protocol); both clients log in over a connection that their threads share (Connection)
-- and wait before they connect again (Reconnect); the window keeps its rows in list models
-- (ChatModel) and chooses its effects (PerformanceProfile), judges a benchmark (BenchmarkGate) and
-- looks for the server to host (HostPaths), and for an attachment it encrypts a file into chunks
-- (TransferClient over Crypto), follows their acknowledgements (TransferState) and puts a download
-- together again (DownloadAssembler over Crypto). The page in the window sends requests and is
-- shown a state, which are checked and stripped of secrets (Bridge over Json); requests are
-- dispatched and the state is built by Page.
--
-- Prelude: Boolean tests, lists measured by native numbers, signed numbers, byte strings and
--   association lists, which all other modules share.
-- Command: client-cpp/src/command.cpp. Scan has the tests and searches on bytes, PrivateMessage the
--   parser `parse_private_message` and Join `parse_join_command`, each against a grammar.
-- Auth: client-cpp/src/auth.cpp. `parse_arguments` is the loop `scan` and the mode checks `finish`;
--   Guest is about the user code, Port about the port.
-- Protocol: client-cpp/src/protocol.cpp. `send_frame` and `recv_frame` over a socket with state;
--   the two copies for a plain socket and for TLS differ in their errors only. Partial is about a
--   send that fails.
-- Attachments: client-cpp/gui/src/attachments and client-cpp/include/attachment_limits.hpp. Chunks
--   counts the chunks of a file; Crypto is attachment_crypto.cpp, TransferClient is
--   transfer_client.cpp, DownloadAssembler is attachment_download_assembler.cpp and TransferState
--   is attachment_transfer_state.cpp, where each method is a function on the state record.
-- Reconnect: client-cpp/gui/src/reconnect_policy.cpp (Policy) and `ReconnectBackoff` of
--   client-cpp/src/connection.cpp (Backoff).
-- ChatModel: client-cpp/gui/src/chat_model.cpp; each method is a function on the rows.
-- PerformanceProfile: client-cpp/gui/src/performance_profile.cpp; each method is a function on the
--   fields, Hysteresis is about a change of the effective mode, Calls about sequences of calls.
-- BenchmarkGate: client-cpp/gui/src/performance_benchmark_gate.cpp.
-- HostPaths: client-cpp/gui/src/host_path_resolver.cpp; the search takes at most eight steps, as
--   the source states.
-- Json: values of the two JSON libraries; Build is about objects that assignments have built.
-- Message: client-cpp/src/message.cpp and client-cpp/include/message.hpp. Serialize is `serialize`,
--   Fields and Receive are `receive_message_impl`, the checks in the order in which they are made;
--   Base64 and Bitmap are about two of the checks, RoundTrip is about a message that is sent.
-- Bridge: client-cpp/gui/src/bridge_protocol.cpp. The branches of `validatePayload` are a list of
--   rules; Requests is about `validateCommand`, Secrets about `serializeState`.
-- Connection: `ConnectionState` of client-cpp/src/connection.cpp as steps of the threads that share
--   it; Sound is about the handles that they use, Stopped about `request_stop`, Phases about the
--   phases of a connection and Login about a login that nothing disturbs.
-- Controller: client-cpp/gui/src/gui_chat_controller.cpp. Its cache of conversations is the root
--   module, Conversations and Replies the methods that use it, Events their sequences; Trimmed and
--   Cached are about the model that is shown, Bounded about the size of the cache.
-- Page: client-cpp/gui/src/chat_bridge.cpp. Its root module builds the object of the state, Steps
--   has the state of the bridge and its methods, Branches and Dispatch are `dispatch`, Signals is
--   what reaches the bridge one after another; Answers is about results, Fresh about what is shown.
--
-- A module for runs at concrete inputs, Tests, stands with each component.
--
-- Bounds and fuel: the loops of Protocol take fuel, the number of bytes to send or receive, since a
-- successful call moves at least one; the loop of TransferClient takes the logical size, since each
-- round reads at least one byte; the digits of a number n take n + 1. Sizes of files are natural
-- numbers once the guard has refused negative ones; the overflow of sums near 2^63 is not part of
-- the model; Chunks is about the sizes of the client. The narrowing casts to `int` are written out.
--
-- Parameters: the socket library, OpenSSL, the JSON libraries' parsers and printers, Qt's strings,
-- the Qt device, the files, `QVariant`, the arithmetic of `double`, the random device and what the
-- window's bridge is told by the discovery are records or functions that the definitions take; what
-- a theorem relies on is a hypothesis of its own.
--
-- Not modelled: a JSON printer that throws on text that is not UTF-8, the controller's lists of
-- users and rooms, attachments, status line and settings, the window's worker, discovery and
-- process start, the MLS library, the page and the server.
pub mod Prelude
pub mod Command
pub mod Auth
pub mod Attachments
pub mod Protocol
pub mod Reconnect
pub mod ChatModel
pub mod PerformanceProfile
pub mod BenchmarkGate
pub mod HostPaths
pub mod Json
pub mod Message
pub mod Bridge
pub mod Connection
pub mod Controller
pub mod Page
