-- ===== src/Lib.antt =====
-- A model of tinch++, a library by which a C++ program takes part in distributed Erlang.
--
-- A node has mailboxes, through which the program receives, and connections to other nodes. A term
-- is written in the external term format, wrapped in the message of a distributed operation, and
-- sent as a stream of bytes; the other side cuts the stream into messages, and dispatches each of
-- them as a call on its node. Links tie the life of two processes together.
--
-- Types      impl/types.h, impl/types.cpp: byte sequences, pids, references, binaries
-- Spirit     the primitives of Boost.Spirit, as an interface: a record of parsers and generators with
--            their documented laws; Spirit/Reference.antt implements it for the examples
-- Terms      impl/ext_term_grammar.h: a parser and a generator for each grammar
-- Strings    impl/erl_string.cpp, impl/string_matcher.h: packed strings
-- Values     impl/erlang_value_types.cpp, tinch_pp/erl_tuple.h, tinch_pp/erl_list.h,
--            impl/list_matcher.h: terms, `serialize`, patterns, `match`; Values/Expected.antt says
--            without bytes what a match is to give, and Values/Typing.antt of what type
-- Binaries   impl/types.cpp, impl/erlang_value_types.cpp: binaries and bit strings
-- Wildcards  impl/erl_any.cpp: the pattern that takes any term, as a parser and, in
--            Wildcards/Objects.antt, as the object whose bytes stay from match to match;
--            impl/matchable_seq.cpp: the message that it assigns
-- Lists      tinch_pp/erl_list.h, impl/list_matcher.h: whole lists, and packed lists of integers
-- Floats     impl/erlang_value_types.cpp: floats as text
-- Rpc        impl/rpc.cpp: remote calls
-- Lexer      impl/utils.cpp: `msg_lexer` and its two subclasses
-- Handshake  impl/handshake_grammar.h, impl/constants.cpp: the messages of the handshake
-- Control    impl/control_msg*.h, impl/control_msgs_impl.cpp, impl/ext_message_builder.cpp,
--            impl/ctrl_msg_dispatcher.cpp: the operations between connected nodes
-- Connection impl/node_connection_state.cpp, impl/node_connection.cpp, impl/networker.h,
--            impl/node_async_tcp_ip.cpp: the states of a connection, its reads and writes
--            Connection/Pairs.antt puts two of them together, with the bytes between them
-- Linker     impl/linker.h, impl/linker.cpp: the links between processes
-- Mailbox    impl/actual_mailbox.h, impl/actual_mailbox.cpp: the mailbox and its waiting
-- Pids       impl/actual_node.cpp: the creation of pids
-- Node       impl/actual_node.cpp, impl/link_policies.cpp, the calls of impl/actual_mailbox.cpp on the
--            node: mailboxes, deliveries, links between mailboxes and nodes
-- Connector  impl/node_connector.cpp: the connections of a node, made and accepted
-- Epmd       impl/epmd_protocol.h, impl/epmd_requestor.cpp, impl/utils.cpp: the port mapper's messages
--            and the parts of a node's name, and the endpoints that connect_socket tries
-- Maps       `std::map`, as the node and its connector use it
-- Tests      each theorem with hypotheses at a concrete input
--
-- A byte is a number below 256, and the value of an `int32_t` is its bit pattern. Whether `char` is a
-- signed type is an argument wherever the code depends on it. A parser is a function from the bytes
-- to a value and the bytes that are left, or `none`. An operation of the linker, of a mailbox or of
-- the connector is one step, and a schedule is a list of steps; the operations of a node come one after
-- the other, though the code takes and gives locks within them. An exception is a result.
--
-- `handle_new_condition` of the lexer calls itself, and takes fuel: `add` gives one round more than
-- there are bytes, since each round of the recursion removes a message, which is not empty unless its
-- size wraps to 0. A wildcard calls itself for the elements of a term, and takes fuel: `any_match`
-- gives one round for each byte, since a term has bytes of its own around its elements. Where the
-- fuel runs out the result is `none`.
--
-- A mailbox of a node is the position of its object in the order of creation; the maps of mailboxes
-- hold these positions as the code's maps hold weak pointers. `std::map` is a list of entries in the
-- order of their keys, and a lookup compares with all of them. The order on pids is a strict weak order
-- only while all serial numbers agree, as for the first 2 ^ 15 - 1 mailboxes of a node; beyond that the
-- real map promises nothing, and the theorems that a new mailbox is found and that a closed one is
-- forgotten are limited to them.
--
-- Not modelled: an attempt to connect whose handshake is never signalled, so that the caller waits for
-- ever; what other threads do between the locks of one operation of a node; the lifetime of the
-- state objects of a connection; Boost.Spirit, Boost.Asio and MD5, which are not the program's code;
-- the threads and sockets themselves, of which the outcomes are arguments; the texts of exceptions;
-- the type `double` and its conversions, which are arguments.
mod Prelude
pub mod Types
pub mod Spirit
pub mod Terms
pub mod Strings
pub mod Binaries
pub mod Wildcards
pub mod Values
pub mod Lexer
pub mod Handshake
pub mod Control
pub mod Connection
pub mod Linker
pub mod Mailbox
pub mod Maps
pub mod Connector
pub mod Node
pub mod Epmd
pub mod Rpc
pub mod Lists
pub mod Floats
pub mod Pids
mod Tests
