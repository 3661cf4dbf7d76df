-- ===== src/Lib.antt =====
-- AutoSyncGen keeps the objects of a server and of its clients in step. An object is a tuple of
-- fields, each with a dirty bit (`SyncObj`). A `SyncManager` holds the objects of each type
-- under small identifiers, with a bitset of the identifiers in use, and leaves the memory of
-- the objects to a lifetime manager. A client sends the snapshot of its objects; the server
-- answers with the difference between its own snapshot and that one; the client applies the
-- difference. A `ClientHandlerManager` keeps a handler for each connected client. The two ends
-- of a session send each other datagrams: connection requests, pings, requests for
-- synchronisation, their answers, and data of the program. The chat program lets clients add
-- and edit messages at the server.
--
-- Files, with paths from the root of the repository (Inc and Src stand for
-- include/AutoSyncGen/Inc and include/AutoSyncGen/Src):
-- Prelude, Result: shared names, tests, lists and integers; `Result` is a value or the fault
--   that the code runs into: a failed assertion (`SSVU_ASSERT`), an exception, or undefined
--   behaviour.
-- IdMap, IdList, Bitset: `std::map<int, V>` in the order of its keys, `std::vector<ID>`, and
--   `std::bitset<N>` with its text.
-- Json: the json values of SSVUtilsJson, a parameter; `JsonLaws` states what the code relies
--   on: objects hold what is put into them, conversions to json and back agree, and the texts
--   of numbers differ. Ssvu: `ssvu::eraseRemoveIf`, likewise.
-- SyncObj: Inc/SyncObj.hpp, Inc/FieldProxy.hpp, Inc/SerializationHelper.hpp. `edit` and `view`
--   are the proxy's, `set_from_json`, `to_json_all` and `to_json_dirty` the object's.
-- Lifetime: the contract of a lifetime manager; Lifetime/Storage: `LifetimeManager<Message>` of
--   Src/main.cpp, over any allocator that gives fresh addresses.
-- Snapshot: Inc/SnapshotTypeData.hpp, Inc/DiffTypeData.hpp, Inc/Diff.hpp and the conversions of
--   Inc/Snapshot.hpp. Difference: `getJsonDiff` and `getDiffWith` of Inc/Snapshot.hpp.
-- TypeManager: Inc/SyncManager.hpp at one type: `create_impl`, `remove_impl`, `update_impl`,
--   `server_create`, `type_snapshot` (`getSnapshot`), `apply_type_diff` (`applyDiff`), and
--   `edit_object`, the edit that the server of Src/main.cpp makes.
-- SyncManager: Inc/SyncManager.hpp and Inc/ManagerHelper.hpp over all types: `dispatch` is a
--   call through a dispatch table, `apply_diff` and `get_snapshot` the operations of the
--   manager, `exchange_all` the exchange of a client with its server.
-- Sync: what the difference of a type holds (Sync/Delta), the exchange of one type, and the
--   runs of a server with one client.
-- Connection: Inc/Network/ConnectionManager.hpp. One round of the loop of the timeout thread is
--   a step; the interleaving of the two threads is a sequence of such steps.
-- Packet: Inc/Network/PacketTypes.hpp and `fillPacket` of Inc/Network/PacketHandler.hpp, over
--   SFML's packets, a parameter (`PacketLib`); `PacketLaws` states that what is written at the
--   end of a packet is read, in the same order and of the same kind, at its front.
-- Session: Inc/Network/SessionHost.hpp: the state of a host, `mk_packet`, `send_to`, and
--   `receive_round`, a round of the receiving thread with its `catch` clauses.
-- Server: Inc/Network/SessionServer.hpp, and Client: Inc/Network/SessionClient.hpp, each with
--   its handlers under the names of the source; `receive` handles a datagram and returns those
--   that are sent. `sending_thread` is the client's sending thread, `sender_round` a round of
--   its inner loop.
-- Protocol: a client and its server: the connection of a client, and a round of
--   synchronisation.
-- Network: a server and its clients as a step relation, with what is under way; losing,
--   repeating and reordering datagrams, and any datagram at the server, are steps or their
--   absence. Network/Addressed is about the addresses of the server's answers.
-- Chat: the message type and the two programs of Src/main.cpp: `on_chat_data` is the function
--   in the server's `onDataReceived`, with `lastID` captured; Chat/Menu is the client's, with a
--   round of its menu (`choose`); Chat/Cases has the outcomes of the former, Chat/Posted brings
--   a choice of the user to the server, and Chat/Calm is about the functions of both programs
--   as functions of a session in Network.
-- Chat/Lines, Chat/System: the lines that the chat promises its users, and the two programs as
--   a whole: the events of a user, of the sending thread and of others, with the packets of the
--   two, and what the server answers others if it is addressed to the client (`for_client`),
--   delivered at once (`round`, `act`, `run`), against the lines (`record_all`).
-- Chat/Console: `safeCin` and the loops of the `ConsoleSessionController` of Src/main.cpp, over
--   the standard input, a parameter (`Console`); `ConsoleLaws` states what `>>`, `clear` and
--   `ignore` do with lines of words, and with an input that has failed.
-- Tests: a json model that meets `JsonLaws`, the chat's message type, and the theorems at
--   concrete values.
--
-- Bounds: `maxObjs` is 100, as in the source; a type has at most as many fields, since
-- `getJsonDiff` reads the dirty bits into a bitset of that size. An `int` counter that would
-- pass 2147483647 is undefined behaviour. Loops run over lists or over the `maxObjs` bits, but
-- for those of the console: `select_role` has a number of rounds, and a menu has a list of what
-- the other threads do before each round; one round for each line that the user types, or for
-- each choice that the user makes, up to the last one is enough.
--
-- The conversions `ssvu::castEnum` and `ssvu::toEnum` are taken to be those of the language
-- between an enumeration and its numbers. A pointer to a handler is its index in the vector of
-- handlers. Uninitialised members of a new handler are arguments. Reading `items[i]` of a
-- missing key inserts a null value, as `std::map` does.
--
-- A datagram that a function sends is part of its result, and one that arrives is an argument,
-- so that losing, repeating and reordering datagrams is a choice of what is received. An
-- exception that a `catch` clause takes before any state changed leaves the session as it was;
-- one that is taken after a part of a change is the fault `unfinished`, and nothing is stated
-- beyond it. `EmptyAsArray` states that an empty json object serves as an array, which the json
-- of a difference needs, and `FieldKeys` the texts of three numbers. In Chat/System a datagram
-- between the two programs arrives, and before the next event; in Network it need not. A run of
-- Chat/System has its client to the end, and `disconnect` in it is only the change of the flag;
-- that `selectClient` ends with it is in Chat/Console.
--
-- Not modelled: the sockets and their failures, the threads as such, sleeps, the log and what
-- is written on the console, which are input and output; SSVUtils, SSVUtilsJson and SFML, which
-- are parameters; and code that nothing uses (Inc/ObjBase.hpp, `IsFieldProxy`).
pub mod Prelude
pub mod Result
pub mod IdMap
pub mod Bitset
pub mod IdList
pub mod Json
pub mod SyncObj
pub mod Ssvu
pub mod Lifetime
pub mod Snapshot
pub mod Difference
pub mod TypeManager
pub mod Sync
pub mod SyncManager
pub mod Connection
pub mod Packet
pub mod Session
pub mod Server
pub mod Client
pub mod Protocol
pub mod Chat
pub mod Network
mod Tests
