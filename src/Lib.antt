-- ===== src/Lib.antt =====
-- A Codenames game for six players: its server (CodeNamesServer) and the core of its client
-- (CodeNamesClient), as functions on explicit state.
--
-- A session is one connection. NetworkManager accepts sockets and hands completed receives to
-- Session::ProcessRecv, which passes the bytes, by the state of the session, to the SessionManager
-- (authentication and lobby) or to the GameManager of its room. The SessionManager keeps the
-- registry and the matching queue, and asks the IOCPServer for a room when six players wait. The
-- DatabaseManager keeps the accounts in SQLite. In the client, PacketHandler takes the packets of the
-- server apart and changes the GameState, which tells its observers, the screens.
--
-- Files, and what they model:
--   Prelude          shared names, Boolean tests, lists and integers over the native numbers
--   Outcome          calls that lock a mutex twice or die on a null pointer
--   Assoc            std::map and std::unordered_map as association lists
--   Text             std::string as bytes, std::to_string, std::stoi; Decimal and Fields: lemmas
--   Protocol         CodeNamesServer/include/PacketProtocol.h, and how packets are put together
--   Session          CodeNamesServer/include/Session.h, the setters and PostSend
--   Game             CodeNamesServer/include/GameManager.h and src/GameManager.cpp: Board (words and
--                    cards), Roster (the seats), Broadcast (messages), Turns (turns and the end of a
--                    game), Cards (what an answer turns over), Requests (the packets), Play (hints,
--                    answers, chat, HandleGamePacket), Start (StartGame and the destructor),
--                    Invariant (what holds through a whole game)
--   Database         CodeNamesServer/src/DatabaseManager.cpp: Secrets (salt, hash, token), Queries,
--                    Updates, Signup; Laws (what is used of SQLite) and Atomic (theorems)
--   SessionManager   CodeNamesServer/src/SessionManager.cpp: Registry and Waiting (theorems), Lobby
--                    (HandleLobbyPacket), Auth (HandleAuthProtocol)
--   Server           CodeNamesServer/src/IOCPServer.cpp; Receive: Session::ProcessRecv and the
--                    handlers of CodeNamesServer/src/NetworkManager.cpp; Network: its threads, with
--                    Stopping and Draining (theorems); Turns: what they do between Start and
--                    Ctrl-C; Entry: CodeNamesServer/src/main.cpp; Rooms and
--                    Enrolled (theorems)
--   Client           CodeNamesClient/include/core/GameState.h, src/core/GameState.cpp and SetStatus of
--                    src/gui/ConsoleUtils.cpp; Fields (ParseField of src/core/PacketHandler.cpp),
--                    Packets (its handlers; Dispatch: ProcessPacket and the registrations; Effects,
--                    Messages, Updates, Cards, Seats, Myself and Glued: theorems), Mirror (the
--                    client beside the server; Receives: what one receive brings), Screen (input and callbacks of
--                    src/gui/GameScreen.cpp; Show: its loop; Drawing: what it draws), Forms (the keys of
--                    src/gui/LoginScreen.cpp and MainScreen.cpp), Scenes (src/gui/GUIManager.cpp and
--                    src/gui/SignupScreen.cpp; Program: Run, and src/gui/ResultScreen.cpp), Network
--                    (src/core/IOCPClient.cpp and src/main.cpp; Runs: what happens to a client),
--                    Console (src/gui/ConsoleUtils.cpp)
--   Tests            concrete values at which the theorems are applied
--
-- How it corresponds. A function has the name of the C++ function in lower case. Pointers to
-- sessions and games are numbers, and the memory behind them is a function (Session.World,
-- Server.games). What leaves the server, bytes sent and results saved, is appended to a log in
-- order. The mutex of a manager is held through each of its calls, so a call is one step; where a
-- call locks a std::mutex that its thread holds already, which has undefined behaviour, the
-- outcome is `relocked`. An observer is an object behind a number, too, and what its callbacks do
-- to it is a function; an exception of std::stoi ends a handler of the client where it is thrown.
-- Neither side marks where a packet ends: the client takes one receive, of at most 2048 bytes, for
-- one packet. In Mirror.Receives the link glues no messages, and one of more than 2048 bytes
-- arrives in two receives. Numbers are natural numbers; an `int` that can be negative is an
-- integer, and the session count wraps at 2 ^ 64. Loops over the six seats, the 25 cards, the
-- queue and the lines of the words file are recursions on the lists.
--
-- Threads. Two records keep what a network thread waits for: of the client, what is at its completion
-- port (Client.Network), of the server, the signals of the destructor (Server.Network). A thread is in
-- front of the test of its loop, in the call that may block, or behind the loop; a run is a list of
-- what happens, in any order. The calls of Connect and of a handler are one step each. In Server.Turns
-- a handler may do anything to the server but write isRunning, and is taken to return; the workers
-- still run while the session manager is destroyed, and are brought nothing then but the signals of the
-- destructor.
--
-- Fuel. A join gives its thread two steps, one for the call in which it is and one for the test
-- of the loop; the theorems on Close and on the destructor say when these are enough.
-- `to_string_ℕ n` divides by ten with fuel n + 1, which is enough since each division makes the
-- number smaller; the hash has 16 hexadecimal digits (64 bits) at most, and the loop that doubles
-- the text runs 6 times, which brings even one digit to 64.
--
-- Arguments of the model: the content of words.txt, the order that std::shuffle chooses, std::hash,
-- the random draws, the clock, the SQLite calls, and whether the Winsock calls succeed.
--
-- Not modelled: the drawing of the screens other than the game's, the echo of input, logging,
-- Winsock and the completion port themselves, data races on plain variables, the memory of
-- overlapped structures; the files with _2 in their names, which CMakeLists.txt of the client
-- leaves out of the build.
mod Prelude
mod Tests
pub mod Outcome
pub mod Assoc
pub mod Text
pub mod Protocol
pub mod Session
pub mod Game
pub mod Database
pub mod SessionManager
pub mod Server
pub mod Client
