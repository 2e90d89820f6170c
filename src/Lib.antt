-- ===== src/Lib.antt =====
-- ZNC is a bouncer for IRC: it keeps connections to IRC servers, and clients attach to them. This
-- library models the core that handles the text of the protocol, from the C++ sources in src/ and
-- include/znc/ of the repository.
--
-- The parts, from the bottom up, and the files that model them:
--
-- Prelude, StringMap: shared lists, bytes and tests; std::map with texts as keys, in key order.
--
-- Text: src/ZNCString.cpp. A CString is the list of its bytes, numbers below 256 where a theorem says
--   so. Text/Ctype has the character classes of the C locale; Text/Compare Equals, StartsWith,
--   EndsWith, Contains, Left, Right, the chomps, TrimPrefix, Ellipsize and Join; Text/Trim the Trim
--   family; Text/Split find with the substr calls around it; Text/Token Token and Text/SplitBy Split;
--   Text/Number the conversions from and to decimal numbers, with strtoul; Text/Escape Escape_n, with the reader of
--   each format in Read, the writer in Write and the loop in Loop; Text/Wild WildCmp, its loops in
--   Search and the meaning of a wildcard in Relation; Text/Format NamedFormat. Where the source hands
--   c_str() to a C function, the text ends at its first NUL byte.
--
-- Nick: src/Nick.cpp. CNick as a record; its methods return the new record. The pointer to the network
--   is an argument of the methods that reach the server's permission characters through it.
--
-- Message: src/Message.cpp. CMessage as a record; Parse reads a line into it (Message/Parse), with
--   CNick::Parse for the prefix and Escape for the tags, ToString writes it (Message/Print), and
--   InitType sorts it by its command (Message/Kind). A read outside the vector of parameters is none.
--   size_t has 64 bits and unsigned int 32, and sums and differences wrap.
--
-- Buffer: src/Buffer.cpp. CBuffer as its deque and its line count; an operation returns the new buffer
--   and the value that the source returns. It compares and parses lines with Message.
--
-- Network: the servers of src/Server.cpp (Network/Server) and the server list of src/IRCNetwork.cpp
--   (Network/Servers): the vector with the index that says which server is next. A pointer to a server
--   is its place in the vector. The jump to another server, which closes the connection, is a flag of
--   the result of DelServer, and what it does to the connection is left out. The channel list is in
--   Network/Channels: its calls in Defs, the loop that picks the channels to join in Pick, and the
--   messages that join them in Join. A set of pointers is the list of its channels in the order in
--   which the source visits them, the random start and the answers of module hooks are arguments.
--
-- Config: src/Config.cpp. A CConfig as a tree; Parse reads it from a list of lines (Config/Parse),
--   Write gives such a list (Config/Write), and the Find operations take entries and blocks out
--   (Config/Find).
--
-- Channel: src/Chan.cpp. The modes, the nicks and the key of a CChan; ModeChange is a loop over a state
--   (Channel/Modes) whose events are the calls of module hooks, in their order. The mode characters of
--   the server, from src/IRCSock.cpp, are a table that the functions take.
--
-- IrcSock: src/IRCSock.cpp. IrcSock/Flood has the queue of messages to the server: PutIRC, PutIRCQuick,
--   TrySend and the timer of the flood protection; what is written is a list. IrcSock/Caps has the
--   negotiation of capabilities, SendNextCap and OnCapabilityMessage, with the sets of names as sorted
--   lists and the lines that it puts as a list; Caps/Dialog sets a server against it. IrcSock/Support
--   has ParseISupport, with the tables of modes that Channel reads. IrcSock/AltNick has SendAltNick,
--   which asks for another nick behind a refused one, and a server that refuses each of them. A module
--   hook is a function of what it is given, and does not call the connection again.
--
-- Fuel: the loop of Escape_n takes the length of the text, and every round reads a byte; the loop of
-- Parse over the parameters, the loops of Token and Split and the loop of ModeChange over its arguments
-- take the length of the text, and every round takes a byte, with a separator that is not empty; the
-- digits of a number are no more than its value plus one; the loop that puts the messages of JoinChans
-- takes the number of channels, since each message has one at least; the dialog with the server takes
-- twice the number of pending names and the number of those that wait to be asked for again, since a
-- pending name is asked for twice at most; the refusals of nicks are counted by their number; WildCmp takes
-- (n + 2) * (k + 1) + 2 for a text of n bytes and a pattern of k, since every retry takes a byte of the
-- text and every round between two retries a byte of the pattern.
--
-- Not modelled: time stamps of messages and lines, which are the clock's; the pointers of a message to
-- its network, client and channel; sockets, files, TLS, modules, the web interface and the other parts
-- of the core. bool results of Trim and the chomps, which say only whether the text changed, are left
-- out.
pub mod Buffer
pub mod Channel
pub mod Config
pub mod IrcSock
pub mod Message
pub mod Network
pub mod Nick
pub mod Prelude
pub mod StringMap
pub mod Text
