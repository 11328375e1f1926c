-- ===== src/Lib.antt =====
-- put-in-pipe passes a file from one sender to several receivers through the server's memory. The
-- sender uploads chunks into the buffer of a transfer session; each receiver downloads them and
-- confirms each one; a chunk goes when it was confirmed as often as there are receivers. At first the
-- buffer is frozen, so that receivers can still join and get everything; then a button, a timer, or
-- (in auto-drop mode) the first confirmation ends the freeze.
--
-- Parts, and the files that model them:
--   Config         src/config/config.h, src/config/config.cpp: the limits, and loading them
--   AtomicSet      src/atomicset.h: the expected consumers of a buffer
--   OrderedMap     what src/buffer.cpp uses of std::map, and its order
--   Chunk, Buffer  src/chunk.h, src/chunk.cpp, src/buffer.h, src/buffer.cpp
--   Publisher      src/observerpattern.h: who gets an event
--   TimerCallback  src/timercallback.h, src/timercallback.cpp
--   Session        src/transfersession.h, src/transfersession.cpp, in Session/Freeze, Chunks, Receivers
--                  and Info by operation
--   Json, SerializableEvent  src/serializableevent.h, src/serializableevent.cpp
--   Client         src/client.h, src/client.cpp; Client/PendingAcks has the acknowledgements and
--                  Client/AckText the text that carries an identifier
--   Keyed          what the two lists use of std::unordered_map
--   SessionList    src/transfersessionlist.h, src/transfersessionlist.cpp
--   ClientList     src/clientlist.h, src/clientlist.cpp
--   WsMessages     src/webapi.cpp: wsOnMessage and internalWsMessageProcessing, which apply a client's
--                  messages to its session
--   Server         the two lists together, and what a handler stores back into them
--   Http           src/webapi.cpp: the handlers, in Http/Info, Identity, Sessions, Chunks, Sockets and
--                  Messages; Http/Routes gives each path its handler (initRoutes), and Http/Calls has
--                  sequences of requests, web socket events and timers. src/websocketconnection.h and
--                  src/websocketconnection.cpp are in Http/Sockets
--   Captcha        src/captcha/token.h, src/captcha/token.cpp in Captcha/Token, Payload and Expiring;
--                  src/captcha/skaptcha.h, src/captcha/skaptcha.cpp in Captcha/Expiring;
--                  src/captcha/skaptcha_tools.cpp in Captcha/Texts and Crypto
--   Startup        src/main.cpp: the command line, the log level, the memory announced
--   Numerals       what the source uses of std::to_string, std::stoul and std::stoll
-- The other children of a module prove what their names say; Tests applies the theorems to concrete
-- values. Names follow the source in snake case; an operation of a session whose name a buffer has too
-- begins with session_.
--
-- State and operations. A struct is a record, and an operation a function from the old state to the
-- new one, with the calls that it makes on other objects as a list of effects, in order, and its
-- answer. An operation is one step, also the two of Buffer that do not lock, or not from their start.
-- Session/History and Buffer/History run any sequence of operations, with any clients gone or there at
-- each call; a session works on its buffer through the buffer's operations alone, and what holds of a
-- buffer carries over.
--
-- Numbers and bounds. size_t and uint64_t are taken modulo 2^64, where they are counted up. Theorems
-- about sequences assume fewer than 2^64 calls (a third of that for sessions, whose calls make up to
-- three on the buffer), so that indices and identifiers do not repeat. Three loops run on fuel:
-- to_string, where a number has fewer digits than its value and one; split, whose rounds each use up a
-- delimiter; and the loop that erases the padding of a signature, whose rounds each erase a character.
-- For the last two the fuel is the length of the text, and theorems say that it is enough. The times in
-- a token are added as integers, which differs from the source only where its sum overflows.
--
-- Shared objects. A weak pointer is the name of an object together with an answer, from outside, whether
-- it still exists. In Server that answer is whether the list of clients still has the name: the list's
-- reference is the lasting one, and a handler's own is gone when it returns. Callbacks are values;
-- running one is an effect. asio timers, crow's web sockets, the clock and the text that crow makes of a
-- JSON value are parameters or effects. In Http a request, a web socket event and a timer are each one
-- step; what a step does to other objects (a kick, the removal of a session that ended) is in its list of
-- calls, and the removals of clients and sessions are steps of their own.
--
-- The ciphers, the hash, base64, random bytes and captcha pictures are parameters; Captcha/Lawful names
-- what is relied on: that base64 and the cipher can be undone, that base64 uses neither separator, and
-- how much longer a sealed text is.
--
-- Not modelled: the exception that crow throws where the body of /api/session/create is a JSON number,
-- text or truth value; what other threads do inside an operation that does not lock; the page that the
-- build generates and starting and stopping the server in the web API; what src/main.cpp prints and
-- writes; the INI reader, the code that draws captchas, and third-party code.
pub mod Common
pub mod Config
pub mod AtomicSet
pub mod OrderedMap
pub mod Chunk
pub mod Publisher
pub mod TimerCallback
pub mod Session
pub mod Json
pub mod Client
pub mod SerializableEvent
pub mod Buffer
pub mod Keyed
pub mod Numerals
pub mod SessionList
pub mod ClientList
pub mod WsMessages
pub mod Server
pub mod Http
pub mod Captcha
pub mod Startup
mod Tests
