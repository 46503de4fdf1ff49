-- ===== src/Lib.antt =====
-- Verification of the console client of the portal: VmPortal.Web/wwwroot/novnc, the JavaScript that
-- shows a virtual machine's screen in the browser and sends it the user's input.
--
-- The parts. A raw channel (a WebSocket) delivers messages to core/websock.js, which keeps a queue of
-- unread bytes and a queue of bytes to send. core/rfb.js reads the protocol from the first queue and
-- writes its messages to the second. It gives the bytes of each rectangle to a decoder of
-- core/decoders, and a decoder that finds too few bytes returns and is called again on the next
-- message; what a decoder draws goes to core/display.js. core/input/keyboard.js turns the browser's key
-- events into presses and releases, and core/input/gesturehandler.js touches into gestures.
--
-- The files.
--   Prelude         numbers, lists, integers: helpers that all parts share
--   Js              typed arrays: a size and the cells, `set`, `slice`, `copyWithin`
--   Util/Int        core/util/int.js
--   ByteQueue       the specification of the receive queue: a list of bytes, and its readers
--   Websock         core/websock.js. State: the fields; Receive, Send, Lifecycle: the methods, under
--                   their names in snake_case (rQshift8 is rq_shift8, _recvMessage is recv_message,
--                   close is close_socket). The other modules have the theorems
--   Rfb             core/rfb.js: Messages has the methods of RFB.messages; Server the messages of the
--                   RFB protocol and a parser for them, as a server reads them
--   Rfb/Session     core/rfb.js: State has the fields, Connection the connection's states, Handshake,
--                   Auth and Start what _initMsg calls, Updates and Notices what _normalMsg calls,
--                   Inputs _handleMessage, the socket's events and the constructor; the other modules
--                   have the theorems
--   Keyboard        core/input/keyboard.js: Keys has the state and _sendKeyEvent, Handlers the event
--                   handlers, Replay what a server makes of the key events; Keycode has getKeycode of
--                   core/input/util.js, with the table of core/input/vkeys.js
--   Base64          core/base64.js
--   Display         core/display.js: State has the fields, _damage and flip, Queue the render queue, Draw
--                   the drawing methods, Viewport the moves and sizes; Calls is any sequence of calls
--   Gesture         core/input/gesturehandler.js: Flags has _state, Touches the touches and measures, State
--                   the fields, Handler the methods; Stage the invariant, Runs what may happen in any order
--   Pointer         core/rfb.js: Mouse has _handleMouse and _handleWheel, Gestures _handleGesture and
--                   _handleKeyEvent; Touches joins them with Gesture
--   Decoders        core/decoders: Raw, CopyRect, Rre, Hextile, each with its decode_rect
--
-- The correspondence. A method is a function of the fields that returns a value and the fields; one
-- that may throw returns an outcome. A decoder is a function of its state and the unread bytes, and
-- returns what decodeRect returns, its state, the bytes left and the calls on the display in order.
-- A keyboard handler returns the calls of onkeyevent beside its state; an event comes with its code
-- and keysym, and the platform is an argument. A canvas is a function from coordinates to pixels,
-- and what is drawn by drawImage lies over what is there, which is seen where it is not opaque; an
-- image that loads is an event among the calls on the display, and the sizes are integers.
-- A method of core/rfb.js returns, throws, or never ends, with the fields as they are then; the
-- record Parts is its interface to the parts that are not modelled with it (the schemes of
-- authentication that encrypt, the decoders, cursors, the extended clipboard), and a session is a
-- list of inputs, of which the timers of _resumeAuthentication are some.
-- The mouse and gesture handlers return, throw or never end, with the calls they make in order. The
-- touches have integer coordinates, and the real numbers of the gestures are exact.
-- The arrays hold numbers: a single store reduces its number to a byte, and `set` is given bytes.
--
-- Bounds and fuel. rq_shift_str takes up to 4096 bytes in a round, so as many rounds as bytes are
-- enough; sq_push_bytes has one round more than bytes, and the theorem about it says when that is
-- enough. The loops of _handleMessage and the one over the rectangles of an update, which call the
-- other parts, have as many rounds as the field rounds of Parts says: any number, so that what is
-- shown of a session holds for all. A loop that scrolls by a gesture has a round for every pixel
-- that is left. A loop that is out of rounds counts as one that never ends, and a method that does
-- not end leaves the fields as they are at that point. All other loops are by recursion on their
-- counter. The receive buffer grows to 40 MiB.
--
-- Not modelled: log messages; the canvas and DOM; the decoders that inflate, and those of the browser
-- (zrle, tight, tightpng, zlib, jpeg, h264); the cryptography; of core/rfb.js the DOM, the
-- clipboard's extension and the parts named above; the scale of core/display.js and its
-- exports of the canvas; the tables of key symbols; app; vendor, which has copies of
-- other projects; the portal's server.
pub mod Prelude
pub mod Js
pub mod Util
pub mod ByteQueue
pub mod Websock
pub mod Decoders
pub mod Rfb
pub mod Keyboard
pub mod Base64
pub mod Display
pub mod Gesture
pub mod Pointer
