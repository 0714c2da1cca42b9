-- ===== src/Lib.antt =====
-- heaphttpd: HTTP/1 request headers, cookies, HTTP/2 connections, HPACK, WebSocket frames,
-- FastCGI and SCGI clients, Base64 and URI escapes.
--
-- An HTTP/2 connection (CHttp2, src/http2.cpp and src/http2.h) reads frames, keeps a table of
-- streams (http2_stream, src/http2stream.cpp), and hands requests to CHttp. Header blocks are
-- decoded by the code of src/hpack.cpp. Extensions that took over a connection exchange
-- WebSocket frames on it (src/websocket.cpp), through the socket loops of src/util/general.h.
-- Base64 (src/util/base64.h) is used by the handshake and by the authentication;
-- src/util/escape.cpp has the URI escapes.
--
-- - Prelude: Boolean tests, lists over the native numbers, bit masks, 32-bit words.
-- - Hpack/Integer: decode_integer, encode_integer and their wrappers (src/hpack.cpp).
-- - Hpack/Huffman: the code of src/util/huffman.cpp and src/util/tables.h. Bits, Leaves,
--   Reading, Strings and Input carry the proof for the decoder, Writing that for the encoder,
--   RoundTrip joins them.
-- - Hpack/Fields: hpack::parse. Hpack/Build: hpack::build (src/hpack.cpp). The static table,
--   which the connection owns, is an argument. Hpack/Reading, Parsing, Meaning and
--   FieldRoundTrip compare the two, Hpack/Progress and Hpack/Ends show that parse ends.
-- - Text: strtrim, strcut, lowercase and the character comparison (src/util/general.h);
--   Text/Separator has what strcut and strtrim do with one separator and with nothing to be
--   taken off.
-- - Http2/Wire: the frame header as the packed struct of src/http2comm.h lies in memory on a
--   little-endian machine, and src/http2comm.cpp. Http2/Wire/Layout compares it with RFC 7540.
-- - Http2/Connection: the states of a stream and of a connection, the table as a list in the
--   order of its keys (map), the operations on windows and dependencies of src/http2stream.cpp.
-- - Http2/Send: the frames that CHttp2 builds itself. What is sent is a list of buffers.
-- - Http2/Admit: the first part of CHttp2::ProtParse, which looks the stream up or makes it,
--   drops one if the table is full, and checks the frame's type against the stream's state.
-- - Http2/Frames: the branches of ProtParse by frame type. The calls into CHttp and the header
--   decoder are the record Upper, a parameter.
-- - Http2/Protocol: the chain of types, ProtParse and ProtRecv. Http2/Protocol/Alone is about
--   the frames that do not go to CHttp. Http2/Sample is the connection of the tests.
-- - Http2/Loops: Processing and AsyncProcessing (src/http2.cpp), over what arrives in each call.
--   Http2/Loops/Refinement compares AsyncProcessing with ProtParse on one frame after the other,
--   in the steps of Http2/Loops/Steps. Http2/Loops/Pieces is about the preface.
-- - Http2/Respond: TransHttp1SendHttp2Content (src/http2.cpp), which cuts a body into DATA
--   frames.
-- - Socket: _Recv_, SSLRead, _Send_ and SSLWrite (src/util/general.h) over the list of what the
--   system calls return, one after the other; when the list ends, `select` gives up.
-- - WebSocket: Send, Recv, Close, Ping and Pong (src/websocket.cpp); `random` is an argument.
-- - Base64: Encode and Decode of CBase64 (src/util/base64.h).
-- - Http1: the request as LineParse of src/http.cpp sets it. Http1/Header has the fields,
--   Http1/Lines the loop over lines, Http1/RequestLine ParseMethod; what these two call is the
--   record Outside, a parameter, which with_parse_method fills in. Http1/Pieces compares one
--   call with several.
-- - Cookies: the class Cookie (src/cookie.cpp), vSplitString (src/util/general.h) and the line
--   that src/cache.cpp writes. Cookies/Numbers, Pieces, Options and Saved carry the proof of
--   Cookies/RoundTrip. Vars: the variables of src/httpsessionvar.cpp and src/httpservervar.cpp.
-- - Cgi: cgi_base::Send and Recv, and the loops that read an answer (src/cgi.cpp, src/scgi.cpp).
--   FastCgi and Scgi: the clients of src/fastcgi.cpp and src/scgi.cpp, with FastCgi/Receive for
--   the answer. FastCgi/Records and Scgi/Netstring are readers written from the specifications,
--   against which FastCgi/Delivery and Scgi/RoundTrip hold what is sent.
-- - Escape: encodeURI and decodeURI, Escape/Unicode: escape and unescape (src/util/escape.cpp).
--
-- Integers are native numbers with the wrap of uint_32 and int written out. A buffer is the list
-- of the bytes that the code may read; a read outside of it is the reply `undefined`, as is a
-- shift by 32 or more. Pointers in the table are never null, since `new` throws. What a send
-- returns is left out where the modelled code does not read it, and so is the debugging output.
-- Time is an argument. The recursions are structural, but for loops that take a bound on their
-- turns: hf_add_node (4 for codes of at most 30 bits, eight bits each), the loops of
-- hf_string_decode (nine turns for a byte: it is taken, and each turn else uses up a bit),
-- hf_byte_encode_loop (a bit each), parse_loop, the two loops over frames, read_app_data and
-- line_loop (a byte each), decimal_digits (more than the number), and content_loop, whose turns
-- a peer can make as many as it likes.
--
-- Not modelled: a response that uses up its window within ProtParse and so calls AsyncProcessing
-- or ProtRecv there (Upper, the calls into CHttp, returns without them; in Http2/Respond they
-- are a parameter), a stream that such a call removes while its frame is parsed, strings of 2^28
-- bytes or more in hpack::build (int overflows) and buffers of 2^32 bytes or more in
-- cgi_base::Send, the translation of headers into HTTP/1, the frames around them, server push,
-- the dynamic table of HPACK, which the connection keeps, the allocation of memory (`new` is
-- taken to succeed), and the rest of the server: the bodies and responses of HTTP/1, documents,
-- the cache, the uWSGI client, the proxy, processes and files.
pub mod Prelude
pub mod Hpack
pub mod Http2
pub mod Socket
pub mod WebSocket
pub mod Base64
pub mod Escape
pub mod Cgi
pub mod FastCgi
pub mod Scgi
pub mod Http1
pub mod Cookies
pub mod Vars
pub mod Text
