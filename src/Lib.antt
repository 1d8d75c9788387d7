-- ===== src/Lib.antt =====
-- ENIL: a LINE client in C. This library models the program's shared core, source/shared/, as far as
-- the parts below go, by definitions that follow the C functions and bear their names.
--
-- The parts and how they interact:
--   * StrBuf (source/shared/enil_strbuf.c): the growing byte buffer, and the HTML, JavaScript and URL
--     escapes on it. A block is the list of its bytes, as `malloc` and `realloc` give them;
--     StrBuf/Growth has the buffer's invariant, StrBuf/Escape the loops, StrBuf/Decode the readers that
--     undo the escapes, StrBuf/ReadBack both together.
--   * Format (source/shared/enil_message_format.c): the text of a message as HTML, on the buffer. Spans
--     are checked in a first pass, `check_spans`, and written in a second one, `put_spans`.
--   * Thrift (source/shared/enil_thrift.c): the compact protocol to and from JSON values. Thrift/Wire
--     has bytes, varints and zigzag numbers, Thrift/Schema the field tables, Thrift/Write and Thrift/Read
--     the two directions, Thrift/ReadParts and Thrift/ReadSafety the reader on arbitrary bytes,
--     Thrift/Message the messages. The reader's record is its cursor and the flag
--     `bad`; the writer answers none where the C code returns 0.
--   * B64 (source/shared/enil_b64.c): base64 for binary fields, on OpenSSL's block functions, which
--     take a length as an int.
--   * ApiJson (source/shared/enil_api_json.c): typed fields of JSON objects.
--   * Health (source/shared/enil_health.c): the sticky failure gates of the worker and of LINE, with
--     each thread's bound account; Health/Gates follows them through any operations.
--   * Worker (source/shared/enil_worker.c): the client of the signing worker, behind the gate of Health.
--     The state is the credentials, the gates and the exchanges so far. Worker/Calls and Worker/Keys
--     have the operations, Worker/Gate what the gate keeps from the wire, Worker/Interleaved calls of
--     several threads that take turns within the calls, Worker/Answers, Worker/Credentials and
--     Worker/Sound what goes out and what comes back.
--   * Sse (source/shared/enil_sse.c): the stream of events, from bytes to the callback, with the cursor
--     of the last revision; it reports to the gates of Health by a flag of its state.
--   * Jpeg (source/shared/enil_jpeg.c): whether a file is a whole JPEG image, by its markers.
--   * NativePoll (source/shared/enil_native_poll.c): the polling loop of the native transport, which
--     shares the callback, the cursor and the flags of Sse. NativePoll/Order follows the operations of
--     a reply, NativePoll/Cursor the cursor over a run, NativePoll/BackOff the streak of failures.
--   * Identity (source/shared/enil_identity.c): the identity of a session, its JSON form, and which
--     thread has which. Identity/Shape has what an identity that was read is like, Identity/RoundTrip
--     the way to JSON and back, Identity/Bound the threads.
--   * Session (source/shared/enil_session.c): the session files of the accounts. The state is the
--     files, the login that each thread is bound to and its identity; an operation reads a file, changes
--     its cJSON tree and writes it, under one lock. Session has the bindings, Session/Bound what a binding
--     that matches means, Session/Threads what other threads keep, Session/Run operations of several
--     threads. Session/Partial has the partial full syncs, seen as times of categories: Session/Stamps
--     and Session/Counts the cJSON objects, Session/Maps the two maps in the file, Session/Queue and
--     Session/Update the update, Session/Acknowledge, Session/Acks, Session/Written and
--     Session/Complete the completion, Session/Syncs operations in any order. Session/Fields reads and
--     writes `session_t`, Session/Save merges it into the file, Session/Merge and Session/Saved say
--     how; Session/Settings has the login id and single fields, Session/Named the login id over calls.
--   * Refresh (source/shared/enil_line.c, source/shared/enil_talkserv.c): the refresh of the access token
--     with its journal beside the session file. Refresh has the recovery from a journal, Refresh/Locked
--     the whole refresh, Refresh/Silent when no request goes out.
--   * Gateway (source/shared/enil_chrome_gateway.c, source/shared/enil_line.c): a request goes over the
--     transport of the thread's identity, behind the gate of Health, and the one of the Chrome gateway
--     signed by Worker. Gateway/Silent has what the gate keeps back.
--   * Native (source/shared/enil_native.c): one request of the native transport. Native/Prepare makes it
--     ready, Native/Answer takes the answer apart, Native/Post has the call; the codecs (Thrift, B64),
--     the worker, the session and libcurl are operations of Native/Services. Native/Outgoing has what a
--     request carries, Native/Reason why a failure is reported. Native/Safety has what an
--     answer may do, Native/Sent when a request goes out.
--   * FileCrypto (source/shared/enil_crypto.c): files as they are uploaded, on OpenSSL's HMAC and
--     AES-CTR. FileCrypto/Keys has the derived keys, FileCrypto/Inverse both directions.
--   * E2ee (source/shared/enil_line.c, source/shared/enil_sync.c): the chunks of an encrypted message, as
--     they are cut for sending and joined after receiving, on B64.
--   * Png (source/shared/enil_png.c): whether a file is a whole PNG image, and its size. Png/Chunk has the
--     loop over the bytes of a chunk, Png/Step a round of the loop over chunks, Png/Whole the image,
--     Png/Header its first chunk, Png/Fuel the end of the loop.
--   * Common: lists, Boolean tests, integers, texts, and the interfaces of the C library (Libc), of
--     cJSON and of the number formats (Json). The modules called Runs hold concrete runs, with the
--     plain functions of Common/Samples in the place of the libraries.
--
-- Parameters: the allocator, cJSON, the number formats of the C library, OpenSSL, libcurl, pthread and
-- zlib's checksum; the generated schema (source/shared/enil_thrift_schema.inc); the callback of the
-- stream, and the database call that saves the cursor; what the session file and LINE answer the poller
-- in each turn. A native request takes the codecs, the worker and the session as operations; the
-- refresh takes loading and saving of the session file and enil_line_post as operations, and what the
-- file system answers at each step. The Chrome gateway takes libcurl's answers, and the routing the
-- native request, as operations.
--
-- Fuel: `grow_cap` doubles 64 times at most, which passes every size below 2^63 from any capacity but
-- 0; a varint has 10 groups, which 64 bits fit; values nest 41 levels deep, as the code's depth limit
-- has it; the loop over the fields of a struct takes the bytes left and 2, and each round reads one;
-- `append_sse` doubles 24 times from 256, above its limits; the loop over UTF-8 sequences takes the
-- length of the text; the loop over JPEG markers the length of the file, since each round reads two
-- bytes; the loops of a PNG image the length of the chunk and that of the file; the key derivation the
-- length asked for, since a round writes a byte at least. The poller runs over the turns that it meets
-- and says whether it has ended within them.
--
-- Not modelled: logs and the texts of messages for the user; memory that is freed; threads, beyond
-- operations that take turns, or the turns within a call of `worker_post`; the loop that reconnects the stream; the seconds that the poller sleeps;
-- how the bytes of a session file are read and written (a file is its cJSON tree, or none where it
-- cannot be read). Of the session, the retry policy, the login certificates and the preparation of a
-- login; of the LINE client, the calls of single services. The other
-- files of source/shared (the rest of the synchronisation, the database, the logins, the page) are not
-- modelled, and neither are the applications and the worker itself.
pub mod Common
pub mod StrBuf
pub mod Thrift
pub mod B64
pub mod Health
pub mod ApiJson
pub mod Sse
pub mod Worker
pub mod Format
pub mod Jpeg
pub mod FileCrypto
pub mod E2ee
pub mod NativePoll
pub mod Identity
pub mod Native
pub mod Png
pub mod Session
pub mod Refresh
pub mod Gateway
