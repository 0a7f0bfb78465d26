-- ===== src/Lib.antt =====
-- goapptrace: a tracer for Go programs. A traced program logs the start and the end of its function
-- calls; the logs travel over TCP to a server, which rebuilds the calls from them, keeps them on disk
-- and shows them with the names of a symbol table.
--
-- The parts and their files:
--   Types        tracer/types/log.go, types.go, symbols.go: the records and constants. LogId is
--                the text of a LogID, Metadata log_metadata.go.
--   Encoding     tracer/encoding: the bytes of the records. Slices is what the functions do with
--                `buf []byte`, Buildin is buildin.go, Ids the IDs of types.go, Log the log records of
--                log.go, Symbols the symbol table of log.go and types.go. A Format module has the
--                bytes of each record, a RoundTrip module that they are read back.
--   Simulator    tracer/simulator: StateSimulator. Invariant and Steps are about one step, Calls about
--                the raw logs of a whole tree of calls.
--   Symbols      tracer/types/symbols.go: Symbols and SymbolsData. Validity says what a well-formed
--                table is, Validate is about Validate and Load, Scan and Lookup about GoModule, GoFunc
--                and GoLine, Names about FuncName and File, Split about ShortName and PackagePath.
--   Protocol     tracer/protocol/packet.go: the packets; Bodies their bytes, Proto and Framing the
--                messages of protocol.go, Merge MergePacket and marshalLargePacket.
--   Server       tracer/protocol/server.go: ServerConn.OnEvent; Session is about one connection,
--                Conns about getServerConn and the connections of a server.
--   Client       tracer/protocol/client.go: Sender is mergeSender, Handler is Client.OnEvent, Serving
--                is Init and Serve, BufferOption is buffer.go.
--   Storage      tracer/storage: Disk is what is used of package os, WriteBuffer and ReadBuffer are
--                buffer.go, Store is store.go, Stores is stores.go, Index is index.go, Log
--                the metadata of log.go. Contents is
--                about what a WriteBuffer stands for, Records and Seeks about its operations, Cached
--                and Stale about the cache of a ReadBuffer, a RoundTrip module about what is read of
--                what was written.
--   Logger       tracer/logger: RetrySender is retrysender.go.
--   Sql          tracer/sql: the values of type.go; Rows and Fields are row.go, Expressions and
--                Evaluation type.go, op.go and func.go. Typing says what a well-typed expression is;
--                Readings, Comparisons and Soundness are about its evaluation. Parsing is parse.go:
--                Syntax has the trees of sqlparser, Tables the tables and errors, Conditions
--                parseWhereExpr, Statements the rest of SelectParser; Columns, Accepted and
--                Printing are about what is parsed.
--   Restapi      tracer/restapi/handlers.go and structs.go: csvResponse.Run. Window is about the rows that it sends,
--                Where about its WHERE clause. Reads is what a search reads, Sorting sortAndLimit and
--                filterFuncLog, Smallest and Keys what sortAndLimit keeps. Narrowing is a search
--                without SQL: Ranges, Wanted, Reading and Matches are about the index records it uses.
--                Params and ParamNames are its parameters in a request.
--   Viewer       logviewer/graphview.go: buildLines. Positions is about the columns of the calls, Lines
--                about when it panics, Spans about the ends of the gap lines.
--   Base         helpers; Examples the theorems at concrete inputs.
-- The simulator takes the RawFuncLogs that Encoding reads, inside the packets of Protocol, which
-- Client sends and Server hands to its handler. Storage keeps its FuncLogs, which Restapi searches
-- by the expressions of Sql. Symbols takes the SymbolsData of a symbol packet.
--
-- How the code is modelled. A method is a function from the state of its receiver, a record with the
-- struct's fields, to the new state; a lock makes it one step. A panic, by an explicit call or by an
-- index out of range, is a value of Outcome; an error is a value beside the new state. A slice is the
-- list of its elements and its capacity is its length; a make that is larger than the memory panics
-- as a slice expression beyond the capacity does. A string is the list of its bytes. An int64 is an
-- integer with its range as a predicate, an unsigned number a natural number below its bound, and
-- wrapping is written out where the code wraps. A Go map is an association list with one entry for a
-- key. The pools hand out Frames of capacity MaxStackSize; the pool of merge packets a new one
-- or any that was sent, which OnEvent has put back. The position of a record in a store wraps as an
-- int64; the ends of the ranges that the buffers of a file hold do not.
-- Every loop is a recursion on the list or the count it runs over, so no fuel is needed, but the
-- dial loop of a client: its fuel is one more than the retries that are left, and it never runs out.
--
-- Parameters. encoding/json on the commands is the record Json, with the law that decoding gives
-- back the encoded text. What encoding/gob reads for an index is an argument. Whether Conn.Send of
-- xtcp succeeds, whether the seeks, reads and writes of a file do, and what the sender under a
-- RetrySender or a dial answers, are arguments too, and so are glob4go, regexp, strconv, the
-- names of sqlparser and the time in SQL, encoding/hex, container/heap and sort.
-- A request carries the parameters that the client wrote into it.
--
-- Not modelled: the files, directories and locks of tracer/storage around the index and the stores,
-- the client's workers, the CSV printers, the HTTP
-- handlers of the REST API, the builder and the source editor, the terminal and command line
-- programs: they are files, processes, syntax trees of third-party parsers and user interfaces.
pub mod Base
pub mod Types
pub mod Encoding
pub mod Simulator
pub mod Symbols
pub mod Protocol
pub mod Server
pub mod Client
pub mod Storage
pub mod Logger
pub mod Sql
pub mod Restapi
pub mod Viewer
pub mod Examples
