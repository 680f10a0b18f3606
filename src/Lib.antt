-- ===== src/Lib.antt =====
-- A model of the core of tweaktool, with proofs: a program lists values ("tweaks") under uris in a
-- server context, and a client reads and changes them over remote procedure calls.
--
-- The parts and their files:
-- * Text models tweak-common/src/tweakstring.c, the string that is stored inside its struct up to
--   128 bytes and on the heap above. Memory is a list of cells, an uninitialised cell is `none`, and
--   a function that leaves the defined behaviour of C gives `none`. `Text.Holds` says that a string
--   holds a text; Text/Assign, Text/Append and Text/Copy are about the single operations.
-- * Variant models tweak-common/include/tweak2/types.h, variant.h and the comparison, the item count
--   and the destruction of tweak-common/src/tweakvariant.c. Floats are bit patterns.
-- * Words is about numbers as bytes and bits. Convert models the conversions of
--   tweak-common/src/tweakvariant.c between a variant and a text: Decimal is what the C library does
--   with integers, Runtime the parameter for the rest of it (floating point) and for the JSON
--   parser, Print, Parse, Escape and ToJson the code itself; Outcome is about the requests that end
--   the program and the number of items that are read; Example is an instance of the parameter.
-- * Pickle models the values in the messages (tweak-pickle/src/tweakpickle_pb_util.c): Pickle.antt
--   the choice of the field, Stream the callbacks that write and read strings and vectors. Growth is
--   about the memory that a vector from a message is put into. The primitives of nanopb
--   (Pickle/Nanopb) are a parameter. Pickle/Requests joins them with the server's handler.
-- * Cli models tweak-app-cl/src: Uris the sorted list of uris of tweakuriutil.c with the n-th match
--   of a prefix, Tokens the tokens of a line of stringutil.c; Order and Complete, and Merge, are
--   about them. Geometry is where metadatautil.c looks for the element of a matrix in its vector,
--   and Geometry/Matrix is about matrices of two dimensions.
-- * Json models the tree of a JSON document (tweak-json/src/tweakjson.c) with its accessors; Build
--   is the callback that builds the tree in memory, whose cells Stored relates to the document, and
--   Calls, Placed, Built and Parsed follow the calls of the parser.
-- * Metadata models how an item is shown and edited (tweak-metadata/src/tweakmetadata.c): Defaults,
--   Values, Options, Dimensions and Update are the code; Library is the parameter for the JSON
--   parser and the rest of the C library. Settings, OptionValues, DimensionValues, Initial, Merged
--   and Valid are about the types of what is read, Counting and Numbering about the values of
--   options, Ignored and Decimals about settings that are left out, Copied about the copy.
-- * App/Features models tweak-app/src/tweakappfeatures.c, App/Model tweak-app/src/tweakmodel.c and
--   App/Index tweak-app/src/tweakmodel_uri_to_tweak_id_index.c. The hash tables (extern/uthash, a
--   submodule) are a parameter: App/Table is their interface with the laws of their manual, and
--   App/Assoc is an instance, which the examples run on.
-- * App/Compatibility and App/Server model tweak-app/src/tweakappcommon.c and
--   tweak-app/src/tweakappserver.c: the calls of the program, the handlers of the remote calls and
--   the jobs of the worker thread (App/Server/Loop). App/Server/Consistent is the invariant between
--   model and index; Add, Remove, Change and Subscribe take the operations one by one, Call and Run
--   any sequence of calls from the creation of the context on. App/Query is what a program asks a
--   context about its items.
-- * App/Queue models tweak-app/src/tweakappqueue.c, the queue of jobs for the worker thread, with
--   the release of the lock in the middle of a push: Order is about single calls that do not wait,
--   Batch about several, Late about a push that does wait.
-- * App/Client models tweak-app/src/tweakappclient.c: the handlers that mirror the server's items,
--   the program's own changes and the condition of its waits. Replies is about the values that the
--   program sets. App/Paired is the relation between a model and its index that both contexts keep.
--   App/Mirror joins the two contexts: what a client holds after it got the remote calls of a
--   subscription.
--
-- Function names are those of the source without their prefixes (`tweak_app_server_add_item` is
-- `server_add_item`). Each call, handler and job is one step: the source holds a lock around it. In
-- the contexts the jobs that are handed to the queue and the remote calls are logs in the state;
-- whether a remote call and each allocation succeeds is an argument. Numbers of 64 bits wrap where
-- the source adds. Most recursion is on a list. The loop that reads a vector from a message takes
-- the length of the message as fuel, of which each element takes at least one byte; a number is
-- printed with at most 20 digits, enough for 64 bits. The binary search and the tokens of a line
-- take the length of the list and of the line.
--
-- Not modelled: the locks, the creation of the client context and its timed wait, the messages
-- around the values, the JSON parser and the calls that fetch metadata for an item, the transports,
-- the commands of the command line client, the gateway and the GUI.
pub mod Common
pub mod Text
pub mod Variant
pub mod App
pub mod Words
pub mod Convert
pub mod Cli
pub mod Json
pub mod Metadata
pub mod Pickle
