-- ===== src/Lib.antt =====
-- A model of LDP, the library data platform: a program that copies the data of a FOLIO tenant into
-- a PostgreSQL database. It extracts pages of JSON, stages each page in two passes, merges the staged
-- tables into their histories, and keeps its own tables, version and log in the database.
--
-- How the parts correspond to the code, by paths from the root of the repository:
--
--   Base        shared notation, lists, bytes, decimal numbers, and results that may be errors. A text
--               is a list of bytes; c_str cuts it at its first zero byte, as a C string ends there.
--   CamelCase   src/camelcase.cpp: names of columns from names of fields.
--   DbType      src/dbtype.cpp: SQL by database system; the escaping of COPY text and of constants.
--   JsonText    src/stage.cpp, encode_json.
--   Util        src/util.cpp, src/names.cpp.
--   Json        JSON values, and the record Rapidjson: what the program uses of that library.
--   Columns     src/schema.h and src/schema.cpp: statistics of a field, and the type they select.
--   Fields      src/anonymize.h, src/anonymize.cpp and the tests on fields of src/stage.cpp.
--   Records     src/stage.cpp, process_json_record: statistics, dropping and sorting. The document that
--               the source changes in place is a value here that is taken and given back; a node is a
--               position in it, and values are overwritten by a pointer of rapidjson.
--   Table       src/schema.h and src/initutil.cpp.
--   Tuple       src/stage.cpp, writeTuple: one record as one row of COPY text.
--   Handler     src/stage.cpp, JSONHandler: the reader's calls are events, one step for each, and the
--               fields that change are a state. The state also holds what COPY has been given.
--   Paging      src/paging.cpp: whether a page has a record.
--   TextUtil    etymoncpp/src/util.cpp: trim, split and join.
--   Ident       src/addcolumns.cpp, valid_ident.
--   AddColumns  src/addcolumns.cpp, add_columns. DropFields: src/dropfields.cpp.
--   Anonymize   src/anonymize.cpp: the fields that are dropped when data are anonymized.
--   Merge       src/merge.cpp: the history tables. A table is the list of its rows, and the two
--               statements are functions on these lists; Merge.Statements has the texts that are sent.
--   Log         src/log.cpp: what a message prints and what it stores.
--   Options     src/options.h, src/options.cpp, and the check of the options in src/ldp.cpp.
--   Config      src/config.cpp: the settings, looked up in the parsed document.
--   Configure   src/ldp.cpp, config_options and the start of ldp_exec: the settings in the options.
--   Init        src/init.cpp: the version, the initialization and the upgrades. A connection is a
--               function from a state of the database and a statement to a state and rows.
--   Upgrades    src/dbup1.cpp: the 35 upgrades of a database, each the list of its statements.
--   DefaultSchema  src/schema.cpp, make_default_schema: the tables, in the order of an update.
--   Stage       src/stage.cpp, from read_page_count on: both passes over the pages of a table, the
--               columns that its statistics give, its loading table and its indexes.
--   Extract     src/extract.cpp: the extraction from the database of a source, and its files.
--   Users       src/users.cpp: the users of a file, and their privileges.
--   Update      src/update.cpp: the loop over the tables; StageMerge is stage_merge, ForeignKeys
--               the constraints that an update removes and makes again, Suggest the keys it suggests.
--   Commands    src/ldp.cpp: list-tables, list-privileges, and if a full update is due.
--   Server      src/ldp.cpp: the loop of the server and of the update commands, on fuel for its
--               passes, and the commands that initialize and upgrade.
--   Examples    the theorems at concrete inputs.
--
-- How they interact: Update extracts a table (Extract), whose files Stage reads in two passes: the
-- first one collects statistics and creates the loading table, the second one loads it. In both the
-- handler (Handler) hands each finished record to Records, and in the second its row to Tuple, which
-- uses Columns, DbType and Json. Update then merges the history (Merge) and puts the loading table in
-- the place of the table, in one transaction. Init runs statements made by Table and Util, and the
-- upgrades of Upgrades, and stores messages through Log; AddColumns, DropFields and Users read their
-- files with TextUtil.
--
-- The server is the state of a connection, and what is asked of it stands with the theorems: that the
-- statement for a version writes it, that a COPY takes what it is sent, and that between a BEGIN and
-- its COMMIT nothing is committed. Of rapidjson it is asked that a pointer sets a value that exists in
-- its place; the names of a record are then different in each object, without `/`, `~` or zero bytes.
--
-- Bounds. Counters of statistics and of lengths wrap at 2^32, as `unsigned int` does, and the theorem
-- on the selected type asks for fewer values than that. Counters of records are not wrapped: they are
-- 64 bits wide. Every loop of the model is structural on its text, list or value, but two, which take
-- fuel: for the one over the sources of the configuration, one more than there are sources is enough;
-- for the one of the server it is the number of passes, since a server runs on. The loop
-- of the upgrades runs as often as there are versions left, up to version 35.
--
-- Not modelled: rapidjson, libpq and getopt_long, which are parameters; files, sockets, processes and
-- signals; the printing of progress. Not modelled either: the requests over HTTP of src/extract.cpp,
-- which the update does not make; of src/update.cpp the worker of a parallel update, which is a forked
-- process, and the test for views; of src/ldp.cpp the choice of the command and the restart of the
-- server after an error; of src/config.cpp the constructor, which reads the file.
pub mod Base
pub mod CamelCase
pub mod DbType
pub mod DefaultSchema
pub mod JsonText
pub mod Util
pub mod Json
pub mod Columns
pub mod Fields
pub mod Records
pub mod Table
pub mod Tuple
pub mod Handler
pub mod Server
pub mod Stage
pub mod TextUtil
pub mod Ident
pub mod Paging
pub mod Merge
pub mod AddColumns
pub mod Anonymize
pub mod DropFields
pub mod Log
pub mod Options
pub mod Config
pub mod Configure
pub mod Init
pub mod Upgrades
pub mod Extract
pub mod Users
pub mod Update
pub mod Commands
pub mod Examples
