-- ===== src/Lib.antt =====
-- Verification of the cloud storage service (src/server) and of its asynchronous logger
-- (log_system/logs_code).
--
-- The program. A libevent server keeps uploaded files in one directory and a row for each file in
-- MySQL. `Service` routes a request to a handler; a handler checks the request, asks `DataManager`
-- (a table in memory over a `MetadataStore`), works on files through `FileUtil` and the C library,
-- and sends one reply. Everything is logged through `AsyncLogger`: producers push records into a
-- buffer, and a thread swaps it for an empty one and hands the bytes to the sinks.
--
-- The files.
--   Base                 shared names: Boolean tests, lists, byte strings, dictionaries; in Numerals
--                        `std::to_string`, `strtoul`, `strtoull` and `strtoll`
--   LogSystem/Buffer     AsyncBuffer.hpp: `Buffer` with `Push`, `ToBeEnough` (to_be_enough), `Swap`
--   LogSystem/Worker     AsyncWorker.hpp: `Push`, `Stop` and `ThreadEntry` as a step relation, and
--                        `RealFlush` of AsyncLogger.hpp
--   LogSystem/Roll       LogFlush.hpp `RollFileFlush`: `Flush`, `InitLogFile`, `CleanOldLogFiles`
--   LogSystem/Pool       ThreadPoll.hpp: `enqueue`, the workers and the destructor as a step relation
--   LogSystem/Front      Level.hpp, Message.hpp `format`, Manager.hpp, and in AsyncLogger.hpp the
--                        calls that log (log), `serialize` and `LoggerBuilder`
--   Storage/Url          Util.hpp `UrlDecode`, HttpUtil.hpp `UrlEncodePathSegment` (url_encode)
--   Storage/Html         HttpUtil.hpp `HtmlEscape`
--   Storage/FileName     HttpUtil.hpp `IsSafeFileName`, Util.hpp `FileName`
--   Storage/ContentType  HttpUtil.hpp `NormalizeContentType`
--   Storage/Path         MultipartUploadHandler.hpp `SessionDir`, `MetaPath`, `ChunkPath`, and which
--                        file a path text names (resolve)
--   Storage/Disk         Util.hpp `FileUtil`, `std::remove`, `std::rename`, `fs::remove_all`, and
--                        HttpUtil.hpp `WriteFileAtomically`
--   Storage/Meta         MetadataStore.hpp, DataManager.hpp (insert_info, update_info, delete_info,
--                        get_info are Insert, Update, Delete, GetOneByURL)
--   Storage/Http         HttpUtil.hpp `HttpResult`, Config.hpp, StorageInfo.hpp `NewStorageInfo`
--   Storage/Backed       the invariant that ties files and rows together
--   Storage/Upload       UploadHandler.hpp `Handle` (handle_upload)
--   Storage/Delete       DeleteHandler.hpp `Handle` (handle_delete)
--   Storage/Download     DownloadHandler.hpp `Handle` (handle_download)
--   Storage/Session      MultipartUploadHandler.hpp: sessions saved, loaded, found and cleaned up
--   Storage/Multipart    MultipartUploadHandler.hpp: `Init`, `Status`, `Chunk`, `Abort`,
--                        `FinalizeFile`
--   Storage/Merge        MultipartUploadHandler.hpp `MergeChunks` with its loops over read and write
--   Storage/Complete     MultipartUploadHandler.hpp `Complete`
--   Storage/Multipart/Headers  MultipartUploadHandler.hpp `HeaderSize`, `QueryParam`, `ReadBody`
--   Storage/Query        ListHandler.hpp `ParseListQuery`, PageRender.hpp `BuildPageLink`
--   Storage/Mysql        MysqlMetadataStore.hpp: the SQL texts (Text), the rows (fill_info), and
--                        every operation over a client library (query_list is `QueryList`)
--   Storage/Page         PageRender.hpp `GenerateModernFileList`, `FormatSize`, `TimeToStr`
--   Storage/Listing      ListHandler.hpp `Handle` (handle_list)
--   Storage/Dispatch     Service.hpp `Dispatch`, and `LogAccess` as the line it is called with
--   Storage/Sample       the small service that the runs use
--
-- State and failure. A `Service` is a disk and a manager; a handler is a function from a request
-- and a service to a result and a service. The disk carries an oracle that says what its `n`-th
-- fallible call comes to (success, or failure after `k` bytes), so a theorem over all disks
-- covers every pattern of failures. A store is any implementation of `MetadataStore` with the
-- laws of Storage/Meta/Store: a method that reports failure has changed no row, one that reports
-- success has done what its name says, and a lookup may fail at any time; Storage/Meta/Memory
-- meets them. Keys are compared byte by byte, as a collation that tells all texts apart compares
-- them; the one that scripts/setup_mysql.sh chooses does not. Handlers run one after the other,
-- as the one event loop runs them. The log directory of `RollFileFlush` is a list of files, and
-- a `World` says for each call whether it works, and how much of a write reaches the file. The
-- threads of `ThreadPool` move one at a time, a critical section being one step.
-- `NewStorageInfo`'s failure and a failed `Insert` are one test, as in the code.
--
-- Numbers. `size_t` is a natural number, with `% 2 ^ 64` written out wherever the code's sums or
-- differences can wrap around, and `int` as the low 32 bits with their sign. Fuel: the loop over
-- `write` has as much as there are bytes and the loop over `read` one more, since each round
-- moves at least one byte; `%06zu` has the 20 digits of a `size_t`. The sizes on the page are
-- doubles, as a rounded number of units; `strtoul` and `strtoull` keep what they do on a sign
-- and on overflow.
--
-- Parameters: the MySQL client library (escaping, sending of statements and the rows that come
-- back, with what a server answers as a hypothesis of the theorems on pages), `ctime`, the local
-- time, what `vasprintf` makes of a format, the order in which `std::sort` leaves files of one
-- second, base64_decode and the JSON library (fields of `Env`), the store, the clock (`Times`) and
-- what libevent has parsed of a request (fields of the request records).
--
-- Paths. A path text is read component by component, and `..` goes up by one. `fs::remove_all` by a
-- path that goes through a directory and back needs that directory, and may lose its way when it
-- takes it away: the disk says which entries it still reaches (`sweeps`). The other calls by such a
-- path, which only an identifier of two dots makes, find the file without asking for the directory.
--
-- Not modelled. Directories that are emptied by `std::remove`, symbolic links, permissions, and a
-- process that ends in the middle of a request; `fs::create_directories` and `fs::remove_all` that
-- throw, which ends the process; lost wakeups of the condition variables, since a step relation
-- lets any producer or thread run whose condition holds; the settings of a MySQL connection and
-- `mysql_init` without a result; `fflush` and `fsync` of a log file, and the other two sinks, which
-- pass bytes on; the futures of tasks; which texts the handlers log; the bodies of replies but for
-- the list page and a download, and the headers but for those of a download.
pub mod Base
pub mod LogSystem
pub mod Storage
