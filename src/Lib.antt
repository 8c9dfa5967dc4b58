-- ===== src/Lib.antt =====
-- tdrive: a drive whose files are stored as documents in a Telegram channel. A file is cut into
-- segments of a fixed size, each one document; an upload job records which segments have landed;
-- a download stitches the segments together again; quotas decide when a transfer may start.
--
-- The parts and the files that model them (Go paths from the root of the repository):
--   Base        names of the libraries passed on; Boolean tests, lists measured by native numbers,
--               Result for Go's (value, error), signed integers, slices and division lemmas.
--   Reader      internal/reader. Plan is plan.go (planRanges is plan_ranges); Chunk is chunk.go and
--               the chunkPlan of plan.go (ChunkSize, planChunks, newChunkReader, pump and Read are
--               chunk_size, plan_chunks, new_chunk_reader, pump and read); File is reader.go (Open,
--               openAt, Read and Seek are open_file, open_at, read_file and seek). File uses Chunk
--               for the window it has open; the state of a reader is passed on explicitly.
--   Upload      Geometry is SegmentSize of internal/drive/upload.go and SegmentCount of
--               internal/config/config.go; Mask is the bitset of internal/database/models.go;
--               Job is the upload_jobs row with the statements of internal/database/jobs.go. The
--               job keeps a mask, and its size and count come from the geometry.
--   Transfer    Quota is internal/drive/quota.go: the tracker, its reservations and the tests that
--               admit a transfer. Limiter is taskLimiter of internal/drive/limiter.go: newTaskLimiter,
--               setLimit, the two critical sections of acquire, release and dispatchLocked are
--               new_task_limiter, set_limit, enter, give_up, release and dispatch. Session is
--               downloadSession of the same file: AcquireDownloadSession is settle_session,
--               begin_join and finish_join, downloadRequestRelease is end_request and grace_over.
--               Lease is uploadJobLease (AcquireUploadJob is find_lease, settle_lease and
--               enter_lease; ReleaseUploadJob is release_upload_job).
--               Schedule is firstAccountForTransfer of internal/drive/schedule.go, over the quotas;
--               Schedule.Acquire is acquire of the same file over the limiters and the quotas, cut into
--               the sections between which other requests run (sync_limiter, choose, choose_again,
--               reserve_chosen), with newLease, its release function and trackTask (new_lease,
--               release_lease and track_task); its steps interleave any number of requests.
--   Names       Path is internal/drive/path.go (CleanPath, SplitPath, ValidateName, Join,
--               Parent and IsDescendant are clean_path, split_path, validate_name, join, parent and
--               is_descendant; a
--               path is its list of code points, and path.Clean is the standard library's documented
--               rule for rooted paths); Scope is internal/drive/scope.go (ScopeOf, ToReal, ToVisible,
--               Contains, Apply, ApplyAll and CheckQuota are scope_of, to_real, to_visible, contains,
--               apply, apply_all and check_quota; the sum of CheckQuota wraps as int64).
--   Access      Perms is internal/database/perms.go (PermsFromNames, PermNames, Effective and Can are
--               perms_from_names, perm_names, effective and can).
--   Api         Range is parseRange of internal/api/stream.go (parse_range).
--   Index       the rows that internal/database/tree.go keeps: Like is escapeLike and SQLite's LIKE (the
--               parameter of the statements), Tree the table dirs with InsertDir, RenameDir and MoveDir
--               (insert_dir, rename_dir and move_dir; relocate is the transaction of the last two),
--               Messages is SubtreeMessages and FileMessages.
--   Tags        internal/tagcodec/tagcodec.go: Words finds the tags of a caption (tagTokens), Caption is
--               assemble, Record is EncodeDir and EncodeFile (encode_dir, encode_file), Decode is Decode
--               (decode_caption; its loop is steps). Names is nameEnc of a name (encode_name, decode_name),
--               over Base32 and Utf8, which are those of the standard library. RoundTrip has the proofs
--               over all of them.
--   Rebuild     internal/indexer/indexer.go: Scan is scan and absorb over a channel's messages, Resolve is
--               buildTree without dedupePaths (place, recover and build_tree are its loops), Collisions
--               is dedupePaths (dedupe_paths), Files is buildFiles and dedupeFileNames (build_files and
--               dedupe_file_names), Run composes them as rebuild does (rebuild), and Channel states what a
--               channel says, with the captions that Tags writes. Ids are strings there, and numbers in
--               Upload, Index and Transfer, which only compare them.
-- Each component's module holds its definitions; its children hold the proofs, named for what they
-- prove, and a module Examples with the runs on concrete inputs.
--
-- Numbers. A Go int64 or int that a guard keeps at 0 or above is a natural number; one that a caller
-- may make negative is a ℤ of Base.Int. They are mathematical integers: sizes of files and offsets
-- stay far below 2^63, and the model does not show what happens beyond. A byte is a number below
-- 256, and the bit operations on it are the native ones. The generation counter of the quotas wraps
-- at 2^64.
--
-- Loops. plan_loop, pump, grow, all_set and unset_from recurse on the rounds left, which the source
-- computes too. halve has 11 rounds, and 1 MiB is 1 KiB after 10 halvings. rounds, the loop of
-- File.Read, has fuel; the theorems about it show that one round is enough.
--
-- Loops of captions. fit, the loop of assemble, has fuel: two rounds more than there are human tags,
-- and each round takes one away or is the last but one. decimal_onto has a round for each digit and more.
--
-- Loops of a rebuild. place has a pass, and recover a round, for each directory record and one more;
-- each pass but the last and each round but the last gives a record its row. numbered_free, the
-- loop that counts up a number behind a name, has as many tries as slots are taken, and one more.
--
-- Parameters. The classes of Unicode characters (Classes) are a record of functions and laws. LIKE
-- is a record of the operator and of the laws that SQLite documents.
-- The bytes of a stored segment come from a Source, an argument; the theorems assume
-- that it serves the stored bytes (Stores and Serves), which the examples instantiate. The usage of
-- a day that the database has stored is an argument of the quotas, and so are dates and clock
-- readings.
--
-- Concurrency. The chunk fetches publish into a queue of slots in index order; the model is that
-- queue. A transaction on a job row, and a call under the mutex of the quota tracker, is one step,
-- and step relations interleave the steps freely; a timer that fires is a step too. A request for an
-- account is cut at every lock, wait and select; its choice among the accounts, which locks the
-- tracker for each test, is one step, and so is a release of a lease.
--
-- Not modelled: the HTTP, WebDAV and plugin layers, the Telegram client, the SQL of the other
-- tables, and the user interface, which are glue or input and output; and, so far, the upload service
-- over its store and the download jobs.
pub mod Base
pub mod Reader
pub mod Rebuild
pub mod Upload
pub mod Transfer
pub mod Names
pub mod Access
pub mod Api
pub mod Index
pub mod Tags
