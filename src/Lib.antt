-- ===== src/Lib.antt =====
-- Librova, an e-book library: its native core under libs/, as executable definitions with theorems.
--
-- The user interface talks to the core process over a named pipe; the core decodes a request, and
-- for an import starts a job, which a worker thread runs. The job's sources are parsed, their texts
-- normalised, books that need it converted, and the results written through one writer thread that
-- batches the inserts. A cancelled import is rolled back. The parts that are modelled here:
--
--   Pipe        libs/Transport/PipeProtocol: `serialize_request` is SerializeRequestEnvelope,
--               `deserialize_request` is DeserializeRequestEnvelope, and likewise for responses.
--   Text.Utf8   libs/Foundation/UnicodeConversion.cpp: `is_valid_utf8` is IsValidUtf8.
--   Text        libs/Domain/MetadataNormalization.cpp: `normalize_text`, `normalize_isbn` and
--               `build_duplicate_key` are NormalizeText, NormalizeIsbn and BuildDuplicateKey, on the
--               code points of Text.CodePoint (TryDecodeUtf8CodePoint, AppendUtf8CodePoint).
--   Jobs        libs/App/ImportJobManager: the table of jobs; `start`, `cancel`, `remove` and the
--               lookups are the methods, `publish_snapshot` and `finish` what a worker thread does.
--               Jobs.Steps has the interleavings of clients and workers.
--   Runner      libs/App/ImportJobRunner: `run_job` is Run, `try_map_error` is TryMapError; the state of
--               the progress sink is its snapshot and what it has published.
--   Facade      libs/App/LibraryImportFacade: `run_import` is Run. Facade.Tally is what it counts and
--               collects, Facade.Run the imports of files, Facade.Run.Whole the loop and the end.
--   Importing   libs/Import/SingleFileImportCoordinator: `run` is Run, as steps over the locals that its
--               lambdas and its handler share; Importing.Services are the services it calls.
--   Trash       libs/App/LibraryTrashFacade: `move_book_to_trash` is MoveBookToTrash. Trash.Service
--               is the choice of a name in libs/Storage/ManagedTrashService.cpp; its 999 rounds are fuel.
--   Storage     libs/Storage/ManagedFileStorage: `commit_import` is CommitImport, `rollback_import` is
--               RollbackImport. Importing calls them through its ManagedStorage interface.
--   Conversion  libs/Import/ImportConversionPolicy: PlanImportConversion, ResolveImportConversion.
--   Planning    libs/App/ImportWorkloadPlanner: `prepare` is Prepare, which counts the entries of an
--               import before it starts; Progress maps each source into that total.
--   Progress    libs/App/StructuredProgressMapper: `map_percent` is MapPercent.
--   Writer      libs/Import/WriterDispatchingRepository: the state that the mutex guards, with the
--               threads as steps on it in Writer.Steps (`submit`, `writer_step`, `drain`).
--   Catalog     libs/Domain/BookRepository.cpp: what IBookRepository implements itself (ReserveIds,
--               AddBatch, RemoveBatch). AddBatch is what the writer thread calls.
--   Rollback    libs/App/ImportRollbackService.cpp: RollbackImportedBooks, its three phases in
--               Rollback.Phases. RemoveBatch and Remove are what its second phase calls.
--   Base        names, lists, tests and fallible results that the parts share.
--
-- Representation. Bytes and texts of the pipe and of the metadata are lists of numbers below 256,
-- other texts are native strings, paths are texts. Fixed-width numbers are natural numbers with the
-- bound stated where it matters. An exception, or a returned error text, is `err` of
-- Base.Outcome. A block under a mutex is one step, and so is the
-- exception handler of the writer thread from its lock to the answers of the queue that it took.
--
-- Bounds and fuel. Reading a text consumes at least one byte per round, so the length of the rest of
-- the text is enough fuel where a loop is written on fuel. `run n` lets the writer thread take `n`
-- steps; `steps_left`, at most twice the length of the queue and two more, is enough for it to
-- return after Drain. A batch has at most 50 books (MaxBatchSize). The progress of an import is
-- computed without overflow of 64 bits for counts below 2 ^ 48.
--
-- Not modelled. The catalog behind Writer, Catalog and Rollback (SQLite), the cleanup of files and
-- directories that Rollback calls, the converter process and its answers, and the clock are
-- parameters; the laws that a theorem needs of them are its hypotheses. Logs and performance counters
-- are left out. The thread pool of Facade is a parameter too: its tasks may end in any order. The parsers
-- of EPUB and FB2, the reading of archives, the named-pipe calls, the mapping of protobuf messages, the
-- preparation of managed storage, the database and the user interface have no model.
pub mod Base
pub mod Catalog
pub mod Facade
pub mod Importing
pub mod Jobs
pub mod Pipe
pub mod Runner
pub mod Text
pub mod Storage
pub mod Trash
pub mod Writer
pub mod Conversion
pub mod Planning
pub mod Progress
pub mod Rollback
