-- ===== src/Lib.antt =====
-- Cartolensia's core, modelled from the Go packages under internal/.
--
-- The program catalogues media files. A worker loop takes jobs from a queue and runs their handlers; a
-- handler finds files, hashes them and writes what it learns into the catalog; the server lets a
-- request through if the authentication knows who sent it and allows the action.
--
-- Prelude.antt passes on the shared names: native numbers, Boolean tests, lists, the equality of keys
-- (Prelude/Keys), and Go's maps as association lists (Prelude/Dict), whose order stands for the order
-- in which `range` visits a map. Texts.antt models the functions of Go's `strings` package that the code
-- calls, on ASCII texts as lists of bytes.
--
-- Failure.antt models Go's error values and the retry policy of internal/jobs/jobs.go, Jobs.antt
-- the job record and its operations (same file), Queue.antt the job queue of MemoryStore in
-- internal/catalog/catalog.go (enqueue_job is EnqueueJob, lease_next_job is LeaseNextJob, and so
-- on), and Workers.antt the loop of internal/workers/workers.go that drives it. Catalog.antt
-- models the assets of the same MemoryStore: discovery, hashing, metadata, and in its children
-- links (Links), statistics (Stats), explorer paths (Paths) and pages (Paging, of
-- extended_store.go). Auth.antt models internal/auth: Scopes is Authorize, Store is memory.go,
-- Service is the local service of auth.go. Plugins.antt models the manifests of
-- internal/plugins/plugins.go and their order.
--
-- Storage.antt models internal/storage/storage.go: Registry is the registry of storages, RelativePath
-- is NormalizeRelativePath (with the explorer's normalizeExplorerPath of catalog.go), Patterns the
-- extensions and patterns that a walk includes and excludes, Kinds is MediaKind, and Walk the file
-- workers of WalkRecursiveBounded, whose locked parts are steps, so that a schedule is an interleaving;
-- of its folder workers only the calls of addSkipped are such steps.
-- Albums.antt models the albums and positions of internal/catalog/extended_store.go: Tree is DeleteAlbum,
-- Items is AddAlbumItems and RemoveAlbumItem, Positions is UpsertAssetGeo, Slugs is slugify, and Steps
-- their steps as a relation. Discovery.antt models the hash jobs of internal/discovery/discovery.go on top
-- of the queue, the catalog and the storages: Targets is the choice of targets and ValidateHashSafety,
-- Hashing the loop of HashUnhashed.
--
-- Transcoding.antt models the presets of internal/server/transcode_sessions.go: Parameters are the
-- sanitised numbers and rates, Presets the built-in presets, Devices the choice of a render device,
-- Arguments the command line of ffmpeg, Validation is validateTranscodingPreset, and Profiles is
-- hlsArgsForProfile. Server.antt models handlers of internal/server/server.go: Access is requireWrite,
-- JobCalls is handleJobByID on the queue, Logs is paginateLogs, JobList is filterJobs and Stats is
-- buildJobStats, and Presets the handlers of transcoding presets. Enrichment.antt models the runner of internal/metadata/metadata.go, on the queue and the
-- catalog: Scopes is the choice of assets, Loops is Enrich. Previews.antt models Cleanup of
-- internal/preview/preview.go, and Archives.antt the unpacking of archives in internal/server/components.go.
--
-- A method of a store is a function from the store to its result and the store that is left, since the
-- lock of the store makes a method one step. Clocks and fresh identifiers are arguments. Times,
-- durations in nanoseconds, sizes and counts are natural numbers and do not overflow in the ranges that
-- the program uses; the payload of a job and the values of metadata are opaque texts. Identifiers that
-- the code only compares are strings. The digest, its encoding and the password hash come from Go's
-- libraries, and are the parameter Crypto of the authentication; the sorting of texts is a parameter of
-- the order of plugins. Resolving the root of a storage, matching a glob (path.Match), what Stat answers
-- for a file, what the callback of a walk answers, and what reading a file gives are parameters too, as is
-- the path of an absolute prefix below a root, what transcoding.Detect finds on a machine, the sorting of
-- jobs and of cache entries (sort.Slice), the reading of a part of a URL as a string, the pages of
-- QueryAssets, and what extracting the metadata of a file and removing a file come to. Paths are Unix paths.
--
-- Four definitions run on fuel. dispatch_available spends one unit for each job that it takes, so the
-- number of free slots is enough when there are handlers. visit spends one unit for each manifest on the
-- way to a dependency, and sort gives it one more than there are manifests. delete_album_tree spends one
-- unit for each album on the way down a tree, so one more than the height of the album is enough; albums
-- may form a cycle, where no fuel is enough, as the recursion of the code has no end. enrich_queried
-- spends one unit for each page, and a page that is not the last has an asset.
--
-- Not modelled are the PostgreSQL store and most of the HTTP server, which are SQL, routing and JSON; the
-- rest of the in-memory catalog, such as tags, places and predictions; the parsing of tracks and images;
-- what else the folder workers of a walk do and safePath, which read the file system; discovery scans, the making of
-- previews and the processes of a transcoding; and the goroutines of the worker, whose calls are requests to the queue.
pub mod Prelude
pub mod Texts
pub mod Failure
pub mod Jobs
pub mod Queue
pub mod Auth
pub mod Catalog
pub mod Workers
pub mod Plugins
pub mod Storage
pub mod Albums
pub mod Discovery
pub mod Transcoding
pub mod Server
pub mod Previews
pub mod Enrichment
pub mod Archives
