-- ===== src/Lib.antt =====
-- AnimeManager: a verification library for the playback, download, automatic download, catalogue,
-- ingestion and transcoder code.
--
-- The program keeps a catalogue of anime, downloads their episodes with a torrent client and plays
-- them in a browser. Playback (application/playback) opens HLS sessions, starts ffmpeg for them
-- and serves playlists and segments. Downloads (application/services/download_manager.py) queues
-- torrents and hands them to workers; the automatic download
-- (application/services/auto_download_service.py and auto_download_matching.py) picks the next
-- episodes and calls it. The catalogue (domain/catalog.py,
-- adapters/persistence/catalog_repository.py) joins the rows of several metadata providers.
-- Ingestion (application/services/ingestion_pipeline.py) searches the providers and drops
-- duplicates, and the persistence queue (adapters/persistence/queue.py) writes records in batches.
-- The transcoder (adapters/media/ffmpeg_transcoder.py) keeps the encoders that playback asks for.
--
-- Base holds what the parts share: Base.Tests the Boolean tests on numbers, Base.Lists and
-- Base.Dict lists, dictionaries and sets, Base.Text texts as lists of code points with strip,
-- lower, split and int, Base.Int the integers, Base.Division the windows of a division.
--
-- Playback.Contract is playback/contract.py and the session of application/dto/media_streaming.py.
-- Playback.Resume is resume.py, Playback.Playlist is playlist.py, Playback.Segments is
-- segment_resolver.py with the restart of service.py, Playback.Tokens is session_store.py,
-- Playback.Service and Playback.Create are service.py: cleanup, heartbeat, stop and artifacts in
-- the former, create_session in the latter. Playback.Requests runs any sequence of them. Times are
-- whole milliseconds. Calls of ffmpeg and writes of files are effects in the result; looks at the
-- disk, the encoder and what other threads do meanwhile are arguments, so a theorem covers
-- whatever they answer. The keyed digest of the tokens is a parameter. wait_for_file recurses over
-- the turns of its polling loop.
--
-- Downloads.Hashes is canonicalize_infohash of adapters/persistence/models.py and the hash helpers
-- of the download manager, with the base32 decoder as a parameter; Downloads.Status the states and
-- statuses of torrents; Downloads.Manager the queue, the sets of hashes and the table of active
-- downloads. A task object is its number in the list of all tasks, because the queue, a worker and
-- the table share it. A worker's place in _execute_download is the phase of its task, and every
-- function is what one thread does without another in between; Downloads.Manager.Requests runs any
-- sequence of these steps, and Downloads.Tests some concrete ones.
--
-- AutoDownload.Matching is auto_download_matching.py, with the parser of release names as a
-- parameter, and AutoDownload.Catchup is process_anime; its loop recurses on the turns left, of
-- which there are five as in the code.
--
-- Catalog.Ids is domain/catalog.py, Catalog.Tables the statements that a merge runs on a table,
-- and Catalog.Merge the merge of two ids. Catalog.Index is CatalogIndexRepository,
-- Catalog.Identity application/services/catalog_identity.py, which resolves external ids to one
-- row, and Catalog.Batch its batches. Tables are lists of rows, and the statements are taken to
-- succeed; the id that the database gives to a new row is an argument.
--
-- Ingestion.Payload is the payload and its fingerprint of shared/contracts.py; Ingestion.Dedupe,
-- Ingestion.Workers, Ingestion.Run and Ingestion.Run.Stream are
-- application/services/ingestion_pipeline.py. What a provider yields, its looks at the clock, the
-- order in which the workers finish and what the sink answers are arguments. Limits are numbers
-- that are not negative.
--
-- PersistenceQueue is adapters/persistence/queue.py as a step function over the threads' accesses
-- to the queue; the flush callable is a parameter, known by the calls in which it raises.
--
-- Transcoder is the pool of encoders of adapters/media/ffmpeg_transcoder.py, with the check for
-- the tools as an observation; the loop that evicts encoders recurses on the number of those in
-- the pool, since each turn removes one.
--
-- Not modelled: the folders and files of downloads, the union of records that share external ids,
-- the command lines and probes of the transcoder, the providers, the torrent clients, the database
-- adapters and the front ends; most of these are input and output around services outside the
-- repository.
pub mod Base
pub mod Playback
pub mod Downloads
pub mod AutoDownload
pub mod Catalog
pub mod Ingestion
pub mod PersistenceQueue
pub mod Transcoder
