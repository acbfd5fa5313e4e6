-- ===== src/Lib.antt =====
-- Verification of gitdr, the backup tool for git hosts (the Go program of this repository).
--
-- A run lists a host's repositories, bundles each one that has changed, writes the artifacts under
-- object lock, and signs a manifest of what it wrote. Later runs, restores and drills trust those
-- manifests and nothing else: they decide what may be skipped, what a stored object is, and what a
-- restored repository has to hold.
--
-- Common holds what the models share: bytes, maps, sorting, paths, dates, machine integers.
-- Pipeline/ follows internal/pipeline: Manifest (manifest.go) is the data of a manifest, Manifests
-- (manifests.go) where it is filed and how it is read back, Recorded (recorded.go) the search for
-- the manifest that records a copy, Unchanged (unchanged.go) the decision to skip a repository, and
-- Refs (refs.go) the comparison of a restored repository with what its bundle declares. Of
-- backup.go, Resume is the rerun of a date (resumed), and Retention the lock window, the preflight
-- and what a run observes of its own objects; CopiedRefs (copiedrefs.go) holds a clone and its
-- bundle to their refs; Verify (verify.go) reads a manifest's artifacts back, in whatever order the
-- reads finish; Previous (previous.go) is what a run takes over from earlier manifests. FanOut
-- (fanOut) is how the repositories of a run are copied at once, as a step relation, since its
-- goroutines, the stop and the end of its wait come in any order; BackupOne (backupOne) is what is
-- decided for one repository, Copy (backupRepo) its copy, Upload the staging and the uploads, and
-- Attempts what is tried again (retry, fetchLFS). RestoreChecks and Restore (restore.go) are what a
-- restore is held to and the restore itself, and Drill (drill.go) is the drill that restores what a
-- manifest records. Run (run) is a whole run of a backup, from its preflight to its manifest. They
-- meet as the program's parts do: Run calls Retention and Previous and takes what fanOut makes of
-- its repositories as a function, which FanOut is the model of; Resume and Previous read manifests
-- through Manifests, Resume by the search of Recorded, and the decision of Unchanged goes by the
-- window of Retention; BackupOne calls Resume, Unchanged and Copy, Copy calls CopiedRefs, Upload
-- and Attempts, Restore reads through Manifests and Recorded and compares by Refs, and Drill calls
-- Restore. Crypto/Encrypt follows internal/crypto/encrypt.go, the chunked envelope. Dest/ follows
-- the readers of internal/dest: Limit (limit.go) and Exact (s3/exact.go), over any stream that
-- keeps to io.Reader. Config follows internal/config/config.go, what a configuration is refused
-- for. Source/RateLimit follows internal/source/github/ratelimit.go, what a request waits for and
-- what a run may spend on it. A module's children prove its theorems. Samples/ runs the models on
-- concrete inputs.
--
-- A text is the list of its bytes; letters, digits and spaces are the ASCII ones. An instant is
-- its nanoseconds since the first of January of year 1, in UTC, in years before 10000; a duration
-- is an integer of 64 bits, where a product may wrap. A Go map is an association list in the order
-- in which a range visits it, with no key twice; nil and empty maps and slices are one value. An
-- error is the value behind its message, and log lines are left out.
--
-- The destination is a pair of functions that list and read (Store), base64, Ed25519 and the JSON
-- decoder are functions too (Codecs); nothing is assumed of them but what a theorem states.
-- `manifestSearchDirs` climbs on fuel: each round drops a byte of the namespace, so its length is
-- enough, and the theorem about the search needs every directory it gives. The chunk loops of the
-- envelope run on fuel one above the length of their text, of which each round takes a byte; the
-- round trip shows that to be enough. A cipher is a pair of functions, with its documented laws as
-- a hypothesis of the round trip. The loop of `fetchLFS` runs on fuel, and its theorem gives how
-- much is enough; that of `call` runs on fuel 9, which its theorem shows to be enough. What git,
-- git-lfs, the disk, the clocks and the context answer comes as values, in the order in which the
-- code asks, or by the number of the attempt; an answer is any.
--
-- Not modelled: the command line, the network clients, the file system, git itself, and the tools
-- under scale/, which hold no decision of the program's own; nor the wiring of a run (Backup), its
-- contexts and its destination block, verify's reading of drill reports, and the redirect rules of
-- a source.
pub mod Common
pub mod Config
pub mod Crypto
pub mod Dest
pub mod Pipeline
pub mod Samples
pub mod Source
