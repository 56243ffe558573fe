-- ===== src/Lib.antt =====
-- binpass is a password store whose entries are encrypted files. It synchronises the store between
-- devices over a transport, keeps one-time passwords in its entries, and serves the entries of a store
-- through the freedesktop Secret Service.
--
-- Parts, and the files here that model them:
--   Prelude, Text: bytes of Go strings, Go maps as association lists, a value or an error, and the
--     operations of strings and strconv that the program uses. Numbers are natural numbers; a 64-bit
--     word wraps around where the source's does.
--   Secret: pkg/secret/secret.go, the text of an entry: its first line is the password.
--   Otp, Otp.Code: pkg/otp/otp.go, one-time passwords from otpauth URIs.
--   Paths: CheckPath of pkg/remote/remote.go and rel of pkg/storage/fs.go, with path.Clean.
--   Sync.Version: pkg/sync/version.go, version vectors, against the causal order of histories.
--   Sync.State: pkg/sync/state.go, the state of a file and of a store.
--   Sync.Scan: pkg/sync/scan.go, which files a scan takes up and the version that each is given. The
--     directory tree is data.
--   Sync.Merge, Sync.Hotp: pkg/sync/merge.go, the decision for a file (merge_file for mergeFile) and
--     the plan for a store (merge for Merge).
--   Sync.ConflictName: ConflictName of pkg/sync/merge.go and conflictToOriginal of
--     internal/cli/conflicts.go.
--   Sync.StateDb: pkg/sync/statedb.go, the base snapshot and the write-ahead log.
--   Sync.Fsck: pkg/sync/fsck.go, the check of a store against its state database.
--   Sync.Run: internal/cli/sync.go, the versions that a remote listing is given and what the actions of
--     a plan do to the disk, the transport and the database (apply_actions for applyActions).
--   SecretService.Policy, SecretService.Index, SecretService.Item: pkg/secretservice, who may read an
--     item, the index by which items are found, and the entry that an item is written as (to_secret for
--     ToSecret).
--   SecretService.Store: pkg/secretservice/store.go, the items in a password store with the index beside
--     them (search, create_item, delete_item and reindex for Search, CreateItem, DeleteItem and Reindex).
--     SecretService.Store.Files gives it the store of files.
--   Importer, Importer.Write: importer.go, convert.go, path.go and export.go of pkg/importer, what the
--     entries of another program become and the names that they get (write_entries for WriteEntries,
--     plan for Plan, normalize_path for NormalizePath).
--   Sync.Resolve: runConflictsResolve of internal/cli/conflicts.go over a store.
--   Crypto: pkg/crypto/recipients.go, the files that list recipients. A walk has a round for each byte of
--     the directory's path and two more.
--   Audit, Audit.Findings, Audit.Expiry: pkg/audit, the audit of passwords (report_of for Run behind the
--     decryption).
--   Pwgen: pkg/pwgen, character sets and generated passwords.
--   Storage, Store, Store.Transfer, Store.Listing: pkg/storage/fs.go, pkg/store/store.go and pkg/store/transfer.go, the
--     entries of a store (get for Get, set for Set, transfer for Move and Copy). A disk is a map from
--     paths, relative to the store, to contents; a backend is a record of operations, and IsSound says
--     that it decrypts what it has encrypted.
--   Plugin.Manifest, Plugin.Glob, Plugin.Grant, Plugin.Guard, Plugin.Runtime: manifest.go, glob.go,
--     lock.go, guard.go and runtime.go of pkg/plugin, what a plugin requests, what the user has approved
--     (check for Check), and the guard that a command consults, which a nested binpass takes from its
--     environment (app_guard for Guard of internal/cli/app.go).
--   Plugin.Dispatch: dispatch.go and discover.go of pkg/plugin, which plugin a command runs (resolve for
--     Resolve, find for Find, discover for Discover). The directories of plugins and of PATH are given
--     as what they hold.
--   Tomb.Tree, Tomb.Backends, Tomb.State, Tomb.Coffin, Tomb.Coffin.Run: coffin.go and tomb.go of
--     pkg/tomb, a store that is packed into one archive (write_tar for writeTar, shred_folder for
--     shredDir, close for Close). A directory is a tree of files, links and directories.
--   Tests: runs on small inputs.
--
-- How they interact: a run scans the store into a snapshot, lists the transport into another one,
-- loads the base, merges the three into a plan and carries the plan out, one action after the other.
-- A step of that run is a function of the disk, the transport and the database, which are records of
-- operations; a step gives the world that it leaves behind and its error, if there is one. An error
-- undoes nothing.
--
-- Parameters: the blake3 digest, HMAC, base32, base64, the URL parser, JSON and the conversions from
-- floats are third-party code or the Go library's, and stand as functions in the definitions that use
-- them. So do the transport, the disk and the buckets of the state database, with the laws that
-- theorems use in the records IsDisk and IsBucket. What the cursor of a bucket visits while keys are
-- deleted under it is a parameter too (visited), since bbolt does not fix it; that it misses no such
-- key is the hypothesis Steady of the theorem on the saved base. Parameters are also the crypto
-- backends, with IsSound; the environment of a process, with IsGetenv; the encryption of an archive;
-- and the tests whether a process has ended and what a symbolic link points to. The order in which Go
-- visits a map is the order of the list, and what a plan is does not depend on it.
--
-- Bounds and fuel: all loops are structural recursion, but for the walk to the recipients and the
-- expansion of a character set, which have fuel and are shown to have enough of it, and for the walks
-- over white space (trim_front, collapsed), which have a round for each byte, of which each round takes
-- one at least. The decimal text of a number has room for the 20
-- digits of a 64-bit word. An access time is a number of nanoseconds.
--
-- Not modelled: the transports, the terminal interface, the crypto backends, the
-- readers of foreign formats, the processes of plugins and the command line but for internal/cli/sync.go,
-- internal/cli/conflicts.go and Guard of internal/cli/app.go are calls of the operating system and of
-- external programs, or glue. Of the containers, LUKS and sparse bundles are such calls; of the archive,
-- its extraction and the errors of the file system are left out.
pub mod Audit
pub mod Crypto
pub mod Importer
pub mod Otp
pub mod Paths
pub mod Plugin
pub mod Prelude
pub mod Pwgen
pub mod Secret
pub mod SecretService
pub mod Storage
pub mod Store
pub mod Sync
pub mod Tests
pub mod Text
pub mod Tomb
