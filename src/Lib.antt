-- ===== src/Lib.antt =====
-- ZephyrFTP: a verification library for the core of the file transfer client (C++ and Qt).
--
-- The program shows two panes, each over a backend: the local file system, SFTP or FTP. Files that are
-- dragged from one pane to the other become items of one transfer queue (src/transfer), which claims
-- connections of the panes for as many items as can run at once, asks what to do about files that
-- exist, stages transfers between two servers through a temporary file, and survives a restart.
--
-- The parts and where they stand:
--
-- - Queue: TransferManager (src/transfer/TransferManager.h and .cpp). Queue/Item is TransferItem.h, the
--   record of a row. Queue/State is the members of the class, with the panes and backends that it
--   refers to, the conflict dialog that is open, and the effects that it has on others as a log.
--   Queue/Lookup has requiredBackendsForDispatch, isBackendClaimed, the indices, releaseActiveTransfer
--   and the temporary paths; Queue/Execute has dispatchActiveItem and Queue/Dispatch startNext;
--   Queue/Enqueue has the operations that add items and folders; Queue/Controls cancel, retry, pause,
--   resume and clear;
--   Queue/Replies onDestinationExistsChecked, askConflict and drainDeferredExistsChecks; Queue/Signals
--   the slots for progress, completion, failure, pause and moves; Queue/Persist saveQueueForShutdown,
--   restorePersistedQueue and tryReclaimPendingItems. Queue/Events joins them: whatever happens to the
--   queue is an event, and a state is reachable if a fresh queue comes to it by events in any order.
-- - Queue/Panes: the pool of connections of ui/FilePaneWidget.cpp (under src).
-- - Queue/Store: src/transfer/TransferQueueStore.cpp, over the JSON values of Json.
-- - Queue/Claims: who holds which connection, item and destination. Its invariant is kept by each
--   operation (Scanning, Adding, Cancelling, Controlling, Answering, Signalling, Moved, Restoring) and
--   so by every event (Stepping); Reached draws the conclusions.
-- - Queue/Rows: the rows, the scan floor and the ids. Closed names the changes that the operations make
--   to them; a predicate that these keep is kept by every event (Scans, Operations, Replies, Signals),
--   and Floor and Ids are two such predicates. Whole compares the scan from the floor with one of all
--   rows.
-- - Queue/Fuel, Queue/Restart, Queue/Continued, Queue/Resume, Queue/Keys and Queue/Pools: termination of
--   the scan, the restart of the program and what goes on after it, what keys and identities tell apart, and the pool.
-- - Verify: src/transfer/ChecksumVerifier.cpp, over the queue as it is modelled here: what the queue emits
--   during a call is delivered to the verifier. Operations has the slots; Counting, Accounts and Answers
--   count what has begun and what was answered; Crashed shows that no operation clears the mark of a
--   dangling iterator; Verdicts has the reports.
-- - Folders: src/transfer/FolderEnumerator.cpp, as a state machine over the replies of a backend. Located
--   says where the directories lie and Listings which of them are listed; Served is a server with a search
--   of it, breadth first, with which Discovered compares the results.
-- - Compare: src/compare/DirectoryComparer.cpp and CompareSyncExecutor.cpp, the comparison of two
--   listings and what is copied and deleted after it.
-- - Sites: src/backends/ConnectionHistory.cpp, SavedSite.cpp and ConnectionRequest.h. History and Store
--   are the two stores over JSON values; Latest, Recent, Stored and Unique have what they keep.
-- - Ftp: src/backends/FtpBackend.cpp. Reply is readReply, over the lines that arrive; Address is the reply
--   to PASV and the PORT command; Mlsd is parseMlsdLine. QString::toInt and trimmed and the calendar of
--   QDateTime are parameters (Qt), and so is std::sort in Compare.
-- - Script: src/cli/ScriptParser.cpp, the language of the command line. Tokens is tokenizeLine, its loops
--   as places in one pass over the line; Commands is the table of commands and parseScript.
-- - Runner: src/cli/ScriptRunner.cpp, which runs a script over the two panes and the queue. State has the
--   functions that are connected to signals as data, each with what it captures; Operations has the
--   commands, Signals what a signal does to the connections. Orderly is what holds between two signals,
--   kept by the commands (Commands, Execution) and by every signal (Outcome); Barriers and Hangs are about
--   what mirror, ls and lls wait for. The signals arrive in any order.
-- - Backends and Paths: src/backends/Protocol.h, ConnectionDescriptor.h, the identities of the backends,
--   and src/PathUtils.h.
-- - Base: lists over native numbers, association lists for QHash, texts for QString.
--
-- How the code is read. A pointer to a pane or a backend is a number, null is `none`; a pointer to a
-- pane that the code dereferences without a test sets `crashed` where it is null, since the program has
-- no defined behaviour from there on. A reference into m_items is an index, a write through it replaces
-- the element. A call that is queued to a backend and a signal that is emitted are entries of a log;
-- the replies are events. The conflict dialog runs an event loop of its own: the handlers that wait
-- below it are frames, and are run when the dialog is answered. What a pool's factory delivers, and
-- whether a sample of the speed is due, are given from outside.
--
-- Fuel: startNext calls itself through dispatchActiveItem after an item could not be dispatched. The
-- model counts these calls down from the number of items, and start_next_recursion shows that the count
-- never runs out.
--
-- Not modelled: the displayed speed, the texts of dialogs, connections of signals, the replacement of a
-- pane's backend while the queue refers to it, sockets and files; the user interface, but for the pool of
-- a pane; the dialogues of commands with an FTP server and its LIST lines, which regular expressions
-- read; SFTP and TLS, which are calls of libssh2 and OpenSSL; the local backend and the credential store,
-- which are calls of Qt and of the system; proxies, the limit of the bandwidth, quick connect, settings
-- and updates.
mod Base
pub mod Paths
pub mod Json
pub mod Backends
pub mod Verify
pub mod Runner
pub mod Ftp
pub mod Sites
pub mod Script
pub mod Queue
pub mod Folders
pub mod Compare
