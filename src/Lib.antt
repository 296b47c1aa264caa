-- ===== src/Lib.antt =====
-- Tiny File Watcher: a server (server/) that keeps, per watcher, the list of the files below a
-- source path on a machine, and copies those that are new to another machine; and its command line
-- client (client/). A sync walks the source path over SSH and brings the table of tracked files in
-- line with it; a flush copies the tracked files that are not flushed to the target of the
-- watcher's redirection and marks them.
--
-- Files, and the code that they model:
-- - Prelude: shared names, Boolean tests, lists, distinct keys, prefixes of strings.
-- - Internal.Set: internal/set.go, `Set[T]`; Laws and Valid are lemmas. Internal.FilePath: Clean,
--   Join, Dir and Base of Go's path/filepath on Unix. Internal.Strconv: Itoa and Atoi of
--   strconv. Internal.TfwPath: internal/tfw_path.go.
-- - Server.Outcome: `(value, error)` results, the errors of the database and the gRPC codes.
-- - Server.Database: server/database. A record `Db` has the four tables of schema.sql in order of
--   insertion, and the time. Machines, Watchers, Redirections and Files have one function for each
--   method of `DB` in machine_db.go, file_watcher_db.go, redirection_db.go and file_db.go;
--   Repositories has the five interfaces and `DB` as what implements them. Integrity, Pending,
--   Flushing, Paths and Lookup are lemmas.
-- - Server.Watcher: server/watcher. Ignore is tfwignore.go; Walk and Sync are sync.go
--   (handleCurrentPaths, drainWalker, enqueueSubdir, processFile; SyncJob.Run and saveUpdates);
--   Locks and Service are service.go; Streaming relates StreamSyncWatcher to SyncWatcher;
--   Remote is openRemoteFS over SSH. Walk.Tree says what a remote file system has to be.
-- - Server.Flush: server/flush. Transfer is transferFile and clientPool, Job is FlushJob, Service is
--   service.go, Dialer is the connections of service.go over SSH. Success and Reliable are lemmas;
--   Journal is the job beside a list of the connections it opens and closes.
-- - Server.Ssh: server/ssh/client.go.
-- - Server.Machine, Server.Redirection: server/machine/service.go, server/redirection/service.go.
-- - Server.Interceptor: server/interceptor/grpc_auth.go and token_verifier.go.
-- - Server.Config, Client.Config: server/config/config.go, client/config/config.go.
-- - Server.Web: server/web. Sessions and Auth are auth.go, Upload is upload_handler.go, Watchers is
--   watcher_handler.go, Actions is action_handler.go, Machines is
--   machine_handler.go, Routes is handler.go with the patterns of Go's ServeMux. Http has the
--   requests and replies, Services the interfaces to the gRPC services.
-- - Server.App: server/app.go, the services over one database; Dashboard and Ports are results on
--   the web UI over that database. Start is NewApp; Closed and Unserved say whom the server answers.
-- - Client.Credentials: client/auth/grpc_creds.go. Client.Tokens: client/auth/tokens.go.
-- - Client.Terminal: what the commands print and their errors. Client.Rpc: the calls of the four
--   services that a connection has. Client.Cmd: client/cmd, one module per file; Root is dial and
--   the run of a command.
-- - Tests: concrete inputs.
--
-- A call that changes state is a function from a state to a result and the new state (`Exec`); what
-- it changed before an error stays changed. The services take repositories over any state, so that
-- every error of the database, that of the driver included, is among their inputs; where a theorem
-- is about the database itself the repositories are those of `Db`. The services meet in the
-- database: a sync writes the rows that a flush reads and marks. A call of the database happens at
-- one instant, foreign keys are enforced, and SQLite gives a new row the id after the largest.
-- A text is the sequence of its characters; times are nanoseconds since 1970, cut to seconds where
-- they are stored; an int32 or int64 is its bit pattern, and counts wrap around at 2 ^ 32.
--
-- The walk runs on fuel: one more than the number of directories of the remote file system, since
-- each walker in the queue but the first is that of a directory seen for the first time. That this
-- suffices on a tree is part of the result on the walk. A tree is a file system in which the walker
-- of a directory that the walker of the source path shows has no entries that the latter lacks.
--
-- Parameters, for code that is not in this repository: the compiler of the ignore patterns
-- (go-gitignore), the walker of the remote file system (kr/fs, pkg/sftp), SSH and SFTP
-- (x/crypto/ssh, pkg/sftp), the OIDC provider with its tokens (go-oidc, oauth2) and its device
-- login, random tokens, how settings are read (go-config), how SQLite is opened, the files of the
-- user (package os), and gRPC: a connection answers each call, and carries the messages of a stream
-- in their order and its end after them.
--
-- Not modelled: the texts of error and log messages (the codes are; the messages of a sync are
-- shortened), the HTML of the templates (a page is its name and its data), the widths of the
-- columns that the client prints, deadlines, the parsing of the command line (cobra), the start of
-- the server (main.go and Run of server/app.go, whose listeners block for ever), LocalDialer of the
-- tests, and logging. A second connection to the database and two calls at once in one table are
-- not modelled either.
mod Prelude
pub mod Internal
pub mod Server
pub mod Client
mod Tests
