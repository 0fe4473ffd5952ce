-- ===== src/Lib.antt =====
-- unfs3-raft: a user-space NFSv3 server whose state-changing operations go through a raft log.
--
-- An RPC call reaches daemon.c. For an operation that is replicated, daemon_raft.c packs the
-- procedure, the client's identity and the XDR arguments into a log entry; the raft library sends
-- entries to the peers through two callbacks; received datagrams are handed to the library; and the
-- library calls raft_applylog_cb for each committed entry, which runs the procedure and stores the
-- result in a ring from which the waiting call takes it. The procedures address files by handles
-- (fh.c), which are resolved to paths through a cache (fh_cache.c), keep descriptors open between
-- calls (fd_cache.c), run with the rights of the client (user.c), and report errors as NFS status
-- codes (error.c).
--
-- Files and what they model (a function keeps its name; out-parameters and globals are results and
-- explicit state; NULL is `none`):
--   Base, Base/Tests, Base/Lists, Base/Bits: notation, Boolean tests, lists and digits over the
--     native numbers.
--   Backend: backend_unix.h, the system calls, as a parameter.
--   Bytes: integers as bytes in either byte order.
--   Raft/Wire: daemon_raft.c, the serialize_ and deserialize_ functions of peer messages.
--   Raft/Net: daemon_raft.c, raft_net_receive, its handlers, and the callbacks that send. The raft
--     library is the parameter `Library`. Raft/Net/Delivery goes from the sender to the receiver,
--     Raft/Net/Size is about the packet buffer.
--   Raft/Ring: daemon_raft.c, put_result, get_result and the loop that waits for a result.
--     Raft/Ring/Fifo compares the ring with a queue, Raft/Ring/Collect is about the loop.
--   Raft/Apply: daemon_raft.c, raft_client_info_serialize and _deserialize, the buffer that
--     raft_serialize_and_replicate_nfs_op fills, and raft_applylog_cb. The procedure that an entry
--     runs is the parameter `perform`; NGRPS and RAFT_LOGTYPE_NORMAL are numbers of the libraries.
--   Raft/Replicate: daemon_raft.c, raft_serialize_and_replicate_nfs_op from the log entry to the
--     result, wait_for_leader and raft_make_progress; the raft library with the clock is the parameter
--     `RaftServer`. Raft/Replicate/Commit is about the wait.
--   Raft/Peers: daemon_raft.c, the table of peers that raft_init fills, and Raft/Peers/Known about it.
--   Raft/Handles: daemon_raft.c, init_local_handle and adjust_handle, which make the handles of a
--     replicated call local.
--   Fs: paths, stat buffers and the calls of the file system, a parameter.
--   Fh: fh.c, handles; Fh/Compose is fh_comp_raw and Fh/Search is fh_rec and fh_decomp_raw. The
--     byte order of the host and the contents of uninitialised memory are parameters.
--   FhCache: fh_cache.c, the table of paths; fix_dir_times is a parameter here, which Server gives.
--   Locate: locate.c.
--   FdCache: fd_cache.c, descriptors that stay open and the errors of closing them; the system calls
--     and regenerate_write_verifier of daemon.c are the parameter `Calls`.
--   User: user.c; the system calls on user and group ids are the parameter `System`.
--   Nfs, Error: the status codes of nfs.h, and error.c; the numbers of errno.h are the parameter
--     `Errnos`.
--   Exports: the C code of Config/exports.y. Exports has what reads the list of exports;
--     Exports/Build has the rules of the grammar with the functions that they call, and
--     exports_parse: Exports/Build/Hosts sets the address of a host and Exports/Build/Options its
--     options. Exports/Build/Spec is the meaning of a file, and the other files of Exports/Build
--     are about it. Exports/Longest is about exports_options, Exports/Normpath about normpath, and
--     Exports/Text has lemmas on texts.
--   Attr: attr.c; Attr/Times is fix_dir_times with its cache, Attr/Set is set_attr, and Attr/Stable
--     is about the times of directories.
--   Readdir: readdir.c, and change_readdir_cookie of daemon.c. Readdir/Cookie and Readdir/Pages are
--     about one answer and the next.
--   Server: the globals as one state, with fd_cache.c, user.c and fh_cache.c on it;
--     Server/Handles is fh_decomp, fh_comp and the attributes of answers. Server/Reads has rules for
--     runs that leave alone what a view sees of the system, and Server/Quiet, Server/Quiet/Handles,
--     FdCache/Reads and Readdir/Reads are about the functions that do.
--   Proc: nfs.c. Proc has PREP and cat_name, Proc/Info GETATTR, LOOKUP, ACCESS, READLINK and READDIR,
--     Proc/Limits FSSTAT, FSINFO and PATHCONF, Proc/Io READ, WRITE and COMMIT, Proc/Change SETATTR,
--     REMOVE, RMDIR, RENAME and LINK, Proc/Create CREATE with its verifier in Proc/Verifier, and
--     Proc/Make MKDIR, SYMLINK and MKNOD; Proc/Dispatch is the choice between them in daemon.c and
--     daemon_raft.c, with adjust_handles_for_proc. nfsproc3_lookup_3_svc is `lookup`, and so on.
--     Proc/Reading and Proc/Dispatch/Unreplicated are about the calls that are not replicated; the
--     other files of Proc are about the procedures.
--   Password: password.c. Password/Argument and Password/Hex are about it.
--   Mount: mount.c, and Mount/Program mountprog_3 of daemon.c. Mount/Login, Mount/Allowed with
--     Mount/Allowed/Checked, and Mount/Replay are about who may mount, Mount/Count and
--     Mount/Unmounted about the list of mounts, and Mount/Logical about the logical root.
--   Daemon: daemon.c, the services of a node that leads. Daemon/Transport creates and destroys the
--     transports, Daemon/Register registers the services, and Daemon/Round has become_leader,
--     leadership_lost and the loop of unfs3_svc_run; Daemon/Options is parse_options. The RPC
--     library and the sockets are the parameter `Net`. Daemon/Keeps, Daemon/Changes and
--     Daemon/Serves are about the loop and the variables that hold transports, Daemon/Registered,
--     Daemon/Returns and Daemon/Handover about taking the services over and giving them up.
--   Examples: each theorem at a concrete input.
--
-- Integers are bit patterns on natural numbers; a result that C wraps is written with its modulus.
-- Loops are structural: over the list of waiting datagrams, over a directory's entries, over the
-- rest of a handle's array, over the slots of the table, over the list of exports. The loop that
-- waits for a result has 1000 rounds of fuel: the ring holds at most 999 results, so that it always
-- ends within them. The waits for a commit and for a leader run on fuel, one unit for each round; the
-- result on the wait for a commit says how much is enough. The loop of the services does not end by
-- itself, so its first n rounds are run, for any n. A socket is bound in at most 100 attempts, as in
-- the code. The search of locate.c goes down NFS_MAXPATHLEN levels, more than a path has.
--
-- A procedure runs on a state of all globals and gives a result and a new state, or none where an
-- assertion fails, the process exits or NULL is used as a string. An answer holds what is sent with
-- its status. The time does not change within one call of a function. `char` is signed. Strings are
-- copied, where C passes pointers into the cache or into static buffers.
--
-- Not modelled: the signals, the pid file and the fork of daemon.c; the tables of yacc
-- and the lexer of the exports file, of which the rules that run are the input; the sockets and the
-- log file (raft_log.c) of the raft part; Extras/cluster.c, which is not part of the default build and
-- does not compile; the raft library, which is a submodule; xdr.c, which is generated; md5.c, a copy;
-- and the layers for other platforms.
pub mod Backend
pub mod Base
pub mod Bytes
pub mod Raft
pub mod Fs
pub mod Fh
pub mod FhCache
pub mod Exports
pub mod FdCache
pub mod Attr
pub mod Readdir
pub mod Locate
pub mod Server
pub mod Proc
pub mod Password
pub mod Mount
pub mod Daemon
pub mod Nfs
pub mod Error
pub mod User
pub mod Examples
