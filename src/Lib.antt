-- ===== src/Lib.antt =====
-- webdav-server-rs: a model of the server and what is proved of it.
--
-- The program is a WebDAV server for the files of local users. `main` (src/main.rs) reads and
-- checks the configuration (src/config.rs), builds the routes, opens the sockets, for HTTPS with a
-- key and certificates (src/tls.rs), and takes the ids of the configuration (src/suid.rs). A
-- request then comes to `Server::route` (src/main.rs), which asks the router for the locations of
-- the configuration that match the path and tries them in order. `Server::handle` authenticates
-- the request at a location (src/auth.rs: with PAM, through a cache, or with a htpasswd file),
-- looks up the account (src/unixuser.rs, through a cache), expands `~` in the directory, makes a
-- file system that switches to the uid and gid of the account (src/userfs.rs, src/rootfs.rs,
-- src/suid.rs), and gives all this to the handler of the crate webdav-handler.
--
-- The files and the code that they model:
--   Cache         src/cache.rs, the struct `Intern`: `new`, `maxsize` and `maxage` (with_maxsize,
--                 with_maxage), `expire`, `insert`, `get`. Cache/History keeps the sequence of the
--                 operations, Cache/Freshness has the properties.
--   Cached        src/cache.rs, the module `cached`: `pam_auth`, `unixuser` and the timeouts.
--                 Cached/Overlap has calls that overlap, as steps on a cache and the calls under way.
--   Suid          src/suid.rs: `thread_switch_ugid`, `UgidSwitch` with its guard, and
--                 `proc_switch_ugid`. The kernel is the parameter `Suid.Syscalls.Kernel`.
--   Unixuser      src/unixuser.rs: `User::by_name`. The database is a parameter.
--   Config        src/config.rs: the structs and enums, the deserialisers of the fields, `check`;
--                 Config/Routes has `build_routes`.
--   Router        src/router.rs: the builder and `Router::matches`. The crate regex is the parameter
--                 `Router.Regexes.RegexCrate`. Router/Translation has the expression that a route
--                 becomes.
--   Auth          src/auth.rs: `auth`, `auth_pam`, `auth_htpasswd`.
--   Responses     src/main.rs: `build_error` and the headers, `clone_httpreq`, `expand_directory`.
--   Filesystem    src/userfs.rs and src/rootfs.rs: `new` of both; Filesystem/User and
--                 Filesystem/Root have the methods, Filesystem/Quotas has `UserFs::get_quota` with
--                 its cache. The crate's `LocalFs` is the parameter
--                 `Filesystem.Local.LocalFsCrate`.
--   Quota         fs_quota/src/lib.rs, linux.rs and quota_nfs.rs: `FsQuota::user`, `system` and
--                 `check`; Quota/Table has `read_mtab`, Quota/Entry `get_mtab_entry`, Quota/Calls
--                 `get_quota` of both. The operating system is the parameter `Quota.Data.System`.
--   Server        src/main.rs: `acct`, `handle`, `run_davhandler`; Server/Route has `route`. The
--                 step from one request to the next is `Server.Trusted.Runs.Run`.
--   Tls           src/tls.rs. The crate rustls is a parameter.
--   Startup       src/main.rs, `main`, and `Auth::new` and `config::read`; Startup/Sockets has
--                 `make_listener`. What the system answers is the parameter `Startup.Host`.
--   Http, Dav     the types of requests and responses, and what the program asks of the crates
--                 http, headers, pwhash, webdav-handler, of the files and of the clock: parameters.
--   Prelude       text as bytes, UTF-8, `split`, `trim`, lists, results and panics.
--   Sample        instances of the parameters for the tests, which stand in modules Tests.
--
-- How the state is modelled. A call that changes state takes the state and gives it back. A panic
-- (`unwrap`, `expect`, an index out of bounds) is `panicked` of the type `Outcome`; errors are
-- values of `Result`. A `Mutex` is held through each operation of a cache, so that an operation is
-- one step and interleavings are sequences of steps. Times are numbers of nanoseconds, and each
-- reading of the clock is an argument, or the next one of a sequence (`Http.World`). The handler
-- of webdav-handler may change files: its answer depends on the calls that it got before, and
-- `Server.State` keeps these calls. Ids are natural numbers below 2 ^ 32 where that matters
-- (`Suid.Syscalls.id_none`). All loops are structural recursions over lists or over the number of
-- rounds that the source computes. Only `Prelude.Decimal.to_string` has a bound of its own: ten
-- digits, which is enough for a `u32`.
--
-- Arithmetic on `u64` is written with its wrap-around (`Quota.sub64`, `Quota.mul64`), as in a
-- build for release. A `PathBuf` that is a key of a cache is the list of its components.
--
-- What is not modelled: the tasks of tokio that accept connections, with the loop that restarts a
-- TLS server, which are I/O; the reading of TOML; the C code that asks the kernel or an NFS server
-- for a quota; code that is compiled only on other systems than Linux; and how the crate regex
-- matches an expression. Whole requests that overlap are not modelled: a request is one step.
-- Calls of `pam_auth`, `unixuser` and `get_quota` that overlap are runs of the steps of
-- Cached/Overlap on their caches.
pub mod Auth
pub mod Cache
pub mod Cached
pub mod Config
pub mod Dav
pub mod Filesystem
pub mod Http
pub mod Prelude
pub mod Quota
pub mod Responses
pub mod Router
pub mod Sample
pub mod Server
pub mod Startup
pub mod Suid
pub mod Tls
pub mod Unixuser
