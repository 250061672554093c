-- ===== src/Lib.antt =====
-- A model of GPUMesh, a program that shares GPUs between paired machines: a provider admits jobs,
-- receives files and lends its GPU by remote calls of a part of the CUDA runtime; a client chooses a
-- provider, uploads its work and follows the job. The crates are under crates/, each with its src/.
--
-- The parts, and the files that model them:
--
--   Common.antt    crates/gpumesh-common/src/lib.rs: errors (GpuMeshError), the states of peers and
--                  jobs, the limits and the configuration with its defaults.
--   Protocol.antt  crates/gpumesh-protocol/src/lib.rs: the messages. Protocol/Codec.antt is the frame
--                  codec (JsonFrameCodec: encode, decode) over any serialiser.
--   Security.antt  crates/gpumesh-security/src/lib.rs. Security/Crypto.antt has identities and
--                  signatures over the cryptographic crates, which are parameters with their
--                  documented laws; Hello, Pairing and Listing have the signed payloads, AllowList
--                  the permissions of peers. The listing of crates/gpumesh-network/src/rendezvous.rs
--                  is an instance of the interface in Security/Listing.antt.
--   Cuda.antt      Cuda/Gpu.antt is GpuInfo of crates/gpumesh-gpu/src/lib.rs. Cuda/Backend.antt and
--                  its children Kernels and Exec are BackendSession of
--                  crates/gpumesh-core/src/cuda_backend.rs on host memory: op_malloc, op_free,
--                  op_htod, op_dtoh, op_dtod, op_memset, op_vector_add, op_load_ptx, op_launch, and
--                  exec, which dispatches them. Cuda/Remote.antt is the provider's side of
--                  crates/gpumesh-core/src/cuda_remote.rs: handle_gpu_remote_open, handle_cuda_op
--                  and handle_gpu_remote_close on the table of a connection's sessions.
--   Transfer.antt  file transfer of crates/gpumesh-core/src/remote.rs: the chunks of upload_file, in
--                  Transfer/Uploads.antt the arms of serve_peer_session for FileOffer and FileChunk,
--                  and in Transfer/Paths.antt upload_dest and resolve_download_path.
--                  Transfer/Download.antt has serve_download, send_file_chunks and the client's loop.
--   Jobs.antt      the arm of serve_peer_session for RunJob, with image_allowed. Jobs/Runtime.antt has
--                  the active containers of crates/gpumesh-runtime/src/docker.rs, Jobs/Container.antt
--                  the arguments of docker and run_job. Jobs/Execution.antt is execute_remote_job,
--                  Jobs/Client.antt the loop of run_remote_job, Jobs/Outputs.antt pull_job_outputs
--                  and transfer_file_from_peer, all of crates/gpumesh-core/src/remote.rs.
--                  Jobs/Records.antt is JobRecord of crates/gpumesh-storage/src/jobs.rs.
--   Schedule.antt  schedule_peer of crates/gpumesh-core/src/scheduler.rs.
--   Storage.antt   crates/gpumesh-storage/src/: Storage/Peers.antt is PeerStore of store.rs (upsert,
--                  get as lookup, get_mut as update, remove as remove_peer), Storage/Groups.antt
--                  GroupStore and Storage/Invites.antt GroupInvite of groups.rs. Storage/Joins.antt is
--                  the arm of serve_peer_session for GroupJoinNotify. Storage/Package.antt is the
--                  package format of package.rs: package_workdir, unpack_archive and sanitize_rel.
--   Directory.antt the public directory of crates/gpumesh-control/src/main.rs: public_announce,
--                  public_unannounce and public_get; Directory/Search.antt is public_search.
--   Network.antt   connections of crates/gpumesh-network/src/: PeerConnection of peer_conn.rs, dial_any of
--                  endpoint.rs, and RelayClient and dial_with_fallback of relay.rs.
--   Relay.antt     crates/gpumesh-relay/src/main.rs: handle_connection and proxy_messages.
--   Node.antt      MeshNode of crates/gpumesh-core/src/node.rs: init, bootstrap, start_network and
--                  ensure_dialer, with the files of StateStore and PeerStore. Node/Trust.antt has
--                  pairing and the changes of the allow list, Node/Greeting.antt make_hello and
--                  authorize_inbound, Node/Inbound.antt handle_inbound, Node/Outbound.antt
--                  connect_peer, Node/Sharing.antt the sharing operations. Node/Handshake.antt is
--                  handshake.rs and Node/Status.antt status.rs beside it.
--   Dashboard.antt the local server of crates/gpumesh-control/src/local.rs: the token, pair and the
--                  changes of the allow list; Dashboard/Runs.antt run_job, jobs and job_one,
--                  Dashboard/Logs.antt read_log_chunk.
--   Cli.antt       helpers of crates/gpumesh-cli/src/: sanitize_name, project_name and parse_env of
--                  app.rs, split_remote of commands.rs, env_pairs of jobfile.rs; Cli/Config.antt
--                  config_get and config_set of commands.rs.
--   Base.antt      shared helpers: tests, lists, texts, maps, sets, signed integers and the
--                  interface to serde_json.
--
-- How the parts interact: a node dials a peer, directly or over the relay, and the two exchange signed
-- greetings (Security/Hello.antt, Node/Handshake.antt); the provider serves a connection whose greeting
-- it lets through (Node/Inbound.antt). Its messages arrive through the codec, and the provider's loop
-- hands each of them to a handler of Transfer, Jobs, Storage/Joins or Cuda/Remote. A handler is a function from the state to the
-- messages that it sends and the new state, or to the error that ends the connection. Handlers of
-- the CUDA part read the allow list of Security and the configuration of Common. Storage keeps who
-- is paired and who is in a group; its invites are signed payloads like those of Security.
--
-- Operations that change a node, a connection, the disk or the local server take the state and give the
-- new one with a result; a connection is the messages that it will still give and those that it has
-- sent, so the two sides of an exchange are composed by handing the messages of one to the other. What
-- runs at the same time is an order of steps that the statement ranges over: the sides that the relay's
-- select takes, the lines of output between the provider's messages, the connections at the relay.
--
-- Conventions: numbers are natural numbers; bounded ones keep the source's saturating or wrapping
-- arithmetic. Bytes are numbers, texts that are walked through are lists of code points, a hash map is
-- an association list. Time stamps of seconds are signed integers, readings of the monotonic clock
-- natural numbers of nanoseconds. Fresh identifiers, clock readings, detected GPUs and answers of
-- probes are arguments. Paths are those of Unix, and the file system's operations that may fail are
-- parameters. Writing a file of an upload succeeds; elsewhere the answer of a write is a parameter.
--
-- Bounds: a device session gives out pointers that only grow, by at most 256 MiB and 64 bytes at a
-- time, so that 2 ^ 35 operations keep them below the largest u64; the statements on sequences of
-- operations have that bound. The split into chunks runs on fuel, for which the length of the slice is
-- enough since a chunk is not empty. The relay's proxying runs on the list of sides that are taken, one for
-- each round. Decimal and hexadecimal texts of numbers are exact below the largest u64.
--
-- Not modelled: the device sessions on a real driver (calls of the crate cudarc), the client of the
-- CUDA remoting, the loop of serve_peer_session around its arms, the sending of a job's workload, the
-- search for candidates of the scheduler, the desktop, what the control plane keeps for its dashboard,
-- the probing, status and network pages of the local server, discovery and transport (QUIC, mDNS, HTTP,
-- external programs), the commands, prompts and printing of the command line, the agent and the CUDA
-- runtime stub. parse_size_to_mb and compute_perf_score compute on f64 and are parameters. Of the
-- cryptography only what its crates document is used: nothing here says that a signature cannot be
-- forged.
pub mod Base
pub mod Common
pub mod Protocol
pub mod Security
pub mod Cuda
pub mod Transfer
pub mod Jobs
pub mod Schedule
pub mod Storage
pub mod Directory
pub mod Network
pub mod Relay
pub mod Node
pub mod Dashboard
pub mod Cli
