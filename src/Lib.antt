-- ===== src/Lib.antt =====
-- The approval broker of msp-fleet: the Python daemon under roles/msp_broker/files/broker that stages,
-- approves and executes operations on a client's machines. A requester proposes an operation, a script
-- or a plan of several operations; the broker checks it, freezes it with a hash, and executes it only
-- when an approver approves it. The files below are named from that folder.
--
-- Parts and files
--   model.py         Kinds (value kinds), Registry (the table of operations), Params
--                    (`validate_params`), Plan (`build_plan` and the data of plans; their
--                    JSON in Plan/Json)
--   authorize.py     Policy (`actor_for`, and the policy's record)
--   config.py        Config: ClientConf (`load_client`), PolicyFile (`load_policy`), PolicyView (how the
--                    dictionary that it returns is read), Paths
--   scriptcheck.py   ScriptCheck, over the string methods in Text
--   adapters.py      Adapter (the interface), Platform (`clamp`, `sanitize`), Failure (the exceptions)
--   mock.py          Adapter/Mock (the writing of its state file in Adapter/Mock/Saved)
--   proxmox.py       Adapter/Remote (`_run`; `_ssh` in Adapter/Remote/Ssh), Adapter/Guests (the
--                    listings, `sync_inventory`, `read`) and Adapter/Proxmox (the rest), over a runner
--                    for the commands on the remote host
--   store.py         Store: Rows (the columns and states), Listing, Lookups, Moves (the order of states),
--                    Receipts, Replay (the table as a map), Columns (the JSON columns)
--   service.py       Broker (the service object, the world and the shared helpers in Actions) and
--                    Service: Targets (`resolve_target`, `_validated_operation`), Propose,
--                    ProposeScript, Steps and ProposePlan (the three ways to propose), Decide
--                    (`approve`, `reject`, `cancel`), Execute (`_execute`) and Runs (what it runs), Views
--                    (`_summary`, `_public`, `_receipt`), Requests (the reads, and every method as a
--                    request), Replies (the JSON of what they return), Race (approvals that overlap)
--   server.py        Server: the bytes of a connection, the request in them, its dispatch, the answer;
--                    Listener (`_bind`, `serve_forever`, `shutdown`), Wire (the answers as JSON lines),
--                    Exchange and Approving (a request from the client to the answer that it reads),
--                    Lifetime (all connections of a server)
--   daemon.py        Daemon: Seed (`seed_inventory`) and `build_service`
--   cli.py           Cli (`parse_params`) and Cli/Request (`request`)
-- bin/publish-data.py, from the repository's root, is in Publish, with `collect` in Publish/Collect and
-- `inventory` and `main` in Publish/Main; the helpers under sandbox are in Sandbox.
-- Base, Value and Exec hold the shared names, JSON values and the actions; Samples and Tests are a
-- concrete broker and its runs.
--
-- How state and operations correspond
-- A method of `BrokerService` is an action: a function from a world to a result and a world, where the
-- result is a value or an exception, and the world that a refused method leaves is the one it left. The
-- world has the tables of the database, the files of the proposals, the lock, the log and the state of
-- the managed host, which only calls of an adapter may change. Time is a sequence of clock readings in
-- seconds and identifiers come from a sequence. `try`, `except` and `finally` are operations on actions.
-- Loops run over lists and are structural, also those that receive a request or a reply, which run over
-- what `recv` returns, and the one that accepts connections, which runs over what `accept` does; the one
-- number that bounds a recursion is the fuel of the decimal digits, n + 1 for n, which has at most that
-- many digits.
--
-- Parameters of the model
-- The regular expressions of `re`, `sha256`, the encoders and the decoder of JSON, the decoding of bytes
-- and texts outside ASCII (Platform), the conversions of the database (Json), the texts of times and
-- refusals in an answer (Texts), the subprocess of the mock adapter, the process that `_ssh` starts or,
-- where nothing depends on it, the runner for the remote commands, the user and group databases, the
-- file system and the subprocess of the publishing script (Shell), the terminal of the sandbox's gate,
-- and the adapters themselves where a statement holds for
-- all of them. That a precheck or a read of an adapter only reads is a hypothesis where it is used.
--
-- Not modelled
-- Threads, and the requests in which an identifier, a confirmation, a reason, a file or a verb is no
-- text; the texts of refusals; the SQL of store.py and the writing of files other than the state file of
-- the mock adapter: the receipt that `_receipt` also writes to a file is only stored, and the OSError
-- of that file is not there. The state file of the mock adapter is missing or has the three fields that
-- `_save` writes. Requests are handled one at a time in `serve`, and so are the connections of a
-- server in Server/Lifetime; in Service/Race the checks of an approval and the rest of it are two steps,
-- with others between them, but each of them is taken as one. Of the system calls of `_bind`, those that
-- depend on what is at the path of the socket and the one that gives the run directory to a group may
-- fail in the model, and no others. The Ansible roles, playbooks and shell tools of the repository are
-- not modelled.
pub mod Base
pub mod Value
pub mod Failure
pub mod Exec
pub mod Kinds
pub mod Registry
pub mod Params
pub mod Plan
pub mod Platform
pub mod Text
pub mod Adapter
pub mod Store
pub mod Policy
pub mod Config
pub mod ScriptCheck
pub mod Broker
pub mod Service
pub mod Server
pub mod Daemon
pub mod Cli
pub mod Publish
pub mod Sandbox
pub mod Samples
pub mod Tests
