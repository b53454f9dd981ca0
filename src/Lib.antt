-- ===== src/Lib.antt =====
-- mcpfz-probe is a sidecar process. A monitor writes control messages (scope, mark, shutdown) to
-- its stdin, one JSON object on a line; the sidecar writes runtime events and status lines to its
-- stdout in the same form. Two backends produce the events: a fake one that replays a script, and
-- an eBPF one in which a kernel program captures system calls into a ring buffer and a loader
-- turns the records into events. These files model the kernel program and the sidecar, and prove
-- what they promise.
--
-- The parts, and the code that each file models (paths from the root of the repository):
--   Script            crates/mcpfz-probe/src/fake.rs: Control, ScriptEntry, ScriptFile, parse_script
--   Fake              crates/mcpfz-probe/src/fake.rs: FakeBackend and its methods, run
--     Fake/Spec         the transcript: which events answer which messages
--     Fake/Writes       the writing of a list of lines, up to the first error of the writer
--     Fake/Emits        rules that compose the transcripts of actions
--     Fake/Refinement   the backend against its transcript
--     Fake/Objects      what an event says; Fake/Grace: the effect of --grace-ms
--   Cli               crates/mcpfz-probe/src/main.rs: Backend, Args, Parsed, parse_args
--     Cli/Grammar       the accepted command lines as a grammar, and the parser
--     Cli/RoundTrip     settings written as arguments; Cli/Refusal: the refused command lines
--   Process           crates/mcpfz-probe/src/main.rs: USAGE, main, run, run_fake, now_ns, and the stub
--                     ebpf::run of a build without the feature
--     Process/Laws      exit codes; Process/Replay: a process with the fake backend
--   Events            crates/mcpfz-probe-ebpf-common/src/lib.rs: the records, their bytes, as_str
--     Events/Text       as_str; Events/Layout: lemmas on fields
--   Flags, Address    crates/mcpfz-probe/src/ebpf.rs: flags_to_string, fmt_addr
--     Flags/Laws        substring tests on the text of the flags
--     Address/Reader    readers of the texts of addresses; Address/Pieces, Address/Zeros,
--                       Address/Compressed and Address/Mapped: the forms of an IPv6 text;
--                       Address/RoundTrip: the text names the address
--   Decode            crates/mcpfz-probe/src/ebpf.rs: decode
--     Decode/Records: the fields of a record; Decode/Objects, Decode/Network and
--                       Decode/Ptrace: the objects; Decode/Types: their types
--   ProcStat          crates/mcpfz-probe/src/ebpf.rs: process_pgid; ProcStat/Laws
--   LoaderState       crates/mcpfz-probe/src/ebpf.rs, run: the shared state, the points of the threads
--   Loader            crates/mcpfz-probe/src/ebpf.rs, run: the steps of the threads
--     Loader/Run        interleavings; Loader/Machine and Loader/Refinement: an abstract machine of
--                       the ring, the end marks and the active call, and the threads against it;
--                       Loader/Trace and Loader/Ends: calls and end marks;
--                       Loader/Attribution: the calls that the written lines name; Loader/Ledger and
--                       Loader/Order: which records precede an end mark; Loader/Scope: the scope
--                       filter, with Loader/Looking on a record that is looked at; Loader/Rounds and
--                       Loader/Shutdown: the length of a round and the end of the loop;
--                       Loader/Polling: when the main thread waits; Loader/Join, with Loader/Apart
--                       on the control thread: its end; Loader/Objects: the objects of events;
--                       Loader/Protocol: the statuses of both backends
--   Setup             crates/mcpfz-probe/src/ebpf.rs, run: PROGRAMS, loading and attaching; Setup/Laws
--   Build             crates/mcpfz-probe/build.rs; Build/Laws
--   Kernel            crates/mcpfz-probe-ebpf/src/main.rs: the tracepoint programs and their bodies
--     Kernel/Sound      the helpers and the records; Kernel/Header: what is put into the ring;
--                       Kernel/Memory: buffers of user texts; Kernel/Capture, Kernel/Path,
--                       Kernel/Net and Kernel/Ptrace: from a system call to the object that the loader makes of it;
--                       Kernel/Report: from there to the line that the main thread writes
--   Base, Io, Exec, Json   shared: library names, numbers in text, UTF-8, str::trim, io::Write, the
--                     state-and-error monad of methods that return early, serde_json as an interface
--   Tests             the models run on small inputs, and instances of the theorems; the tests of the
--                     source itself in Tests/FakeTests and Tests/CliTests, with the JSON reader of
--                     Tests/JsonText and Tests/Deserialize
--
-- State. A FakeBackend is the record of the source, with the clock as a function from the number
-- of the call to its answer, and a Session adds the writer. The loader's World has the shared
-- State behind the mutex, the shutdown flag, the writer, the ring, the lines still to be read and
-- a program point for each thread. A step of a thread goes up to the next lock that it takes, and
-- the main thread pauses as well between the last ring.next() of a round and the taking of the
-- end marks, so that Loader/Run has every interleaving of the two threads and of the kernel.
-- Labels record what a step did; a theorem about what is written speaks of the line itself.
--
-- Numbers are native naturals. A cast from u128 to u64 is written out as a remainder, one from
-- i64 to i32 is as_i32, and an i64 field of a record is its 64-bit pattern. Texts are lists of
-- characters, and bytes are numbers below 256; as_str goes through a UTF-8 decoder that refuses
-- what core::str::from_utf8 refuses. Records have the layout of repr(C) on a little-endian 64-bit
-- machine: the four bytes before an aligned i64 are a parameter of the layout.
--
-- Parameters. serde_json's Value and Map are the interface Json, with the documented behaviour of
-- Map as the laws IsLawful, which Tests/Samples shows for a concrete library. Reading a Control
-- or a script from text is generated by serde, so it is the interface Reader; Tests/Deserialize
-- is one for the sample library. The helpers that the kernel program calls are the record
-- Context, which answers each call of one run; IsSound states their documented sizes and ranges,
-- and PointsTo the documented effect of bpf_probe_read_user_str. aya is the interface Aya. A
-- writer is the interface Write, whose calls may fail and may change the writer when they do. The
-- clock, the files, the lines of stdin and the texts of /proc are arguments. The Display of
-- Ipv4Addr and Ipv6Addr, str::trim, str::parse and core::str::from_utf8 are library functions;
-- Base and Address define them by their documentation, as the theorems are about texts.
--
-- Termination. Every loop is structural recursion over the arguments, the lines or the
-- characters. print takes one round for each unit of the number and one more, which exceeds the
-- number of digits, and the UTF-8 decoder takes one round for each byte, where each round reads a
-- byte at least. The outer loop of the loader has no bound in the source, and its model is a
-- step; Loader/Rounds bounds a round by drain_batch, which is the 8192 of the source.
--
-- Not modelled: the inside of RingBuf, which is a queue here, and of poll, which waits without an
-- effect, lock poisoning, the panic handler of the kernel program, and the Python package in
-- src/mcpfz_probe.
pub mod Base
pub mod Io
pub mod Exec
pub mod Json
pub mod Script
pub mod Fake
pub mod Cli
pub mod Process
pub mod Events
pub mod Flags
pub mod Address
pub mod Decode
pub mod ProcStat
pub mod LoaderState
pub mod Loader
pub mod Kernel
pub mod Setup
pub mod Build
mod Tests
