-- ===== src/Lib.antt =====
-- fanotify-fid, a Rust crate that parses what Linux fanotify reports.
--
-- The crate reads a byte stream from a notification group and turns it into events. Two formats
-- are modelled: FID events, which name objects by file handle in variable-length records
-- (src/fid.rs), and descriptor events, which carry an open descriptor (src/fd.rs). The walks of
-- both report how far they got (src/parse.rs), and fail with the errors of src/error.rs. A group
-- and its readers get the bytes from the kernel and adopt the descriptors in them (src/sys.rs,
-- src/group.rs); a resolver turns the handles of events into paths, by a store or by the kernel
-- (src/resolve.rs, src/handle.rs); and permission events are answered (src/response.rs).
--
-- Base        lists, tests, signed integers; `loop` by a falling measure; slots that are reused
-- Bytes       byte ranges and the integers in them: `read_u32`, `read_u64`, `read_unaligned`
-- Consts      src/consts.rs, and the sizes that src/fid.rs and src/handle.rs declare;
--             `EventNames` has the names of a mask's bits, the other children the flags
-- Paths       Unix paths as the crate uses them: `PathBuf::push`, `Path::components`
-- Texts       texts as code points, and decimal numbers
-- Errors      src/error.rs: `FanotifyError`, its messages
-- Parse       src/parse.rs: `EventStop`, `ParseReport`
-- Owners      which mention of a descriptor number becomes its owner
-- Fid.Event   src/fid.rs: `FidEvent`, `RenameSide`, `Pidfd` and their methods
-- Fid.Payload src/fid.rs: `read_fsid`, `read_file_handle`, `split_fsid_handle(_name)`
-- Fid.Records src/fid.rs: `parse_one_event`; a round of its `while` is `record_round`, and each arm
--             of its `match` is a function
-- Fid.Walk    src/fid.rs: `parse_fid_events_into` and its callers; a round of its `loop` is
--             `walk_round`
-- Fid.Wire    the kernel's layout as a function from what an event says to its bytes, with
--             the padding of RANGE and MNT records that the drawing in src/fid.rs leaves out
-- Fid.Adopt   src/fid.rs, src/group.rs: the adoption of pidfds by a read
-- Fid.Deleted src/fid.rs: `is_deleted`, `without_deleted_suffix`
-- Fid.Compare src/fid.rs: `FidEvent::eq`
-- Fid.Build   src/fid.rs: the setters
-- Fid.Shared  src/fid.rs: a pidfd that clones of an event share, `Pidfd::into_fd`
-- Fd          src/fd.rs: `FdEvent`, `parse_fd_events_into`, `adopt_reported`
-- Response    src/response.rs: `WireBuffer`, `FanotifyResponse`, `encode_response`,
--             `write_response`; the layout that they are held against
-- Handle      src/handle.rs: `HandleCache`, `Mounts`, `resolve_file_handle_in`; `History` runs any
--             sequence of the cache's operations, `Store` is the interface of the stores,
--             `Encode` has `name_to_handle_at`, `Probe` has `resolve_file_handle`, `Statfs` the
--             filesystem of a descriptor, `Clones` several caches, each behind a lock, and `Knowledge` is the
--             quotient of caches by what they answer
-- Resolve     src/resolve.rs: `PathResolver`, `resolve_dir`, `resolve_event`, `resolve_events`
-- Resolve.Memo src/resolve.rs: the forms that teach a store, up to `resolve_events_memo`, which
--             makes passes until one resolves nothing
-- Sys         src/sys.rs: `read_into`, `read_events`, `fanotify_init`, `fanotify_mark`
-- Group       src/group.rs, src/fd.rs: `Fanotify`, the reads into a caller's buffer, `EventReader`
--             and `FdEventReader`; `History` runs any sequence of a reader's reads, `Ledger` the
--             descriptors of the process meanwhile, `Entries` a read followed by a resolution,
--             `Verdicts` a read followed by responses
--
-- Bytes are numbers below 256; unsigned fields are numbers, `i32` fields are integers. The kernel
-- writes structures in the host's byte order, so a reader takes the order as an argument. Sums of
-- buffer positions do not wrap: a buffer has at most `isize::MAX` bytes. Loops recur on a measure
-- that falls, with no fuel: the bytes left of the buffer or of the event, the events that have no
-- path. A read recurs on the list of the kernel's answers; one that the answers do not bring to an
-- end has no result, as it still waits.
--
-- A borrowed byte range and its copy are one value, so `Cow`, `into_owned` and lifetimes do not
-- show; a `Vec`'s capacity does not show either, but where it is the size of a read. An owned
-- descriptor is its number, and an errno is a natural number, as the kernel's are. What the kernel
-- answers to fanotify_init(2), fanotify_mark(2), read(2), write(2), poll(2), statfs(2),
-- name_to_handle_at(2), open_by_handle_at(2) and readlink(2) is a parameter. A lock is held for
-- one operation, so operations on a cache stand one after the other.
-- Not modelled: derived `Debug`, re-exports, conversions that only change a type, and the getters of
-- single fields.
pub mod Base
pub mod Bytes
pub mod Consts
pub mod Texts
pub mod Errors
pub mod Owners
pub mod Parse
pub mod Fid
pub mod Fd
pub mod Paths
pub mod Response
pub mod Handle
pub mod Resolve
pub mod Sys
pub mod Group
