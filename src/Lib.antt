-- ===== src/Lib.antt =====
-- zipfs mounts a zip archive as a read-only filesystem. This library models the read path: from the
-- guarded archive file up to the bytes that a read request gets, with the pools of decoders, the
-- tables of names and of open files, the construction of the tree of names, and the settings with
-- the options that set them.
--
-- The parts, each with the file of src/ it models and its functions under the source's names:
--   Guard    src/guard.rs: every read of the archive is followed by a check that the archive is still
--            the one that was opened. A method takes the guard's state and the state of everything
--            outside the process, and gives both back; `Os` stands for the system calls.
--   Source   src/source.rs: the buffered reader of one range of the archive, over the guard.
--   Stream   the interface between a decoder and its reader, which Source/Range.antt fills.
--   Codec    src/codec.rs, src/codec/deflate.rs, src/codec/zstd.rs: the decompressors; flate2 and
--            zstd are the parameters `Flate` and `ZstdRaw`. Codec/Streaming.antt states what the
--            adapters rely on in these two (`IsInflater`, `IsUnpacker`), and what a decoder relies on
--            in every codec.
--   Decode   src/decode.rs: a decompressor positioned in an entry. ReadAt.antt has `read_at` and
--            `verify`; crc32fast is the parameter `Crc`, and `IsHasher` is what is relied on in it.
--   Pool     src/pool.rs: the idle decoders of an open file and the budget of the mount. Exchange.antt
--            has the methods run without a break; Returns.antt has their atomic steps, which those of
--            other threads may come between; Runs.antt relates the two.
--   Handle   src/handle.rs: open files, the checksum of a stored entry, and the table of handles.
--   Entry, Index   src/index.rs: the entries and the tree of names.
--   Hash     src/hash.rs: the hashers.
--   Intern   src/index/intern.rs: the map from a parent and a name to a node while the tree is built.
--            Probes is about the cyclic probing, Held has the invariant of the slots, and Find, Extend,
--            Grow and Insert are about the operations.
--   Archive  src/archive.rs: where the bytes of an entry begin, found once. Reading the local header is
--            the rawzip library's and a parameter.
--   Paths    src/index/build.rs: which paths are refused, and the canonical form of the others.
--   Build    src/index/build.rs: the builder, which adds the records of the central directory to the
--            nodes found so far; Entries.antt has `add` and the loop. Split is about the parent and the last
--            component of a path, Tree has the invariant, and Changes, Interned, Parents, Attach and
--            Adds go through the methods.
--   Attr     src/attr.rs: the attributes of an inode.
--   Fs       src/fs.rs: locating an entry, the direct read of a stored one, listings, and the handlers
--            that answer from the index, with `open`, `read` and `release`; Plus.antt has `readdirplus` and
--            `statfs`, and Links.antt `readlink`, whose target Targets.antt is about. `data_start` of
--            src/archive.rs is an argument.
--   Config   src/config.rs: the settings and their ranges.
--   Cli      src/cli.rs: the options, found by name (Names.antt) and applied (Settings.antt, Keeps.antt,
--            Bounds.antt), and the help that lists them (Lines.antt, Ends.antt, Pieces.antt, Wrap.antt).
--   Io       the errors of std::io and `Error` of src/lib.rs.
--   Base     numbers, lists, results, machine words.
--   Tests    concrete archives, entries and mounts, and each theorem applied to them.
--
-- Conventions. Numbers are native; where the source computes in 64-bit words the wrap-around is
-- written out (Base/Word.antt), and `usize` has 64 bits. Code that changes `self` takes it and gives
-- it back; a caller's buffer is passed and given back too. Atomics are plain fields, and what threads
-- may do between each other's atomic steps is the step relation of Pool/Returns.antt. Loops of
-- src/decode.rs run on fuel, which is `none` when it runs out; the theorems give an answer whenever the
-- fuel exceeds the bytes left in the entry, the offset and the length of the buffer. The bisection of
-- `lookup` runs on the number of children, which halves.
--
-- Each slot of the interner is probed at most once, so that the number of slots is fuel enough; a step
-- of it or of the builder that has no result is a panic of the source, and the theorems show that there
-- is none. The pieces of a help text are at most as many as its characters.
--
-- Not modelled: texts of messages, and log lines except those that the guard counts and those about
-- options and entries, which are lists of what they say; opening and mounting; the parser of the zip
-- format, which is the rawzip library; of src/index/build.rs the grouping of children, the
-- breadth-first relabelling and the dates; the handler `init`, and those that always answer the
-- same; the default settings; and src/main.rs, which is the daemon, signals, the system
-- log and the loop of the mount.
pub mod Base
pub mod Io
pub mod Guard
pub mod Stream
pub mod Source
pub mod Entry
pub mod Codec
pub mod Decode
pub mod Pool
pub mod Config
pub mod Cli
pub mod Handle
pub mod Index
pub mod Hash
pub mod Intern
pub mod Archive
pub mod Paths
pub mod Build
pub mod Attr
pub mod Fs
pub mod Tests
