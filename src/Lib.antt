-- ===== src/Lib.antt =====
-- nocap-crypt encrypts and decrypts disk images in the format of dm-crypt's plain mode. This
-- library models its crates as functions on lists of bytes and on numbers, and proves what they
-- promise.
--
-- Parts of the program and the files that model them:
--   crates/nocap-crypt-core       Core: CipherSpec (cipherspec.rs), Iv (iv.rs), Engine (engine.rs and
--                                 cipher.rs). Core/Primitives stands for the crates `aes`, `xts-mode`
--                                 and `sha2`; Core/Primitives/Toy fills it in.
--   crates/nocap-crypt-blockio    Blockio: SectorIo (sectorio.rs), Open (how files are opened),
--                                 Alignment (alignment.rs). Blockio/Disk is an operating system for the tests.
--   crates/nocap-crypt-worker     Worker: Concurrency (concurrency.rs), DiskInfo (diskinfo.rs), Cgroup
--                                 (cgroup.rs, heuristic.rs), Dispatch (dispatch.rs). Of
--                                 `process_ranges`, Dispatch has one job and the jobs in order, and
--                                 Dispatch/Pool the jobs of a thread pool.
--   crates/nocap-crypt-luks       Luks: Header (header.rs), Structural (structural.rs).
--   crates/nocap-crypt-entropy    Entropy: Scores (shannon.rs, chisquare.rs), Streaming (streaming.rs).
--                                 Entropy/Floats stands for the arithmetic of `f64`.
--   crates/nocap-crypt-keymgmt    Keymgmt: Pattern and Validate (validate.rs), KeyFile (keygen.rs),
--                                 Format (format.rs), Represent (represent.rs).
--   crates/nocap-crypt-ui         Ui: Event (event.rs), Reporter (the reporters, and reporter_setup.rs
--                                 of the CLI), Banner (the outcome of ci.rs), Narrate and Explain
--                                 (didactic/narrate.rs); Shown says what a reporter shows.
--   crates/nocap-crypt-cli        Cli: ExitCode (exitcode.rs), KeyLoad (keyload.rs), Image
--                                 (cmd/image.rs; Plan up to the transfer, Output with it, Reports the
--                                 whole commands with their events), Align
--                                 (cmd/align.rs), Console and Report (how commands report), Keys
--                                 (cmd/keygen.rs, cmd/keycheck.rs), Validate (cmd/validate.rs), Entropy
--                                 (cmd/entropy.rs, min_window_entropy), Compat
--                                 (cryptsetup_compat.rs; Machine has what the commands act on, Steps
--                                 when each step of a run succeeds),
--                                 EnvConfig (env_config.rs; Base/Decimal reads its numbers).
-- Base has what the files share (Text for strings, Utf8 for their bytes), and each Tests runs the
-- theorems of its part. `image encrypt` computes the size of its output, makes a sparse file of it,
-- cuts it with chunk_ranges, and gives both files with a SectorEngine to process_ranges, which
-- reads, encrypts and writes each range; Cli/Image/Output puts these together.
--
-- Conventions. A `u8` is a number below 256, a buffer a list of them; a buffer that the source
-- changes in place is an argument and a result. Sums and products of `u64`s are taken `% 2 ^ 64`, as
-- a release build takes them. A panic is `none`, or `panicked` where errors can be returned as well.
-- A file is its bytes; a SectorFile has them and whether O_DIRECT is active.
--
-- What is not under crates/ is a parameter. `Primitives` has the operations of the cipher crates,
-- and `IsLawful` what they document: decryption undoes encryption, lengths are kept, and the area
-- functions take the sectors one by one with the tweak of each. `Os` has `pread` and `pwrite`;
-- `IsPosix` is what POSIX promises of a call that succeeds, and `IsReliable` that the calls
-- succeed. A call's outcome depends on the file, the handle, the offset and the length; the calls
-- of one run are at offsets of their own. `Host` runs commands and keeps files for the check
-- against cryptsetup, and `IsDocumented` is what their manuals say. `Decoders` are the crates `hex`
-- and `base64`, `Numbers` the format of figures, `Printer` JSON and the clock, `Console` and
-- `Surroundings` those of a command, `Env` the environment and what clap reads, `QuotaFloats` the
-- `f64` of a quota. Rayon is the relation `Step`: any task of the pool may go on at any
-- time, by its read, by one write, or by the count of its bytes. The input is a file of its own,
-- which nobody writes to during a transfer.
--
-- Loops. The loops of read_at_exact and write_at_exact recurse on the accessibility of the number of
-- bytes that are left, so they end by definition. chunk_ranges has fuel, the number of sectors, and
-- every round takes one at least.
-- The search for a repeating pattern has a round for each period and each chunk there can be, and
-- the loop over a stream one for each byte.
--
-- Not modelled: what a failed transfer leaves in the output; a thread pool that cannot be built;
-- the choice of O_DIRECT by the file system, which is an argument; buffers' addresses; the values
-- of floating-point figures; what the align commands report; progress displays; the commands
-- inspect, info and bench; hardware reports; jokes and the S-box text. The counters of a stream's
-- bytes are numbers without bound, since no stream has 2 ^ 64 bytes.
pub mod Base
pub mod Core
pub mod Blockio
pub mod Worker
pub mod Luks
pub mod Keymgmt
pub mod Cli
pub mod Ui
pub mod Entropy
