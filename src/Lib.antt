-- ===== src/Lib.antt =====
-- goldboot builds machine images and puts them onto disks. This library models its image crate,
-- goldboot-image: the `.gb` format, the qcow2 images that it is made from, the conversion between the
-- two, and the ways an image reaches a disk. Of the crate goldboot it models the partition tables, the
-- image library and the progress of a write, and of goldboot-registry the storage of hosted images.
--
-- The parts and their files:
--
-- Base: shared notation. Booleans and tests (Tests), lists over the native numbers (Lists), results
-- with one constructor for each cause of an error (Outcome), big-endian integers (Bytes), sequential
-- readers with `read_exact` and `read_be` (Stream), positioned writes to a file (File), and the laws
-- of `bit_xor` (Xor).
-- Crates: the third-party functions (SHA-256, AES-256-GCM, zstd, zlib, hex) as a record, and what
-- their documentation promises.
-- Format: the sections of a `.gb` file, goldboot-image/src/lib.rs `PrimaryHeader`, `ProtectedHeader`,
-- `Directory`, `DigestTable` and `Cluster`. Write and Read are the derived binrw code, field by field.
-- Manifest: `ManifestBlob::read_from` and `write_to`, with their length-prefixed sections.
-- Reference: `ImageRef::parse`, `validate` and its display, and the checks of their segments.
-- Handle: `ImageHandle::open`, `load`, `read_manifest_blob`, `cluster_region_bounds` and
-- `compute_content_id`.
-- Qcow: goldboot-image/src/qcow, `Qcow3::open`, the L1 and L2 tables, the contents of a cluster,
-- snapshots and `revert`.
-- Convert: `ImageHandle::from_qcow`. State has the variables of the loop and its steps on one block,
-- Loop the walk over the tables, Image the sections around the cluster region. Blocks is the
-- specification, the allocated clusters of a disk read with no image in view; Stored, Represents,
-- Steps, Runs and Tables are the invariant of the loop.
-- Apply: `ImageHandle::write`, `stream_write` and `verify`, with the ordinals that index nonces.
-- Gpt: goldboot/src/gpt.rs. Crc is `crc32`, and Crc.Serial its reference; Utf16 the encoding of names;
-- Entry has `guid_from_disk`, `guid_to_disk`, `parse_entry` and `entry_to_disk`, Table has `read_gpt`
-- and `write_gpt_table`, Write has `write_gpt`, and Fixup has `extend_last_partition`,
-- `fixup_backup_gpt`, `fix_protective_mbr` and `find_esp`. Found says when `read_gpt` finds a table;
-- Fixup.Sectors and Fixup.Chosen have the lemmas on the patched headers and the chosen partition, and
-- Sealed those on the checksums and the bytes beside them.
-- Files: the calls of `std::fs` and `std::path` that the two stores make, on a list of files with their
-- paths and a list of directories. A path is the list of components that the system resolves it to:
-- `join` splits a text at its slashes, starts anew where it begins with one, and goes up for "..", so
-- that a text that names no single component leads elsewhere. There are no symbolic links.
-- Registry: goldboot-registry/src/storage.rs, `Storage::image_path`, `open` and `put`, which returns
-- the files that it leaves together with its result, so that a put that fails is seen, too.
-- Library: goldboot/src/library.rs, `ImageLibrary::image_path`, `add_built`, `delete` and
-- `find_by_ref`. Addressed has the references with a path, Prune the directories that a delete removes.
-- Gui: goldboot/src/gui/state.rs, `WriteProgress` and the calls by which the write and verify threads
-- drive it. `write` and `verify` of Apply collect those calls, and Gui replays them. Hooks is
-- `post_write_hooks`, where the resize of a file system by other programs is a parameter.
--
-- How the code corresponds. A file, a disk and a string are lists of bytes, and a byte is a native
-- number. A seek to `Start(n)` followed by reads works on `drop n file`; `write_at` is a seek and a
-- `write_all`, which fills a gap with zeros. A disk is a regular file, which grows, or a device, which
-- does not. Casts such as `as u32` are written `% 2 ^ 32`. A panic of the program (an index out of
-- bounds, a subtraction below zero) is the error `panicked`. Progress callbacks are collected in a list
-- by `write`, `stream_write` and `verify`, and left out of the conversion. The random bytes and the
-- clock that the conversion draws are the record `Draws`.
-- A string in the registry, the library and the references is the list of its bytes; the name of a
-- partition is the list of its characters. The last eight bytes of a `Uuid` are one number.
--
-- Bounds and fuel. The loops recurse on the lists they walk. Only `compute_content_id` runs on fuel: one
-- step for each byte of the file and one more, which is enough since a step that goes on takes a byte.
-- `1 << cluster_bits` is `2 ^ cluster_bits`, for the cluster sizes that qcow2 has.
--
-- The table functions take 64-bit overflow and a slice out of range as a panic. Directories are pruned
-- along the components of a path, and so recursion on the path ends.
--
-- Not modelled: the virtual disk as a stream (`Qcow3Reader`), `parse_manifest`, the listings `list` of
-- the registry and `find_all` of the library, the HTTP server and client, the builder, which drives
-- other programs, the command line, and the screens with their clock and speeds. Reading and writing of
-- disks does not fail except at the end of a file or a device, and no other process touches the files.
pub mod Base
pub mod Crates
pub mod Format
pub mod Manifest
pub mod Reference
pub mod Qcow
pub mod Handle
pub mod Apply
pub mod Convert
pub mod Gpt
pub mod Gui
pub mod Files
pub mod Registry
pub mod Library
