-- ===== src/Lib.antt =====
-- darling-dmg reads Apple disk images and the HFS+ volumes in them. Its parts are byte sources
-- stacked on each other: a file, a part of it, a partition of a disk image that is decompressed as
-- it is read, a fork of the file system, each behind a cache of blocks; on top of them stand the
-- volume, its B-trees and the catalog, which the FUSE front end calls.
--
-- Common has the shared helpers: tests and the conditional, lists measured by native numbers,
-- machine words, and Result, whose errors are the exceptions of src/exceptions.h, an assert that
-- does not hold, a memory fault for an access that the code does not check, one for a read behind
-- the input of a decoder, and the model's own error of a loop that has used up its rounds. A buffer
-- that a call fills is returned, as a list of bytes; an int32_t is kept as its bit pattern.
--
-- Io is src/Reader.cpp, src/SubReader.cpp and src/MemoryReader.cpp: the abstract class Reader as a
-- record of functions, and in Io/Serves the contract of a byte source, which the readers meet and
-- their clients take as a hypothesis.
--
-- Cache/Zone is src/CacheZone.cpp: the map and the age list, with iterators as numbers of nodes.
-- Cache/Reader is src/CachedReader.cpp: read, nonCachedRead and their loops. The bytes that lie on
-- the stack where an array is not filled are an argument, undef. The loop of a read is given as
-- many rounds as there are bytes to read, since each round reads at least one.
--
-- Adc is src/adc.cpp; Adc/Phrases has an encoder of the three kinds of phrases, independent of the
-- decoder. Its loop has a round for each byte of the input.
--
-- Dmg is src/dmg.h and Dmg/Partition src/DMGPartition.cpp: the map from sectors to runs as a list
-- in the order of its keys, the read loop, one run, and the advice. Dmg/Partition/Cover says when
-- the runs of a table cover a partition and Dmg/Partition/Image what the partition then holds. The
-- decompressor of a run is an argument there.
--
-- Dmg/Decompressor is src/DMGDecompressor.cpp. Its Stream is the loop of DMGDecompressor_Zlib and
-- DMGDecompressor_Bzip2, which differ in the value they return at the end of a stream: one call of
-- inflate or BZ2_bzDecompress is an argument, advance, and Stream/Library says what the loop relies
-- on. The loop has a round for each byte of the input and of the output, since a call makes
-- progress on one of them, and the skipping to an offset one for each byte skipped. Window is
-- DMGDecompressor_ADC over the decoder of Adc, with a round for each byte of the input, and
-- Window/Phrases is about runs that fit its buffers; Lzfse is DMGDecompressor_LZFSE, with
-- lzfse_decode_buffer as an argument; Create is the choice between them, and Create/Runs puts them
-- under a partition.
--
-- Hfs/Fork is src/HFSFork.cpp: the extents of a fork, the search for the first one of a read, and
-- the loop that reads. The search in the overflow tree is an argument, which its tests fill with
-- the one of Hfs/Overflow. The search for the first extent has a round for each block before the
-- offset, since each load adds a block at least, and the read loop one for each byte.
--
-- Endian is src/be.h. Gpt is src/GPTDisk.cpp with src/gpt.h; a number has at most eight hexadecimal
-- digits, for which its printing has the rounds. Apm is src/AppleDisk.cpp with src/apm.h: Apm/Guess
-- says for which maps the guess of the block size is right, and Apm/Entries lays out a map.
-- MacBinary is src/MacBinary.cpp.
--
-- Hfs/Volume is src/HFSVolume.cpp with the structures of src/hfsplus.h and src/hfs.h; Hfs/Overflow
-- is src/HFSExtentsOverflowBTree.cpp on the records of the leaves. Hfs/Node is src/HFSBTreeNode.h,
-- and Hfs/Node/Layout an independent description of a node. Hfs/Search is the constructor and
-- traverseTree of src/HFSBTree.cpp, where the number of nodes that the descent may read is bounded,
-- since a broken tree leads it round for ever, and a tree of some depth takes one more; Hfs/Leaves
-- is findLeafNodes, with a round for each node of the tree. Hfs/Catalog is the path lookup and the
-- times of src/HFSCatalogBTree.cpp; Hfs/Directory is its collecting of the records of a folder from
-- the leaves, where the conversions and comparisons of ICU are arguments, and Hfs/Directory/Items
-- lays such records out. Hfs/Names is the suffix of resource forks in src/HFSHighLevelVolume.cpp,
-- and Hfs/Xattr its stat and its extended attributes with openFile of src/HFSCatalogBTree.cpp,
-- where stat of the catalog, the construction of a fork and the attribute tree are arguments.
--
-- Fuse is src/main-fuse.cpp: openDisk with the probes of the disks, among them isDMG of
-- src/DMGDisk.cpp, the error codes, and the operations with what the volume gives as an argument.
--
-- Not modelled: the reading of compressed files, the attribute tree, the resource map and the
-- loading of the partitions of a disk image from its property list. The command line, libfuse, the
-- XML and base64 libraries, zlib, bzip2, lzfse and ICU are outside the program's own logic.
pub mod Common
pub mod Io
pub mod Cache
pub mod Adc
pub mod Dmg
pub mod Endian
pub mod Hfs
pub mod Gpt
pub mod Apm
pub mod MacBinary
pub mod Fuse
