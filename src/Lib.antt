-- ===== src/Lib.antt =====
-- Verification library of the test suite for virtio block devices and the blk-proxy.
--
-- The suite is C code that runs under a Test Environment (TE): its library, block-ts/lib, reads what
-- the tester asks for, writes configuration files for the processes under test, starts storage
-- backends, and runs jobs on agents. Which file models which part:
--
--   Conf        block-ts/lib/tsapi-conf.c: sections of key and value pairs. Conf is the list of
--               sections, tsapi_conf_section_get, tsapi_conf_append and flush_conf_to_str work on it;
--               Conf/Parse has the parsing of options, Conf/Read the parsing of files, Conf/Write the
--               writing of files. Conf/Sections, Conf/Flush, Conf/Lines, Conf/Reread and Conf/Written
--               hold proofs.
--   BlkProxy    block-ts/lib/tsapi-blkproxy.c: tsapi_blkproxy_create_conf, whose loop is build_conf and
--               whose other steps are in BlkProxy/Create, and the report of the masks of a
--               configuration (BlkProxy/Masks). BlkProxy/Process has the handle, the command line and the
--               environment of the process, up to tsapi_blkproxy_init; BlkProxy/Lifecycle its start and
--               stop. Proofs: BlkProxy/Build, Counting, Crossing, Launch, Arguments, Reactor and Running.
--   Rbd         block-ts/lib/block-ts.c: block_ts_test_get_features and the variable RBD_FEATURES.
--               Proofs: Rbd/Features.
--   Backend     block-ts/lib/tsapi-backend.c: modes, types and callbacks of a backend. Backend/Inventory
--               is block-ts/lib/tsapi-inventory.c; Backend/Prepare the parameters and scripts of
--               block-ts/lib/tsapi-ceph.c and block-ts/lib/tsapi-nvme.c; Backend/Server the start and
--               the stop. Proofs: Backend/Types and Backend/Devices.
--   Ceph        block-ts/lib/tsapi-ceph.c: the command lines of the Ceph programs. Ceph/Jobs is the
--               life of a job and block_ts_ceph_cluster_get_fsid, Ceph/Cluster is
--               block_ts_ceph_cluster_conf_create, and Ceph/Daemons the start of the monitor, the OSD and
--               the logger, all of block-ts/lib/block-ts.c. Ceph/Fill is tsapi_ceph_fill_devices. Proofs:
--               Ceph/Live, Options and Logger.
--   Fio         block-ts/lib/tsapi-fio.c: the timeout of a run and the processes of several runs;
--               Fio/Options is the reading of the options, and Fio/Report what the MI log says of a
--               run. Proofs: Fio/Reading, Fio/Report and Fio/Multi.
--   Plugin      block-ts/lib/tsapi-plugin.c: loading and enabling the Onload plugin.
--   Gtest       block-ts/lib/block-ts.c: the environment of a gtest program, and the conversion of its
--               log, block_ts_log_conv_run. Proofs: Gtest/Conversion and Gtest/Environment.
--   Suite       block-ts/blk-proxy/prologue.c and epilogue.c: the tests that set the suite up and take it
--               down. Proof: Suite/Runs; Suite/Model is a concrete instance of all libraries.
--   Package     the tests of block-ts/blk-proxy. Package has how a test runs, with its label `cleanup`, the
--               steps that the tests of FIO share, and readwrite/fio.c; Package/ReadWrite is
--               readwrite/fio_pattern.c and fio_stability.c; Package/StabilityPerf is
--               readwrite/fio_stability_perf.c; Package/Multi is readwrite/fio_multi.c;
--               Package/Stress is stress/stress.c; Package/Network is network_stimuli; Package/Config
--               is config; Package/Fs is fs; Package/XfsSuite is xfs and mke2fs; Package/Performance is
--               performance. Proofs: Package/Owned (what the variables of a test own), Found, Counts,
--               Pattern, Balance, Leak, Benches, Drivers, Setting, Restart, Scene, Reverse and Stimuli.
--               Package/Model has concrete libraries.
--   Tools       block-ts/lib/tool: the benchmarks compilebench, dbench, fs_mark and iozone; what
--               ts-tool.h defines for each of them is there once. Tools/Create is how they are made.
--               Proofs: Tools/Owned (how steps change a count of jobs) and Tools/Balance.
--   FileSystem  block-ts/lib/tsapi-mke2fs.c and tsapi-fs.c: making, checking and mounting a file system.
--               FileSystem/Xfs is block-ts/lib/tsapi-xfs.c. Proofs: FileSystem/Balance and Order.
--   Virtio      block-ts/lib/tsapi.c: virtio block devices, drivers and mount directories. Proofs:
--               Virtio/Devices.
--   Te          the library of TE, which is not part of the repository: a record of operations that
--               the models take as an argument, with what is documented of it as IsDocumented, and with
--               IsPlentiful for runs in which memory suffices. Te/Model is a concrete instance;
--               Te/Files is how block-ts/lib/tsapi.c writes files.
--   Base        shared names, Boolean tests, lists, C strings, results with a state, and bits.
--
-- Tests modules hold runs of the code and the theorems at concrete inputs.
--
-- How the parts interact: options of the command line are parsed by Conf and become the configuration
-- of the blk-proxy in BlkProxy, with values that Backend/Inventory takes from the local tree; Backend
-- finds the mode of the storage, for which Backend/Server fills an inventory file and runs a script;
-- Ceph/Cluster writes a configuration by Conf. Suite calls them in the order of the prologue: the type
-- of the Backend selects the callbacks, and then BlkProxy makes the configuration, puts the process into
-- the Configurator and starts it. The tests of Package then read the options of FIO by Fio/Options for the
-- devices that Virtio finds, and run FIO, some of them while drivers or links go away; Package/Config stops
-- and starts the process by BlkProxy/Lifecycle; and Package/Fs makes and runs the benchmarks of Tools on a
-- file system that FileSystem makes, mounts and makes anew.
--
-- Conventions. A function that returns te_errno is an Exec, a function from a state W to a result and
-- a state: W stands for everything outside of the program. A C string is the list of its bytes without
-- the terminator, so that a text has no NUL; a NULL pointer is `none`. An unsigned number is reduced
-- modulo a power of two where the source may wrap around, and an int is its bits where only its bits
-- matter. Two loops are on fuel. That of count_bits_in_mask has fuel 65: an unsigned long has 64
-- bits, each round clears one of them, and one more round ends the loop. That of block_ts_log_conv_run,
-- which waits for messages without a timeout, takes its fuel as an argument: two more rounds than there
-- are messages are enough. Of an error code with the module that reports it (TE_RC) the model keeps the
-- code.
--
-- Not modelled: memory as such, so neither free() nor leaks, and logging. A failing te_string_append is
-- modelled in Conf, Rbd, Backend and Ceph, but not for the paths of get_local_config_name and
-- get_agent_config_name and for the keys of the report of masks; a failing strdup of the name or the
-- delimiter of a new section is not modelled, since the source does not look for it. The configuration
-- that tsapi_conf_read_from_file fills starts without a section of no name. An error of CHECK_RC, which
-- ends a test, is an error of the function that calls it. The tests of block-ts/rbd are not modelled.
-- Several tests of Package begin where they have their RPC servers and their parameters. In Package/Multi
-- and Package/Stress the applications that the source leaves uninitialised are NULL, and the contexts of a
-- failed tsapi_fio_multi_init are not kept. An error of CHECK_RC in a clean-up ends it. A test of FIO
-- that reads through a NULL pointer ends there, with the error `ended` and without its clean-up; for the
-- tests of Package/Fs and Package/XfsSuite what they do with a NULL pointer is a parameter. What making a
-- benchmark writes to the options of its caller is not kept. What lies in memory behind a key that has no
-- NUL, and behind an argument of the command line, is a parameter too.
-- tsapi_blkproxy_init is modelled for a handle that is not NULL.
pub mod Base
pub mod Te
pub mod Conf
pub mod BlkProxy
pub mod Rbd
pub mod Backend
pub mod Ceph
pub mod Fio
pub mod Plugin
pub mod Gtest
pub mod FileSystem
pub mod Virtio
pub mod Suite
pub mod Tools
pub mod Package
