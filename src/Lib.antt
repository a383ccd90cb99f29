-- ===== src/Lib.antt =====
-- A model of parts of nfs-utils, the programs and daemons that serve and mount NFS file systems.
--
-- Three libraries carry the logic that most of its programs share, and the model follows them.
--
-- utils/mount: mount.nfs is given a device name and a string of options.
--   Mount/Token: token.c. next_token and the loop that calls it take a string apart at a delimiter
--     outside double quotes. Children: Words (what a word is), Tokens (the loop).
--   Mount/Options: parse_opt.c. po_split, with the tokenizer, makes a group of options of the
--     string, po_join writes one, and the other po_ functions read and change a group. Children:
--     Lookup (po_get, po_rightmost), Removal (po_remove_all), Counts (the count, po_dup, po_destroy,
--     po_replace), Spelling (one option and its text), RoundTrip (po_split and po_join).
--   Mount/Devname: parse_dev.c. nfs_parse_devname finds the server and the path in a device name.
--   Mount/Network: the part of network.c that reads a group of options into the RPC program, version,
--     transport, port and address family of server and mount daemon, with nfs_get_proto of
--     support/nfs/getport.c and nfs_getrpcbyname of support/nfs/rpc_socket.c, built with TI-RPC and
--     IPv6. Children: Ports, Families. Mount/Version: nfs_nfs_version of the same file, with the
--     children Counting, Modes and Dotted.
--
-- support/nfs: what daemons and tools share.
--   Nfs/Qword: cacheio.c. The words of the files by which daemons talk to the kernel's caches:
--     Qword/Encode and Decode for writing and reading, Qword/Bounds for the buffers.
--   Nfs/Wildmat: wildmat.c. Shell patterns for host names. Wildmat/Spec defines what a match is,
--     Wildmat/Verdict and Closed are about the outcomes of DoMatch.
--   Nfs/Conf: conffile.c. The configuration: hash buckets of bindings and a queue of operations that
--     belong to transactions. Conf/Buckets, Removal and Single are about the bindings, Conf/Reads
--     about the typed look-ups, Conf/Transactions about conf_end, Conf/Parse about the parser of the
--     file and Conf/Load about loading it: parse into the queue, empty the buckets, end the
--     transaction.
--
-- support/nfs/exports.c and support/export: the table of exports and of the clients they go to.
--   Exports: struct exportent (support/include/nfslib.h) with the flags of nfs/export.h, and
--     init_exportent. Its children follow exports.c: Xio (xio.c, the characters and tokens of the
--     file; Xio/Quoting: what fprintpath quotes), Secinfo (the security flavors and the transport
--     policies of an export and the flags each of them has), Squash (the lists of ids, with
--     Squash/Ends), Options (parseopts with mkexportent and updateexportent, with the settings of
--     support/reexport/reexport.c; Options/Bounds and Options/Refusals), Print (putexportent;
--     its children take the printed words group by group, Print/RoundTrip all of them and Print/Line
--     the line) and Entries (getexportent, with Entries/Paths and Entries/RoundTrip). An option list is cut into words as the loop of parseopts
--     cuts it, each word becomes a `Keyword` by the chain of tests, and a function for each kind of
--     keyword changes the export.
--   Exports/Table: export.c. One hash table for each type of client, over one list of records, and
--     the calls that search and change it; a record points to its client, which Clients looks up.
--     Children: Sound (where the records of one hash stand), Adding and Calls (export_add and the
--     calls keep that), Search (the search from p_first to p_last), Created (a look-up of what has
--     been created).
--   Clients: client.c. A client is a record with its type; the lists of clients are a function of the
--     type. Masks has the subnetworks, Names the names that client_compose joins, Lookup the tests
--     of a host and the calls that change the lists. Names/Members and Sorted, Masks/Prefixes and
--     Lookup/Compose, Tables and Again have the proofs. Wildcards are those of Nfs/Wildmat.
--
-- A function of the source has its name here, and one that changes state takes the state and returns
-- it; a pointer to an export or a client is its address or its place. A C string is the list of its
-- bytes without the NUL (Common/Text), a pointer into it the rest of the list from there on.
-- unsigned int and the conversions of strtol keep their width.
--
-- Fuel and bounds: the loop over the tokens has the length of the string and one more, and that is
-- enough since every token takes a byte; DoMatch has the length of the pattern and one more, since
-- every call of it is on a shorter pattern; xskip, xgettok and the loop of parsesquash have the
-- bytes that are left and one more, since every round takes a byte or ends; conf_get_list has the
-- length of the value and one more.
-- The jumps of conf_get_section to `retry` and the depth of includes have no bound in the code, so
-- they are arguments, and a result tells that they did not suffice.
--
-- Parameters stand for what lies outside: the environment (getenv), the netconfig, protocol and RPC
-- databases, reading a file and listing a directory, the flags that may differ between security
-- flavors (get_export_features), the daemon that keeps fsid numbers, realpath, the resolver, the
-- netgroups, inet_pton, and what wildmat returns where DoMatch has read past the end of a
-- pattern. Memory allocation succeeds. Messages and errno
-- are not modelled, except for the tokenizer's. Not modelled are the network, the kernel's files, the
-- daemons themselves, the choice of the export for a request, export_read, the identity mapping, the
-- integers of cacheio.c, base64 and the writing of a file back in conffile.c,
-- and the branches of exports.c that are built for debugging only.
pub mod Common
pub mod Mount
pub mod Nfs
pub mod Exports
pub mod Clients
