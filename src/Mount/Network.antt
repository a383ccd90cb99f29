-- ===== src/Mount/Network.antt =====
-- The part of utils/mount/network.c that reads the mount options into the program, version,
-- transport and port of the NFS server and of its mount daemon, and nfs_get_proto of
-- support/nfs/getport.c, built with TI-RPC, and nfs_getrpcbyname of support/nfs/rpc_socket.c.
-- A function that returns 0 is `none`; what it has then written through its pointers is not modelled,
-- but for nfs_nfs_version. Messages and errno are not modelled.
pub mod Ports
pub mod Families
use nfs_utils.Common.{
  ℕ, Bool, true, false, ◌&&◌, Option, none, some, List, [], ◌∷◌, ◌==◌, leb, ltb, if◌then◌else◌,
  Bytes, codes, str_eq, ℤ, pos, negsuc,
}
use nfs_utils.Mount.Options.{
  MountOptions, po_get, po_get_numeric, Numeric, po_found, po_bad_value, po_not_found, po_rightmost,
}
use nfs_utils.Mount.Version.{NfsVersion, v_default, nfs_nfs_version}

-- The libraries the options are checked against: the netconfig database (a netid's protocol family
-- and protocol name), the protocol numbers and the RPC program numbers.
pub record Databases : Type 0 where
  pub getnetconfigent : Bytes → Option (Bytes × Bytes)
  pub getprotobyname : Bytes → Option ℕ
  pub getrpcbyname : Bytes → Option ℕ

abbrev pub nfs_mnt_pgmtbl : List Bytes
nfs_mnt_pgmtbl = codes "mount" ∷ codes "mountd" ∷ []

abbrev pub nfs_nfs_pgmtbl : List Bytes
nfs_nfs_pgmtbl = codes "nfs" ∷ codes "nfsprog" ∷ []

abbrev pub nfs_transport_opttbl : List Bytes
nfs_transport_opttbl = codes "udp" ∷ codes "tcp" ∷ codes "rdma" ∷ codes "proto" ∷ []

-- IPPROTO_TCP, IPPROTO_UDP, NFSPROTO_RDMA, NFSPROG and MOUNTPROG
abbrev pub ipproto_tcp : ℕ
ipproto_tcp = 6

abbrev pub ipproto_udp : ℕ
ipproto_udp = 17

abbrev pub nfsproto_rdma : ℕ
nfsproto_rdma = 3939

abbrev pub nfsprog : ℕ
nfsprog = 100003

abbrev pub mountprog : ℕ
mountprog = 100005

pub data Family : Type 0 where
  af_unspec af_inet af_inet6 : Family

unfoldable pub nfs_getrpcbyname : Databases → ℕ → List Bytes → ℕ
nfs_getrpcbyname db program [] = program
nfs_getrpcbyname db program (name ∷ table) = elim (db.getrpcbyname name) [
  | some number ↦ number
  | none ↦ nfs_getrpcbyname db program table
]

abbrev pub family_of : Bytes → Family
family_of protofmly =
    if str_eq protofmly (codes "inet6")
    then af_inet6
    else if str_eq protofmly (codes "inet")
    then af_inet
    else af_unspec

unfoldable pub nfs_get_proto : Databases → Bytes → Option (Family × ℕ)
unfolding str_eq
nfs_get_proto db netid =
    if str_eq netid (codes "rdma")
    then some (af_inet, nfsproto_rdma)
    else if str_eq netid (codes "rdma6")
    then some (af_inet6, nfsproto_rdma)
    else elim (db.getnetconfigent netid) [
      | none ↦ none
      | some (protofmly, name) ↦ elim (db.getprotobyname name) [
        | none ↦ none
        | some number ↦ some (family_of protofmly, number)
      ]
    ]

-- The value between the bounds, the number for an option that is not there, or 0 returned.
abbrev pub in_bounds : (ℕ → Bool) → ℕ → Numeric → Option ℕ
in_bounds ok absent po_not_found = some absent
in_bounds ok absent po_bad_value = none
in_bounds ok absent (po_found (pos n)) = if ok n then some n else none
in_bounds ok absent (po_found (negsuc n)) = none

unfoldable pub nfs_nfs_program : Databases → MountOptions → Option ℕ
unfolding nfs_getrpcbyname po_get_numeric
nfs_nfs_program db options =
    in_bounds (λ tmp. ltb 0 tmp) (nfs_getrpcbyname db nfsprog nfs_nfs_pgmtbl)
      (po_get_numeric options (codes "nfsprog"))

unfoldable pub nfs_mount_program : Databases → MountOptions → Option ℕ
unfolding nfs_getrpcbyname po_get_numeric
nfs_mount_program db options =
    in_bounds (λ tmp. ltb 0 tmp) (nfs_getrpcbyname db mountprog nfs_mnt_pgmtbl)
      (po_get_numeric options (codes "mountprog"))

unfoldable pub nfs_nfs_port : MountOptions → Option ℕ
unfolding po_get_numeric
nfs_nfs_port options = in_bounds (λ tmp. leb tmp 65535) 0 (po_get_numeric options (codes "port"))

unfoldable pub nfs_mount_port : MountOptions → Option ℕ
unfolding po_get_numeric
nfs_mount_port options =
    in_bounds (λ tmp. leb tmp 65535) 0 (po_get_numeric options (codes "mountport"))

unfoldable pub nfs_mount_version : MountOptions → Option ℕ
unfolding po_get_numeric
nfs_mount_version options =
    in_bounds (λ tmp. leb 1 tmp && leb tmp 4) 0 (po_get_numeric options (codes "mountvers"))

abbrev pub proto_number : Option (Family × ℕ) → Option ℕ
proto_number none = none
proto_number (some (family, protocol)) = some protocol

-- The switch on the transport table's index.
unfoldable pub transport_number : Databases → MountOptions → ℤ → Option ℕ
unfolding nfs_get_proto po_get
transport_number db options (pos n) =
    if n == 0
    then some ipproto_udp
    else if n == 1
    then some ipproto_tcp
    else if n == 2
    then some nfsproto_rdma
    else if n == 3
    then (elim (po_get options (codes "proto")) [
      | none ↦ some 0
      | some option ↦ proto_number (nfs_get_proto db option)
    ])
    else some 0
transport_number db options (negsuc n) = some 0

unfoldable pub nfs_nfs_protocol : Databases → MountOptions → Option ℕ
unfolding transport_number po_rightmost
nfs_nfs_protocol db options =
    transport_number db options (po_rightmost options nfs_transport_opttbl)

unfoldable pub nfs_mount_protocol : Databases → MountOptions → Option ℕ
unfolding nfs_nfs_protocol nfs_get_proto po_get
nfs_mount_protocol db options = elim (po_get options (codes "mountproto")) [
  | some option ↦ proto_number (nfs_get_proto db option)
  | none ↦ elim (nfs_nfs_protocol db options) [
    | none ↦ none
    | some protocol ↦ some (if protocol == nfsproto_rdma then ipproto_tcp else protocol)
  ]
]

abbrev pub proto_family : Option (Family × ℕ) → Option Family
proto_family none = none
proto_family (some (family, protocol)) = some family

-- config_default_family is `default`; with IPV6_SUPPORTED every family is accepted.
unfoldable pub transport_family : Databases → Family → MountOptions → ℤ → Option Family
unfolding nfs_get_proto po_get
transport_family db default options (pos n) =
    if leb n 2
    then some af_inet
    else if n == 3
    then (elim (po_get options (codes "proto")) [
      | none ↦ some default
      | some option ↦ proto_family (nfs_get_proto db option)
    ])
    else some default
transport_family db default options (negsuc n) = some default

unfoldable pub nfs_nfs_proto_family : Databases → Family → MountOptions → Option Family
unfolding transport_family po_rightmost
nfs_nfs_proto_family db default options =
    transport_family db default options (po_rightmost options nfs_transport_opttbl)

unfoldable pub nfs_mount_proto_family : Databases → Family → MountOptions → Option Family
unfolding nfs_nfs_proto_family nfs_get_proto po_get
nfs_mount_proto_family db default options = elim (po_get options (codes "mountproto")) [
  | some option ↦ proto_family (nfs_get_proto db option)
  | none ↦ nfs_nfs_proto_family db default options
]

-- struct pmap
pub record Pmap : Type 0 where
  pub pm_prog : ℕ
  pub pm_vers : ℕ
  pub pm_prot : ℕ
  pub pm_port : ℕ

abbrev pub pmap_version : NfsVersion → ℕ
pmap_version version = elim version.v_mode [ v_default ↦ 0 | _ ↦ version.major ]

abbrev pub checked_version : Bool × NfsVersion → Option ℕ
checked_version (true, version) = some (pmap_version version)
checked_version (false, version) = none

abbrev pub pmap : Option ℕ → Option ℕ → Option ℕ → Option ℕ → Option Pmap
pmap (some prog) (some vers) (some prot) (some port) =
    some (record { pm_prog = prog; pm_vers = vers; pm_prot = prot; pm_port = port })
pmap _ _ _ _ = none

abbrev pub both : Option Pmap → Option Pmap → Option (Pmap × Pmap)
both (some nfs) (some mnt) = some (nfs, mnt)
both _ _ = none

-- The maps of the NFS server and of the mount daemon.
unfoldable pub nfs_options2pmap : Databases → MountOptions → Option (Pmap × Pmap)
unfolding nfs_nfs_program nfs_nfs_version nfs_nfs_protocol nfs_nfs_port nfs_mount_program
    nfs_mount_version nfs_mount_protocol nfs_mount_port
nfs_options2pmap db options =
    let version =
      nfs_nfs_version (codes "nfs") options (record { major = 0; minor = 0; v_mode = v_default }) in
    let nfs =
      pmap (nfs_nfs_program db options) (checked_version version) (nfs_nfs_protocol db options)
        (nfs_nfs_port options) in
    let mnt =
      pmap (nfs_mount_program db options) (nfs_mount_version options)
        (nfs_mount_protocol db options) (nfs_mount_port options) in
    both nfs mnt
