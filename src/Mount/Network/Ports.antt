-- ===== src/Mount/Network/Ports.antt =====
-- The ranges of what nfs_options2pmap of utils/mount/network.c gives.
use nfs_utils.Common.{
  ℕ, ◌≤◌, ◌≡◌, ◌≢◌, ◌⊎◌, inr, Bool, true, ◌&&◌, Option, none, some, arith, leb, codes, pos, negsuc,
}
use nfs_utils.Mount.Options.{
  MountOptions, po_get, po_get_numeric, Numeric, po_found, po_bad_value, po_not_found,
}
use nfs_utils.Mount.Network.{
  Databases, Pmap, in_bounds, pmap, both, checked_version, nfs_nfs_program, nfs_nfs_protocol,
  nfs_nfs_port, nfs_mount_program, nfs_mount_version, nfs_mount_protocol, nfs_mount_port,
  nfs_options2pmap, nfsproto_rdma,
}
use nfs_utils.Mount.Version.{nfs_nfs_version, v_default}

in_bounds-some :
    (ok : ℕ → Bool) (absent : ℕ) (n : Numeric) (v : ℕ)
    → in_bounds ok absent n ≡ some v
    → (ok v ≡ true) ⊎ (v ≡ absent)
in_bounds-some ok absent po_not_found v h = inr (ground (arith, h))
in_bounds-some ok absent po_bad_value v h = absurd (ground (arith, h))
in_bounds-some ok absent (po_found (pos n)) v h = ground (arith, h)
in_bounds-some ok absent (po_found (negsuc n)) v h = absurd (ground (arith, h))

port_bound : (n : Numeric) (v : ℕ) → in_bounds (λ tmp. leb tmp 65535) 0 n ≡ some v → v ≤ 65535
port_bound n v h = ground (arith, in_bounds-some (λ tmp. leb tmp 65535) 0 n v h)

version_bound :
    (n : Numeric) (v : ℕ) → in_bounds (λ tmp. leb 1 tmp && leb tmp 4) 0 n ≡ some v → v ≤ 4
version_bound n v h = ground (arith, in_bounds-some (λ tmp. leb 1 tmp && leb tmp 4) 0 n v h)

pmap-some :
    (prog vers prot port : Option ℕ) (p : Pmap)
    → pmap prog vers prot port ≡ some p
    → (vers ≡ some p.pm_vers) × (port ≡ some p.pm_port)
pmap-some prog vers prot port p h = ground (arith, h)

both-some :
    (nfs mnt : Option Pmap) (a b : Pmap)
    → both nfs mnt ≡ some (a, b)
    → (nfs ≡ some a) × (mnt ≡ some b)
both-some nfs mnt a b h = ground (arith, h)

-- If the options are accepted, both ports fit in 16 bits and the version of the mount protocol is 4
-- at most.
pub nfs_options2pmap_bounds :
    (db : Databases) (options : MountOptions) (nfs mnt : Pmap)
    → nfs_options2pmap db options ≡ some (nfs, mnt)
    → (nfs.pm_port ≤ 65535) × (mnt.pm_port ≤ 65535) × (mnt.pm_vers ≤ 4)
unfolding nfs_options2pmap nfs_nfs_port nfs_mount_port nfs_mount_version
nfs_options2pmap_bounds db options nfs mnt h =
    let version =
      nfs_nfs_version (codes "nfs") options (record { major = 0; minor = 0; v_mode = v_default }) in
    let (a, b) =
      both-some
        (pmap (nfs_nfs_program db options) (checked_version version) (nfs_nfs_protocol db options)
          (nfs_nfs_port options))
        (pmap (nfs_mount_program db options) (nfs_mount_version options)
          (nfs_mount_protocol db options) (nfs_mount_port options))
        nfs mnt h in
    let (_, nfs_port) =
      pmap-some (nfs_nfs_program db options) (checked_version version) (nfs_nfs_protocol db options)
        (nfs_nfs_port options) nfs a in
    let (mnt_vers, mnt_port) =
      pmap-some (nfs_mount_program db options) (nfs_mount_version options)
        (nfs_mount_protocol db options) (nfs_mount_port options) mnt b in
    (
      port_bound (po_get_numeric options (codes "port")) nfs.pm_port nfs_port,
      port_bound (po_get_numeric options (codes "mountport")) mnt.pm_port mnt_port,
      version_bound (po_get_numeric options (codes "mountvers")) mnt.pm_vers mnt_vers,
    )

-- Without the option mountproto, the mount daemon is never asked over RDMA.
nfs_mount_protocol_lem :
    (db : Databases) (options : MountOptions)
    → po_get options (codes "mountproto") ≡ none
    → nfs_mount_protocol db options ≢ some nfsproto_rdma
unfolding nfs_mount_protocol
nfs_mount_protocol_lem db options h e = ground (arith, h, e)
