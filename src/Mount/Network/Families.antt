-- ===== src/Mount/Network/Families.antt =====
-- The address families that utils/mount/network.c takes from the options.
use nfs_utils.Common.{
  ℕ, ◌≡◌, ◌↔◌, inl, inr, Option, none, arith, codes, ℤ, pos, negsuc, Option-cases,
}
use nfs_utils.Mount.Options.{MountOptions, po_get, po_rightmost}
use nfs_utils.Mount.Network.{
  Databases, Family, nfs_get_proto, transport_number, transport_family, nfs_nfs_protocol,
  nfs_nfs_proto_family, nfs_mount_protocol, nfs_mount_proto_family, nfs_transport_opttbl,
}

-- Both transport options are refused, or neither is.
abbrev Agree : Option Family → Option ℕ → Type 0
Agree family number = (family ≡ none) ↔ (number ≡ none)

transport-Agree :
    (db : Databases) (default : Family) (options : MountOptions) (i : ℤ)
    → Agree (transport_family db default options i) (transport_number db options i)
unfolding transport_family transport_number
transport-Agree db default options (pos n) = elim (Option-cases (po_get options (codes "proto"))) [
  | inl unset ↦ ground (arith, unset)
  | inr (option, set) ↦ elim (Option-cases (nfs_get_proto db option)) [
    | inl unknown ↦ ground (arith, set, unknown)
    | inr ((family, number), known) ↦ ground (arith, set, known)
  ]
]
transport-Agree db default options (negsuc n) = ground arith

-- The address family of the NFS server is refused exactly if its transport is, and the same holds for
-- the mount daemon.
pub proto_family_lem :
    (db : Databases) (default : Family) (options : MountOptions)
    → ((nfs_nfs_proto_family db default options ≡ none) ↔ (nfs_nfs_protocol db options ≡ none))
      × ((nfs_mount_proto_family db default options ≡ none)
          ↔ (nfs_mount_protocol db options ≡ none))
unfolding nfs_nfs_proto_family nfs_nfs_protocol nfs_mount_proto_family nfs_mount_protocol
proto_family_lem db default options =
    let nfs = transport-Agree db default options (po_rightmost options nfs_transport_opttbl) in
    (
      nfs,
      elim (Option-cases (po_get options (codes "mountproto"))) [
        | inl unset ↦ ground (arith, unset, nfs)
        | inr (option, set) ↦ elim (Option-cases (nfs_get_proto db option)) [
          | inl unknown ↦ ground (arith, set, unknown)
          | inr ((family, number), known) ↦ ground (arith, set, known)
        ]
      ],
    )
