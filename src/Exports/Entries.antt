-- ===== src/Exports/Entries.antt =====
-- getexportent of support/nfs/exports.c: the next export of a file, and its default options.
-- `secinfo_flags` and `fsidnum_by_path` are as in Options; `realpath` is the C library's.
pub mod Paths
pub mod RoundTrip
use nfs_utils.Common.{
  ℕ, ◌-◌, Bool, true, false, not, ◌&&◌, Option, none, some, [], ◌==◌, if◌then◌else◌, Bytes, codes,
  cut, take, peek, drop,
}
use nfs_utils.Exports.{Flags, Exportent, static_exportent, init_exportent}
use nfs_utils.Exports.Xio.{Xfile, xfile, xskip, xgettok, Gettok, nothing, refused, token}
use nfs_utils.Exports.Options.{parseopts, parsed, bad_option, path_size}

-- The static variables; `exp` is what the buffer on the stack holds.
pub record ExportsFile : Type 0 where
  pub efp : Xfile
  pub first : Bool
  pub has_default_opts : Bool
  pub has_default_subtree_opts : Bool
  pub def_ee : Exportent
  pub exp : Bytes

-- setexportent on a file that opens; `exp` is what the stack happens to hold.
unfoldable pub setexportent : Bytes → Bytes → ExportsFile
setexportent text exp = record {
  efp = xfile text;
  first = true;
  has_default_opts = false;
  has_default_subtree_opts = false;
  def_ee = static_exportent;
  exp = exp;
}

-- `none` is the end of the fuel in this and the next function.
unfoldable pub getpath : Xfile → ℕ → Option (Gettok × Xfile)
getpath efp len = elim (xskip efp (codes " \t\n")) [ none ↦ none | some f ↦ xgettok f 0 len ]

unfoldable pub getexport : Xfile → ℕ → Option (Gettok × Xfile)
getexport efp len = elim (xskip efp (codes " \t")) [ none ↦ none | some f ↦ xgettok f 0 len ]

-- sizeof(exp)
abbrev pub exp_size : ℕ
exp_size = 512

-- `ok` is 0, -1 or 1 and the buffer is written only for 1.
pub data Next : Type 0 where
  next : Gettok → ExportsFile → Next
  failed : ExportsFile → Next
  out_of_fuel : Next

abbrev store_token : Gettok → ExportsFile → ExportsFile
store_token (token t) f = record f { exp = t }
store_token _ f = f

unfoldable pub read_export : ExportsFile → Next
unfolding getexport
read_export f = elim (getexport f.efp exp_size) [
  | none ↦ out_of_fuel
  | some (ok, efp) ↦ next ok (store_token ok (record f { efp = efp }))
]

-- A new line: the path into fresh defaults, and the first client.
unfoldable pub read_path : Bool → ExportsFile → Next
unfolding init_exportent getpath read_export
read_path fromkernel f =
    let ee = init_exportent f.def_ee fromkernel in
    let g = record f { has_default_opts = false; has_default_subtree_opts = false; def_ee = ee } in
    elim (getpath f.efp path_size) [
      | none ↦ out_of_fuel
      | some (token path, efp) ↦
          read_export (record g { efp = efp; def_ee = record ee { e_path = path } })
      | some (_, efp) ↦ failed (record g { efp = efp })
    ]

-- The first `if` of getexportent
unfoldable pub first_token : Bool → ExportsFile → Next
unfolding read_path read_export
first_token fromkernel f =
    if f.first
    then read_path fromkernel f
    else elim (read_export f) [ next nothing g ↦ read_path fromkernel g | r ↦ r ]

-- The default options: a token that starts with a minus, or such a leftover in the buffer.
unfoldable pub default_options :
    Flags → (Bytes → Bool → Option ℕ) → Bool → Gettok → ExportsFile → Next
unfolding parseopts read_export
default_options secinfo_flags db fromkernel ok f =
    if peek f.exp == b'-' && not fromkernel
    then elim (parseopts secinfo_flags db (some (drop 1 f.exp)) f.def_ee) [
      | bad_option ep ↦ failed (record f { def_ee = ep })
      | parsed ep had ↦
          read_export
            (record f { def_ee = ep; has_default_opts = true; has_default_subtree_opts = had })
    ]
    else next ok f

-- Host and option list; a missing host is every host.
pub data ClientToken : Type 0 where
  client : Bytes → Option Bytes → ClientToken
  bad_option_list : ClientToken

abbrev any_host : Bytes → Bytes
any_host [] = codes "*"
any_host host = host

unfoldable pub close_options : Bytes → Bytes → ClientToken
unfolding cut
close_options host opt = elim (cut b')' opt) [
  | some (inner, []) ↦ client (any_host host) (some inner)
  | _ ↦ bad_option_list
]

unfoldable pub split_client : Bytes → ClientToken
unfolding cut close_options
split_client exp = elim (cut b'(' exp) [
  | none ↦ client exp none
  | some (host, opt) ↦ close_options host opt
]

abbrev pub resolved : (Bytes → Option Bytes) → Exportent → Exportent
resolved realpath ep = elim (realpath ep.e_path) [
  | none ↦ ep
  | some rpath ↦ record ep { e_path = take (path_size - 1) rpath }
]

unfoldable pub read_client :
    Flags → (Bytes → Bool → Option ℕ) → (Bytes → Option Bytes) → ExportsFile → Option Exportent
unfolding split_client parseopts
read_client secinfo_flags db realpath f = elim (split_client f.exp) [
  | bad_option_list ↦ none
  | client host opt ↦
      elim (parseopts secinfo_flags db opt (record f.def_ee { e_hostname = some host })) [
        | bad_option _ ↦ none
        | parsed ep _ ↦ some (resolved realpath ep)
      ]
]

-- `none` outside is the end of the fuel, `none` inside is NULL.
unfoldable pub getexportent :
    Flags
    → (Bytes → Bool → Option ℕ)
    → (Bytes → Option Bytes)
    → Bool
    → ExportsFile
    → Option (Option Exportent × ExportsFile)
unfolding first_token default_options read_client
getexportent secinfo_flags db realpath fromkernel f = elim (first_token fromkernel f) [
  | out_of_fuel ↦ none
  | failed g ↦ some (none, g)
  | next refused g ↦ some (none, g)
  | next ok g ↦ elim (default_options secinfo_flags db fromkernel ok (record g { first = false })) [
    | out_of_fuel ↦ none
    | failed h ↦ some (none, h)
    | next refused h ↦ some (none, h)
    | next nothing h ↦
        let e = record h { exp = [] } in some (read_client secinfo_flags db realpath e, e)
    | next (token t) h ↦ some (read_client secinfo_flags db realpath h, h)
  ]
]
