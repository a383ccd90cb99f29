-- ===== src/Exports/Print.antt =====
-- putexportent of support/nfs/exports.c: the line of /var/lib/nfs/etab for an export.
-- The options are a list of words, each printed with a comma behind it but the last; a list of ids
-- is printed with a comma behind each range, so its ranges are words of their own.
pub mod Words
pub mod Numbers
pub mod FlagWords
pub mod Flavors
pub mod Fsid
pub mod Plain
pub mod Group
pub mod Commas
pub mod RoundTrip
pub mod Line
use nfs_utils.Common.{
  ℕ, zero, suc, ◌+◌, ◌/◌, ◌%◌, Bool, true, false, not, ◌&&◌, ◌||◌, Option, none, some, List, [],
  ◌∷◌, ◌++◌, ltb, ◌==◌, if◌then◌else◌, Bytes, codes, length, is_space, ℤ, pos, negsuc, print_int,
  to_int, map,
}
use nfs_utils.Exports.{
  Flag, Flags, readonly, insecure_port, rootsquash, allsquash, async, gathered_writes,
  noreaddirplus, security_label, nohide, nosubtreecheck, noauthnlm, fsid, crossmount, noacl, v4root,
  pnfs, SecEntry, XprtsecEntry, FslocMethod, fsloc_none, fsloc_refer, fsloc_replica, Reexport,
  reexp_none, auto_fsidnum, predefined_fsidnum, Exportent, flav_info,
}
use nfs_utils.Exports.Secinfo.{secinfo_addflavor}

-- iscntrl, for a signed char: a byte from 0x80 on is none.
abbrev pub is_cntrl : ℕ → Bool
is_cntrl c = ltb c 32 || c == 127

abbrev pub is_quoted : ℕ → Bool
is_quoted c = is_cntrl c || c == b'"' || c == b'\\' || c == b'#' || is_space c

-- "\\%03o" of a byte below 0x80
abbrev pub octal : ℕ → Bytes
octal c = b'\\' ∷ (b'0' + c / 64) ∷ (b'0' + c / 8 % 8) ∷ (b'0' + c % 8) ∷ []

unfoldable pub fprintpath : Bytes → Bytes
fprintpath [] = []
fprintpath (c ∷ s) = if is_quoted c then octal c ++ fprintpath s else c ∷ fprintpath s

-- A word of the option list: text, or text with a path behind it that is quoted in the file.
pub data Word : Type 0 where
  plain : Bytes → Word
  quoting : Bytes → Bytes → Word

-- The word as it is read back, and as it is printed
unfoldable pub word_text : Word → Bytes
word_text (plain w) = w
word_text (quoting w path) = w ++ path

unfoldable pub print_word : Word → Bytes
unfolding fprintpath
print_word (plain w) = w
print_word (quoting w path) = w ++ fprintpath path

abbrev pub either_word : Bool → Bytes → Bytes → Bytes
either_word b yes_word no_word = if b then yes_word else no_word

-- The words that are always there, up to the two that are printed only if set
unfoldable pub flag_texts : Flags → List Bytes
flag_texts f =
    either_word (f readonly) (codes "ro") (codes "rw")
    ∷ either_word (f async) (codes "async") (codes "sync")
    ∷ either_word (f gathered_writes) (codes "wdelay") (codes "no_wdelay")
    ∷ either_word (f nohide) (codes "nohide") (codes "hide")
    ∷ either_word (f crossmount) (codes "crossmnt") (codes "nocrossmnt")
    ∷ either_word (f insecure_port) (codes "insecure") (codes "secure")
    ∷ either_word (f rootsquash) (codes "root_squash") (codes "no_root_squash")
    ∷ either_word (f allsquash) (codes "all_squash") (codes "no_all_squash")
    ∷ either_word (f nosubtreecheck) (codes "no_subtree_check") (codes "subtree_check")
    ∷ either_word (f noauthnlm) (codes "insecure_locks") (codes "secure_locks")
    ∷ either_word (f noacl) (codes "no_acl") (codes "acl")
    ∷ []

abbrev pub word_if : Bool → Bytes → List Bytes
word_if b w = if b then w ∷ [] else []

unfoldable pub flag_tail : Flags → List Bytes
flag_tail f =
    word_if (f noreaddirplus) (codes "nordirplus")
    ++ (word_if (f security_label) (codes "security_label")
        ++ (either_word (f pnfs) (codes "pnfs") (codes "no_pnfs") ∷ []))

-- fsid=%d, of an unsigned int
abbrev pub fsid_text : ℕ → Bytes
fsid_text n = codes "fsid=" ++ print_int (to_int (pos n))

unfoldable pub fsid_texts : Exportent → List Bytes
unfolding print_int
fsid_texts ep =
    word_if (ep.e_flags fsid) (fsid_text ep.e_fsid)
    ++ elim ep.e_uuid [ none ↦ [] | some uuid ↦ (codes "fsid=" ++ uuid) ∷ [] ]

unfoldable pub reexport_texts : Reexport → List Bytes
reexport_texts reexp_none = []
reexport_texts auto_fsidnum = codes "reexport=auto-fsidnum" ∷ []
reexport_texts predefined_fsidnum = codes "reexport=predefined-fsidnum" ∷ []

unfoldable pub mountpoint_texts : Option Bytes → List Bytes
mountpoint_texts none = []
mountpoint_texts (some []) = codes "mountpoint" ∷ []
mountpoint_texts (some (c ∷ s)) = (codes "mountpoint=" ++ (c ∷ s)) ∷ []

-- fprintpath of a NULL pointer is a fault that the parser does not lead to.
abbrev pub text_of : Option Bytes → Bytes
text_of none = []
text_of (some s) = s

unfoldable pub fsloc_words : FslocMethod → Option Bytes → List Word
fsloc_words fsloc_none d = []
fsloc_words fsloc_refer d = quoting (codes "refer=") (text_of d) ∷ []
fsloc_words fsloc_replica d = quoting (codes "replicas=") (text_of d) ∷ []

unfoldable pub same_id : ℤ → ℤ → Bool
same_id (pos a) (pos b) = a == b
same_id (negsuc a) (negsuc b) = a == b
same_id _ _ = false

abbrev range_text : ℤ → ℤ → Bytes
range_text a b = if same_id a b then print_int a else print_int a ++ b'-' ∷ print_int b

-- The ranges at places below `n`. Behind the end of the array there is what the memory holds.
unfoldable pub range_texts : (ℕ → ℤ) → ℕ → List ℤ → List Bytes
unfolding print_int same_id
range_texts memory zero ids = []
range_texts memory (suc zero) ids = []
range_texts memory (suc (suc n)) [] =
    range_text (memory n) (memory (suc n)) ∷ range_texts memory n []
range_texts memory (suc (suc n)) (a ∷ []) = range_text a (memory (suc n)) ∷ range_texts memory n []
range_texts memory (suc (suc n)) (a ∷ b ∷ ids) = range_text a b ∷ range_texts memory n ids

-- The name stands in front of the first range.
abbrev pub named_ranges : Bytes → List Bytes → List Bytes
named_ranges name [] = []
named_ranges name (r ∷ l) = (name ++ r) ∷ l

-- Both loops run up to e_nsquids. Without a uid the name of the gids is left in front of what
-- follows; `next` is that.
unfoldable pub squash_texts : (ℕ → ℤ) → List ℤ → List ℤ → List Bytes → List Bytes
unfolding range_texts
squash_texts memory squids [] next =
    named_ranges (codes "squash_uids=") (range_texts memory (length squids) squids) ++ next
squash_texts memory squids (g ∷ sqgids) next =
    named_ranges (codes "squash_uids=") (range_texts memory (length squids) squids)
    ++ (named_ranges (codes "squash_gids=")
        (range_texts memory (length squids) (g ∷ sqgids) ++ next))

unfoldable pub anon_texts : ℤ → ℤ → List Bytes
unfolding print_int
anon_texts uid gid = (codes "anonuid=" ++ print_int uid) ∷ (codes "anongid=" ++ print_int gid) ∷ []

-- secinfo_flag_displaymap
unfoldable pub secinfo_flags_show : Flags → Flags → List Bytes
secinfo_flags_show flags mask =
    word_if (mask readonly) (either_word (flags readonly) (codes "ro") (codes "rw"))
    ++ (word_if (mask insecure_port)
          (either_word (flags insecure_port) (codes "insecure") (codes "secure"))
        ++ (word_if (mask rootsquash)
              (either_word (flags rootsquash) (codes "root_squash") (codes "no_root_squash"))
            ++ word_if (mask allsquash)
                (either_word (flags allsquash) (codes "all_squash") (codes "no_all_squash"))))

abbrev same_flag : Flags → Flags → Flag → Bool
same_flag f g x = if f x then g x else not (g x)

unfoldable pub same_flags : Flags → Flags → Bool
same_flags f g =
    same_flag f g readonly
    && same_flag f g insecure_port
    && same_flag f g rootsquash
    && same_flag f g allsquash
    && same_flag f g async
    && same_flag f g gathered_writes
    && same_flag f g noreaddirplus
    && same_flag f g security_label
    && same_flag f g nohide
    && same_flag f g nosubtreecheck
    && same_flag f g noauthnlm
    && same_flag f g fsid
    && same_flag f g crossmount
    && same_flag f g noacl
    && same_flag f g v4root
    && same_flag f g pnfs

-- The rest of a group of flavors with the same flags, `text` being its word so far.
unfoldable pub secinfo_group : Flags → Bytes → Flags → List SecEntry → List Bytes
unfolding secinfo_flags_show
secinfo_group mask text flags [] = text ∷ secinfo_flags_show flags mask
secinfo_group mask text flags (p ∷ l) = elim (same_flags flags p.flags) [
  | true ↦ secinfo_group mask (text ++ b':' ∷ p.flav.flavour) flags l
  | false ↦
      text ∷ secinfo_flags_show flags mask
      ++ secinfo_group mask (codes "sec=" ++ p.flav.flavour) p.flags l
]

unfoldable pub secinfo_words : Flags → List SecEntry → List Bytes
unfolding secinfo_group
secinfo_words mask [] = []
secinfo_words mask (p ∷ l) = secinfo_group mask (codes "sec=" ++ p.flav.flavour) p.flags l

-- An export without a flavor gets the flavor sys, also in the record.
unfoldable pub with_flavor : Exportent → Exportent
unfolding secinfo_addflavor
with_flavor ep = elim ep.e_secinfo [
  | [] ↦ elim (secinfo_addflavor (flav_info (codes "sys") 1 false) ep) [
    | none ↦ ep
    | some (_, ep') ↦ ep'
  ]
  | _ ↦ ep
]

unfoldable pub xprtsec_group : Bytes → Flags → List XprtsecEntry → List Bytes
xprtsec_group text flags [] = text ∷ []
xprtsec_group text flags (p ∷ l) = elim (same_flags flags p.flags) [
  | true ↦ xprtsec_group (text ++ b':' ∷ p.info.name) flags l
  | false ↦ text ∷ xprtsec_group (codes "xprtsec=" ++ p.info.name) p.flags l
]

unfoldable pub xprtsecinfo_show : List XprtsecEntry → List Bytes
unfolding xprtsec_group
xprtsecinfo_show [] = []
xprtsecinfo_show (p ∷ l) = xprtsec_group (codes "xprtsec=" ++ p.info.name) p.flags l

-- All words of the option list; `mask` is secinfo_flags of get_export_features.
unfoldable pub export_words : Flags → (ℕ → ℤ) → Exportent → List Word
export_words mask memory ep =
    map plain (
      flag_texts ep.e_flags
      ++ (flag_tail ep.e_flags
          ++ (fsid_texts ep ++ (reexport_texts ep.e_reexport ++ mountpoint_texts ep.e_mountpoint))))
    ++ (fsloc_words ep.e_fslocmethod ep.e_fslocdata
        ++ map plain (
            squash_texts memory ep.e_squids ep.e_sqgids (
              anon_texts ep.e_anonuid ep.e_anongid
              ++ (secinfo_words mask (with_flavor ep).e_secinfo ++ xprtsecinfo_show ep.e_xprtsec))))

-- Words with commas between them
unfoldable pub join_words : List Bytes → Bytes
join_words [] = []
join_words (w ∷ l) = elim l [ [] ↦ w | _ ↦ w ++ b',' ∷ join_words l ]

-- The text that is written to the file
unfoldable pub putexportent : Flags → (ℕ → ℤ) → Exportent → Bytes
unfolding fprintpath export_words join_words print_word
putexportent mask memory ep =
    fprintpath ep.e_path
    ++ (b'\t' ∷ text_of ep.e_hostname
        ++ (b'(' ∷ join_words (map print_word (export_words mask memory ep)) ++ codes ")\n"))
