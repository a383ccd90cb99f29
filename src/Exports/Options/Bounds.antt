-- ===== src/Exports/Options/Bounds.antt =====
-- The arrays e_secinfo and e_xprtsec under parseopts of support/nfs/exports.c.
use nfs_utils.Common.{
  ℕ, ◌+◌, ◌<◌, ◌≤◌, ◌≡◌, refl, Bool, true, false, Option, none, some, List, [], ◌∷◌, arith, ltb,
  leb, Bytes, length, length-append, map, both, Bool-cases, Option-cases, inl, inr, ℤ, not, ◌&&◌,
  ◌==◌, ◌%◌, ◌^◌, str_eq, codes, strtoul_any,
}
use nfs_utils.Exports.{
  Flags, only, allsquash, readonly, set_mask, clear_mask, fsid, Reexport, reexp_none, auto_fsidnum,
  predefined_fsidnum, FlavInfo, SecEntry, XprtsecEntry, XprtsecInfo, Exportent,
}
use nfs_utils.Exports.Secinfo.{
  secinfo_addflavor, xprtsec_addmode, add_flavors, add_modes, parse_flavors, parse_xprtsec, Flavors,
  active, unparsed, change_active, change_flags, fix_entry, setflags, clearflags,
  fix_pseudoflavor_flags, find_flavor, find_xprtsec_info, flavor_index, mode_index, strsep_words,
}
use nfs_utils.Exports.Squash.{Squash, squashed, minus_one_not_permitted, bad_list, parsesquash}
use nfs_utils.Exports.Options.{
  Keyword, flag_keyword, anonuid, anongid, squash_uids, squash_gids, fsid_is, mountpoint, refer,
  replicas, sec, xprtsec, reexport, unknown, Options, Outcome, accepted, refused, apply_keyword,
  apply_options, keyword, parseopts, Parseopts, parsed, bad_option, apply_flag_word, number_option,
  fsid_option, reexport_option, reexpdb_apply_reexport_settings, agree_fsid, finish_reexport,
  with_ep, set_flag, valid_uuid, store_squash, absent_fsidnum, find_method, start_options,
  cut_options,
}

-- Both lists leave room in their arrays, of 9 and 4 entries, for the entry that ends them.
abbrev pub Fits : Exportent → Type 0
Fits ep = (length ep.e_secinfo ≤ 8) × (length ep.e_xprtsec ≤ 3)

-- The same of a record that may have been returned
abbrev AddFits : Option (ℕ × Exportent) → Type 0
AddFits none = Unit
AddFits (some (i, ep)) = Fits ep

abbrev FlavorsFit : Flavors → Type 0
FlavorsFit (active act ep) = Fits ep
FlavorsFit (unparsed ep) = Fits ep

room_lem : (i n : ℕ) → ltb i n ≡ false → leb 8 i ≡ false → n < 8
room_lem i n h k = ground (arith, h, k)

secinfo_addflavor-Fits :
    (f : FlavInfo) (ep : Exportent) → Fits ep → AddFits (secinfo_addflavor f ep)
unfolding secinfo_addflavor
secinfo_addflavor-Fits f ep (few, modes) =
    let i = flavor_index f.fnum ep.e_secinfo in
    let entry : SecEntry = record { flav = f; flags = ep.e_flags } in
    elim (Bool-cases (ltb i (length ep.e_secinfo))) [
      | inl found ↦ rw found (few, modes)
      | inr absent ↦ rw absent (elim (Bool-cases (leb 8 i)) [
        | inl full ↦ rw full tt
        | inr room ↦ rw room (
          omega (
            arith,
            room_lem i (length ep.e_secinfo) absent room,
            length-append ep.e_secinfo (entry ∷ []),
          ),
          modes,
        )
      ])
    ]

xprtsec_addmode-Fits : (x : XprtsecInfo) (ep : Exportent) → Fits ep → AddFits (xprtsec_addmode x ep)
unfolding xprtsec_addmode
xprtsec_addmode-Fits x ep (few, modes) =
    let i = mode_index x.number ep.e_xprtsec in
    let entry : XprtsecEntry = record { info = x; flags = ep.e_flags } in
    elim (Bool-cases (ltb i (length ep.e_xprtsec))) [
      | inl found ↦ rw found (few, modes)
      | inr absent ↦ rw absent (elim (Bool-cases (leb 3 i)) [
        | inl full ↦ rw full tt
        | inr room ↦
            rw room (few, ground (arith, absent, room, length-append ep.e_xprtsec (entry ∷ [])))
      ])
    ]

next-Fits :
    (ep : Exportent) (r : Option (ℕ × Exportent)) (k : ℕ → Exportent → Flavors)
    → Fits ep
    → AddFits r
    → ((i : ℕ) (e : Exportent) → Fits e → FlavorsFit (k i e))
    → FlavorsFit (elim r [ none ↦ unparsed ep | some (j, e) ↦ k j e ])
next-Fits ep none k h a go = h
next-Fits ep (some (i, e)) k h a go = go i e a

add_flavors-Fits :
    (l : List Bytes) (out : List ℕ) (ep : Exportent) → Fits ep → FlavorsFit (add_flavors l out ep)
unfolding add_flavors
add_flavors-Fits [] out ep h = h
add_flavors-Fits (name ∷ l) out ep h = elim (Option-cases (find_flavor name)) [
  | inl unknown_name ↦ rw (unknown_name, add_flavors) h
  | inr (f, e) ↦
      rw (e, add_flavors)
        (next-Fits ep (secinfo_addflavor f ep) (λ i e. add_flavors l (i ∷ out) e) h
          (secinfo_addflavor-Fits f ep h) (λ i e he. add_flavors-Fits l (i ∷ out) e he))
]

add_modes-Fits :
    (l : List Bytes) (out : List ℕ) (ep : Exportent) → Fits ep → FlavorsFit (add_modes l out ep)
unfolding add_modes
add_modes-Fits [] out ep h = h
add_modes-Fits (name ∷ l) out ep h = elim (Option-cases (find_xprtsec_info name)) [
  | inl unknown_name ↦ rw (unknown_name, add_modes) h
  | inr (x, e) ↦
      rw (e, add_modes)
        (next-Fits ep (xprtsec_addmode x ep) (λ i e. add_modes l (i ∷ out) e) h
          (xprtsec_addmode-Fits x ep h) (λ i e he. add_modes-Fits l (i ∷ out) e he))
]

length-change_active :
    (f : Flags → Flags) (act : List ℕ) (i : ℕ) (l : List SecEntry)
    → length (change_active f act i l) ≡ length l
unfolding change_active
length-change_active f act i [] = refl
length-change_active f act i (p ∷ l) = omega (arith, length-change_active f act (i + 1) l)

length-map : (f : SecEntry → SecEntry) (l : List SecEntry) → length (map f l) ≡ length l
length-map f [] = refl
length-map f (p ∷ l) = omega (arith, length-map f l)

setflags-Fits :
    (mask : Flags) (act : List ℕ) (ep : Exportent) → Fits ep → Fits (setflags mask act ep)
unfolding setflags change_flags
setflags-Fits mask act ep h =
    (omega (arith, length-change_active (set_mask mask) act 0 ep.e_secinfo), h.1)

clearflags-Fits :
    (mask : Flags) (act : List ℕ) (ep : Exportent) → Fits ep → Fits (clearflags mask act ep)
unfolding clearflags change_flags
clearflags-Fits mask act ep h =
    (omega (arith, length-change_active (clear_mask mask) act 0 ep.e_secinfo), h.1)

abbrev OutcomeFits : Outcome → Type 0
OutcomeFits (accepted o) = Fits o.ep
OutcomeFits (refused o) = Fits o.ep

squash-Fits :
    (r : Squash) (o : Options) (f : List ℤ → Options)
    → Fits o.ep
    → ((ids : List ℤ) → Fits (f ids).ep)
    → OutcomeFits (elim r [ squashed ids ↦ accepted (f ids) | _ ↦ refused o ])
squash-Fits (squashed ids) o f h k = k ids
squash-Fits minus_one_not_permitted o f h k = h
squash-Fits bad_list o f h k = h

sec-Fits :
    (r : Flavors) (f : List ℕ → Exportent → Options) (g : Exportent → Options)
    → FlavorsFit r
    → ((act : List ℕ) (ep : Exportent) → Fits ep → Fits (f act ep).ep)
    → ((ep : Exportent) → Fits ep → Fits (g ep).ep)
    → OutcomeFits (elim r [ active act ep ↦ accepted (f act ep) | unparsed ep ↦ refused (g ep) ])
sec-Fits (active act ep) f g h k l = k act ep h
sec-Fits (unparsed ep) f g h k l = l ep h

fsid_option-Fits : (v : Bytes) (o : Options) → Fits o.ep → OutcomeFits (fsid_option v o)
unfolding fsid_option
fsid_option-Fits v o h =
    let n = strtoul_any v in
    let stored = with_ep o (record o.ep { e_fsid = n.value % 2 ^ 32 }) in
    let kept = with_ep stored (record stored.ep { e_uuid = some v }) in
    let flagged : Fits (set_flag fsid stored).ep = setflags-Fits (only fsid) o.act stored.ep h in
    both OutcomeFits o.saw_reexport _ _ h (
      both OutcomeFits (str_eq v (codes "root")) _ _
        (setflags-Fits (only fsid) o.act (record o.ep { e_fsid = 0 }) h)
        (both OutcomeFits (not (length v == 0) && length n.rest == 0) _ _ flagged
          (both OutcomeFits (valid_uuid v) (accepted kept) (refused stored) h h)))

abbrev MaybeFits : Option Exportent → Type 0
MaybeFits none = Unit
MaybeFits (some ep) = Fits ep

agree_fsid-Fits : (n : ℕ) (ep : Exportent) → Fits ep → MaybeFits (agree_fsid n ep)
agree_fsid-Fits n ep h =
    both MaybeFits (ep.e_fsid == 0) (some (record ep { e_fsid = n })) _ h
      (both MaybeFits (ep.e_fsid == n) (some ep) none h tt)

database-Fits :
    (r : Option ℕ) (d : Option Exportent) (ep : Exportent)
    → Fits ep
    → MaybeFits d
    → MaybeFits (elim r [ none ↦ d | some n ↦ agree_fsid n ep ])
database-Fits none d ep h k = k
database-Fits (some n) d ep h k = agree_fsid-Fits n ep h

module _ (db : Bytes → Bool → Option ℕ) where
  absent_fsidnum-Fits :
      (method : Reexport) (ep : Exportent) → Fits ep → MaybeFits (absent_fsidnum db method ep)
  unfolding absent_fsidnum
  absent_fsidnum-Fits auto_fsidnum ep h = database-Fits (db ep.e_path true) none ep h tt
  absent_fsidnum-Fits reexp_none ep h = both MaybeFits (ep.e_fsid == 0) none (some ep) tt h
  absent_fsidnum-Fits predefined_fsidnum ep h = both MaybeFits (ep.e_fsid == 0) none (some ep) tt h

  reexpdb-Fits : (ep : Exportent) → Fits ep → MaybeFits (reexpdb_apply_reexport_settings db ep)
  unfolding reexpdb_apply_reexport_settings
  reexpdb-Fits ep h = both MaybeFits _ (some ep) _ h (
      database-Fits (db ep.e_path false) (absent_fsidnum db ep.e_reexport ep) ep h
        (absent_fsidnum-Fits ep.e_reexport ep h))

  finish-Fits :
      (r : Option Exportent) (o : Options)
      → Fits o.ep
      → MaybeFits r
      → OutcomeFits (elim r [ none ↦ refused o | some ep ↦ accepted (finish_reexport o ep) ])
  finish-Fits none o h k = h
  finish-Fits (some ep) o h k =
      both (λ (p : Options). Fits p.ep) (ep.e_fsid == 0) (with_ep o ep)
        (set_flag fsid (with_ep o ep)) k (setflags-Fits (only fsid) o.act ep k)

  reexport_option-Fits :
      (v : Bytes) (o : Options) → Fits o.ep → OutcomeFits (reexport_option db v o)
  unfolding reexport_option
  reexport_option-Fits v o h =
      both OutcomeFits o.saw_reexport (refused o) _ h (found (find_method v))
    where
      found :
          (m : Option Reexport)
          → OutcomeFits (elim m [
            | none ↦ refused o
            | some method ↦
                let stored = with_ep o (record o.ep { e_reexport = method }) in
                elim (reexpdb_apply_reexport_settings db stored.ep) [
                  | none ↦ refused stored
                  | some ep ↦ accepted (finish_reexport stored ep)
                ]
          ])
      found none = h
      found (some method) =
          let stored = with_ep o (record o.ep { e_reexport = method }) in
          finish-Fits (reexpdb_apply_reexport_settings db stored.ep) stored h
            (reexpdb-Fits stored.ep h)

apply_keyword-Fits :
    (db : Bytes → Bool → Option ℕ) (k : Keyword) (o : Options)
    → Fits o.ep
    → OutcomeFits (apply_keyword db k o)
unfolding apply_keyword apply_flag_word
apply_keyword-Fits db (flag_keyword w) o h = elim (Bool-cases w.sets) [
  | inl on ↦ rw on (setflags-Fits (only w.flag) o.act o.ep h)
  | inr off ↦ rw off (clearflags-Fits (only w.flag) o.act o.ep h)
]
apply_keyword-Fits db (anonuid v) o h =
    unfold number_option in both OutcomeFits _ (refused _) (accepted _) h h
apply_keyword-Fits db (anongid v) o h =
    unfold number_option in both OutcomeFits _ (refused _) (accepted _) h h
apply_keyword-Fits db (squash_uids v) o h =
    squash-Fits (parsesquash v o.squids) o (λ ids. record o { squids = ids }) h (λ ids. h)
apply_keyword-Fits db (squash_gids v) o h =
    squash-Fits (parsesquash v o.sqgids) o (λ ids. record o { sqgids = ids }) h (λ ids. h)
apply_keyword-Fits db (fsid_is v) o h = fsid_option-Fits v o h
apply_keyword-Fits db (mountpoint v) o h = h
apply_keyword-Fits db (refer v) o h = h
apply_keyword-Fits db (replicas v) o h = h
apply_keyword-Fits db (sec v) o h =
    unfold parse_flavors in
    sec-Fits (add_flavors (strsep_words b':' v) [] o.ep) (λ act ep. record o { ep = ep; act = act })
      (λ ep. record o { ep = ep; act = [] }) (add_flavors-Fits (strsep_words b':' v) [] o.ep h)
      (λ act ep k. k) (λ ep k. k)
apply_keyword-Fits db (xprtsec v) o h =
    unfold parse_xprtsec in
    sec-Fits (add_modes (strsep_words b':' v) [] o.ep) (λ _ ep. with_ep o ep) (λ ep. with_ep o ep)
      (add_modes-Fits (strsep_words b':' v) [] o.ep h) (λ act ep k. k) (λ ep k. k)
apply_keyword-Fits db (reexport v) o h = reexport_option-Fits db v o h
apply_keyword-Fits db unknown o h =
    setflags-Fits (set_mask (only allsquash) (only readonly)) o.act o.ep h

apply_options-Fits :
    (db : Bytes → Bool → Option ℕ) (l : List Bytes) (o : Options)
    → Fits o.ep
    → OutcomeFits (apply_options db l o)
unfolding apply_options
apply_options-Fits db [] o h = h
apply_options-Fits db (w ∷ l) o h =
    go (apply_keyword db (keyword w) o) (λ p. apply_options db l p)
      (apply_keyword-Fits db (keyword w) o h) (λ p k. apply_options-Fits db l p k)
  where
    go :
        (r : Outcome) (f : Options → Outcome)
        → OutcomeFits r
        → ((p : Options) → Fits p.ep → OutcomeFits (f p))
        → OutcomeFits (elim r [ accepted p ↦ f p | refused p ↦ refused p ])
    go (accepted p) f k m = m p k
    go (refused p) f k m = k

abbrev pub ParseoptsFit : Parseopts → Type 0
ParseoptsFit (parsed ep had) = Fits ep
ParseoptsFit (bad_option ep) = Fits ep

-- Whatever the options are, and whether they are accepted or not, parseopts leaves at most 8
-- flavors and 3 transport security modes in the record, so that the entry which ends each list is
-- within its array, if the record had no more than that to begin with.
pub parseopts-Fits :
    (mask : Flags) (db : Bytes → Bool → Option ℕ) (cp : Option Bytes) (ep : Exportent)
    → Fits ep
    → ParseoptsFit (parseopts mask db cp ep)
unfolding parseopts start_options fix_pseudoflavor_flags
parseopts-Fits mask db none ep h = h
parseopts-Fits mask db (some cp) ep h =
    go (apply_options db (cut_options true cp) (start_options ep))
      (apply_options-Fits db (cut_options true cp) (start_options ep) h)
  where
    go :
        (r : Outcome)
        → OutcomeFits r
        → ParseoptsFit (elim r [
          | accepted o ↦
              parsed (store_squash o (fix_pseudoflavor_flags mask o.ep)) o.had_subtree_opt
          | refused o ↦ bad_option o.ep
        ])
    go (accepted o) k =
        (omega (arith, length-map (fix_entry mask o.ep.e_flags) o.ep.e_secinfo), k.1)
    go (refused o) k = k
