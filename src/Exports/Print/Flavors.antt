-- ===== src/Exports/Print/Flavors.antt =====
-- The security flavors of one group that putexportent prints and parseopts reads back
-- (support/nfs/exports.c).
use nfs_utils.Common.{
  ℕ, ◌+◌, ◌<◌, ◌≤◌, ◌≡◌, ◌≢◌, refl, ap, sym, subst, ◌∙◌, Bool, true, false, not, ◌&&◌, ◌==◌, Option,
  none, some, List, [], ◌∷◌, ◌++◌, arith, if◌then◌else◌, Bytes, codes, str_eq, str_eq_iff,
  Bool-cases, inl, inr, All, append-All, Lacks, lacks, lacks-Lacks, map, length, append_assoc,
  append-nil, length-append,
}
use nfs_utils.Exports.{
  readonly, insecure_port, rootsquash, allsquash, async, gathered_writes, noreaddirplus,
  security_label, nohide, nosubtreecheck, noauthnlm, fsid, crossmount, noacl, v4root, pnfs, Flags,
  FlavInfo, flav_map, SecEntry, Exportent,
}
use nfs_utils.Exports.Secinfo.{
  flavor_index, secinfo_addflavor, search_flavor, find_flavor, strsep_words, active, unparsed,
  add_flavors, parse_flavors,
}
use nfs_utils.Exports.Print.{is_quoted, secinfo_group, secinfo_flags_show, same_flags}

-- A flavor that its own name finds
abbrev pub IsKnown : FlavInfo → Type 0
IsKnown f = find_flavor f.flavour ≡ some f

-- No two flavors have one number.
abbrev pub IsDistinct : List FlavInfo → Type 0
IsDistinct [] = Unit
IsDistinct (f ∷ l) = All (λ g. f.fnum ≢ g.fnum) l × IsDistinct l

-- The entry of a flavor with the flags of the export
abbrev pub entry : Flags → FlavInfo → SecEntry
entry flags f = record { flav = f; flags = flags }

abbrev pub entries : Flags → List FlavInfo → List SecEntry
entries flags = map (entry flags)

search_flavor-lacks :
    (c : ℕ) (name : Bytes) (f : FlavInfo) (l : List FlavInfo)
    → All (λ g. lacks c g.flavour ≡ true) l
    → search_flavor name l ≡ some f
    → Lacks c name
unfolding search_flavor
search_flavor-lacks c name f [] h e = absurd (ground arith)
search_flavor-lacks c name f (g ∷ l) h e = elim (Bool-cases (str_eq g.flavour name)) [
  | inl same ↦ subst (Lacks c) ((str_eq_iff g.flavour name).0 same) (lacks-Lacks c g.flavour h.0)
  | inr other ↦ search_flavor-lacks c name f l h.1 (ground (arith, e, other))
]

pub known-Lacks-colon : (f : FlavInfo) → IsKnown f → Lacks b':' f.flavour
unfolding find_flavor
known-Lacks-colon f h =
    search_flavor-lacks b':' f.flavour f flav_map
      (refl, (refl, (refl, (refl, (refl, (refl, (refl, tt))))))) h

-- A byte that is printed as it is and has no meaning in an option list
abbrev pub printable : ℕ → Bool
printable c = not (is_quoted c) && not (c == b',') && not (c == b')')

abbrev pub all_printable : Bytes → Bool
all_printable [] = true
all_printable (c ∷ w) = printable c && all_printable w

abbrev pub ArePrintable : Bytes → Type 0
ArePrintable = All (λ c. printable c ≡ true)

pub all_printable-ArePrintable : (w : Bytes) → all_printable w ≡ true → ArePrintable w
all_printable-ArePrintable [] h = tt
all_printable-ArePrintable (c ∷ w) h =
    (ground (arith, h), all_printable-ArePrintable w (ground (arith, h)))

search_flavor-ArePrintable :
    (name : Bytes) (f : FlavInfo) (l : List FlavInfo)
    → All (λ g. all_printable g.flavour ≡ true) l
    → search_flavor name l ≡ some f
    → ArePrintable name
unfolding search_flavor
search_flavor-ArePrintable name f [] h e = absurd (ground arith)
search_flavor-ArePrintable name f (g ∷ l) h e = elim (Bool-cases (str_eq g.flavour name)) [
  | inl same ↦
      subst ArePrintable ((str_eq_iff g.flavour name).0 same)
        (all_printable-ArePrintable g.flavour h.0)
  | inr other ↦ search_flavor-ArePrintable name f l h.1 (ground (arith, e, other))
]

pub known-ArePrintable : (f : FlavInfo) → IsKnown f → ArePrintable f.flavour
unfolding find_flavor
known-ArePrintable f h =
    search_flavor-ArePrintable f.flavour f flav_map
      (refl, (refl, (refl, (refl, (refl, (refl, (refl, tt))))))) h

distinct-before :
    (done l : List FlavInfo) (f : FlavInfo)
    → IsDistinct (done ++ (f ∷ l))
    → All (λ g. g.fnum ≢ f.fnum) done
distinct-before [] l f h = tt
distinct-before (g ∷ done) l f h = (
  (append-All (λ (k : FlavInfo). g.fnum ≢ k.fnum) done (f ∷ l) h.0).1.0,
  distinct-before done l f h.1,
)

flavor_index-fresh :
    (fnum : ℕ) (flags : Flags) (done : List FlavInfo)
    → All (λ g. g.fnum ≢ fnum) done
    → flavor_index fnum (entries flags done) ≡ length done
unfolding flavor_index
flavor_index-fresh fnum flags [] h = refl
flavor_index-fresh fnum flags (g ∷ done) h =
    ground (arith, flavor_index-fresh fnum flags done h.1, h.0)

length-entries : (flags : Flags) (l : List FlavInfo) → length (entries flags l) ≡ length l
length-entries flags [] = refl
length-entries flags (f ∷ l) = omega (arith, length-entries flags l)

entries-append :
    (flags : Flags) (l : List FlavInfo) (f : FlavInfo)
    → entries flags l ++ entry flags f ∷ [] ≡ entries flags (l ++ f ∷ [])
entries-append flags [] f = refl
entries-append flags (g ∷ l) f =
    ap (λ (t : List SecEntry). entry flags g ∷ t) (entries-append flags l f)

abbrev pub with_entries : List FlavInfo → Exportent → Exportent
with_entries l ep = record ep { e_secinfo = entries ep.e_flags l }

secinfo_addflavor-fresh :
    (f : FlavInfo) (done : List FlavInfo) (ep : Exportent)
    → All (λ g. g.fnum ≢ f.fnum) done
    → length done < 8
    → secinfo_addflavor f (with_entries done ep)
      ≡ some (length done, with_entries (done ++ f ∷ []) ep)
unfolding secinfo_addflavor
secinfo_addflavor-fresh f done ep h short =
    rw
      (
        flavor_index-fresh f.fnum ep.e_flags done h,
        length-entries ep.e_flags done,
        entries-append ep.e_flags done f,
      )
      (ground (arith, short))

abbrev names : List FlavInfo → List Bytes
names = map (λ f. f.flavour)

add_flavors-step :
    (name : Bytes) (l : List Bytes) (out : List ℕ) (ep ep' : Exportent) (f : FlavInfo) (i : ℕ)
    → find_flavor name ≡ some f
    → secinfo_addflavor f ep ≡ some (i, ep')
    → add_flavors (name ∷ l) out ep ≡ add_flavors l (i ∷ out) ep'
unfolding add_flavors
add_flavors-step name l out ep ep' f i e a =
    ap
      (λ (r : Option FlavInfo). elim r [
        | none ↦ unparsed ep
        | some g ↦ elim (secinfo_addflavor g ep) [
          | none ↦ unparsed ep
          | some (j, ep1) ↦ add_flavors l (j ∷ out) ep1
        ]
      ])
      e
    ∙ ap
        (λ (r : Option (ℕ × Exportent)). elim r [
          | none ↦ unparsed ep
          | some (j, ep1) ↦ add_flavors l (j ∷ out) ep1
        ])
        a

-- Known flavors with different numbers are all added, if there is room for them.
add_flavors-known :
    (l done : List FlavInfo) (out : List ℕ) (ep : Exportent)
    → All IsKnown l
    → IsDistinct (done ++ l)
    → length done + length l ≤ 8
    → (act : List ℕ) × (add_flavors (names l) out (with_entries done ep)
        ≡ active act (with_entries (done ++ l) ep))
add_flavors-known [] done out ep k d short = (out, unfold add_flavors in rw (append-nil done) refl)
add_flavors-known (f ∷ l) done out ep k d short =
    let all = append_assoc done (f ∷ []) l in
    let (act, e) =
      add_flavors-known l (done ++ f ∷ []) (length done ∷ out) ep k.1 (subst IsDistinct (sym all) d)
        (omega (arith, length-append done (f ∷ []))) in
    (
      act,
      add_flavors-step f.flavour (names l) out (with_entries done ep)
            (with_entries (done ++ f ∷ []) ep) f (length done) k.0
            (secinfo_addflavor-fresh f done ep (distinct-before done l f d) (omega arith))
          ∙ e
          ∙ ap (λ (t : List FlavInfo). active act (with_entries t ep)) all,
    )

-- The names with colons in front
abbrev pub colon_names : List FlavInfo → Bytes
colon_names [] = []
colon_names (f ∷ l) = b':' ∷ f.flavour ++ colon_names l

strsep_words-last : (w : Bytes) → Lacks b':' w → strsep_words b':' w ≡ w ∷ []
unfolding strsep_words
strsep_words-last [] h = refl
strsep_words-last (c ∷ w) h = ground (arith, strsep_words-last w h.1)

strsep_words-colon :
    (w t : Bytes) → Lacks b':' w → strsep_words b':' (w ++ (b':' ∷ t)) ≡ w ∷ strsep_words b':' t
unfolding strsep_words
strsep_words-colon [] t h = refl
strsep_words-colon (c ∷ w) t h = ground (arith, strsep_words-colon w t h.1)

strsep_words-names :
    (f : FlavInfo) (l : List FlavInfo)
    → All IsKnown (f ∷ l)
    → strsep_words b':' (f.flavour ++ colon_names l) ≡ names (f ∷ l)
strsep_words-names f [] k =
    rw (append-nil f.flavour) (strsep_words-last f.flavour (known-Lacks-colon f k.0))
strsep_words-names f (g ∷ l) k =
    strsep_words-colon f.flavour (g.flavour ++ colon_names l) (known-Lacks-colon f k.0)
    ∙ ap (λ (t : List Bytes). f.flavour ∷ t) (strsep_words-names g l k.1)

pub parse_flavors-known :
    (f : FlavInfo) (l : List FlavInfo) (ep : Exportent)
    → All IsKnown (f ∷ l)
    → IsDistinct (f ∷ l)
    → length (f ∷ l) ≤ 8
    → (act : List ℕ) × (parse_flavors (f.flavour ++ colon_names l) (with_entries [] ep)
        ≡ active act (with_entries (f ∷ l) ep))
parse_flavors-known f l ep k d short =
    let (act, e) = add_flavors-known (f ∷ l) [] [] ep k d (omega (arith, short)) in
    (act, unfold parse_flavors in rw (strsep_words-names f l k) e)

same_refl : (b : Bool) → (if b then b else not b) ≡ true
same_refl true = refl
same_refl false = refl

same_flags_refl : (f : Flags) → same_flags f f ≡ true
unfolding same_flags
same_flags_refl f =
    rw
      (
        same_refl (f readonly),
        same_refl (f insecure_port),
        same_refl (f rootsquash),
        same_refl (f allsquash),
        same_refl (f async),
        same_refl (f gathered_writes),
        same_refl (f noreaddirplus),
        same_refl (f security_label),
        same_refl (f nohide),
        same_refl (f nosubtreecheck),
        same_refl (f noauthnlm),
        same_refl (f fsid),
        same_refl (f crossmount),
        same_refl (f noacl),
        same_refl (f v4root),
        same_refl (f pnfs),
      )
      refl

pub secinfo_group-entries :
    (mask flags : Flags) (text : Bytes) (l : List FlavInfo)
    → secinfo_group mask text flags (entries flags l)
      ≡ (text ++ colon_names l) ∷ secinfo_flags_show flags mask
unfolding secinfo_group
secinfo_group-entries mask flags text [] = rw (append-nil text) refl
secinfo_group-entries mask flags text (f ∷ l) =
    ap
      (λ (same : Bool). elim same [
        | true ↦ secinfo_group mask (text ++ b':' ∷ f.flavour) flags (entries flags l)
        | false ↦
            text ∷ secinfo_flags_show flags mask
            ++ secinfo_group mask (codes "sec=" ++ f.flavour) flags (entries flags l)
      ])
      (same_flags_refl flags)
    ∙ secinfo_group-entries mask flags (text ++ (b':' ∷ f.flavour)) l
    ∙ ap (λ (t : Bytes). t ∷ secinfo_flags_show flags mask)
        (append_assoc text (b':' ∷ f.flavour) (colon_names l))
