-- ===== src/Nfs/Conf/Load/Entries.antt =====
-- conf_get_entry of support/nfs/conffile.c on the bindings of a loaded file.
use nfs_utils.Common.{
  ◌≡◌, refl, ap, ◌∙◌, Option, none, some, List, [], ◌∷◌, if◌then◌else◌, Bytes, to_lower, map,
}
use nfs_utils.Nfs.Conf.{
  Binding, Bindings, conf_get_entry, find_entry, is_entry, insert_head, conf_remove_now,
}
use nfs_utils.Nfs.Conf.Buckets.{IsSingle, same_name, conf_get_entry-insert_head}
use nfs_utils.Nfs.Conf.Removal.{conf_get_entry-remove_now}
use nfs_utils.Nfs.Conf.Single.{conf_set_now-IsSingle}
use nfs_utils.Nfs.Conf.Parse.RoundTrip.{Part}
use nfs_utils.Nfs.Conf.Load.{no_bindings}
use nfs_utils.Nfs.Conf.Load.File.{binding, store_entries, store_parts}

-- One entry of a file, after the value so far: it is the one asked for, or has the same section and
-- tag with another argument, and then takes its place, or is another.
abbrev pub read_entry : Bytes → Option Bytes → Bytes → Binding → Option Bytes → Option Bytes
read_entry section arg tag node before =
    if is_entry section arg tag node
    then some node.value
    else if same_name section tag node.section node.tag
    then none
    else before

module _ (section : Bytes) (arg : Option Bytes) (tag : Bytes) where
  unfoldable pub read_entries :
      Bytes → Option Bytes → List (Bytes × Bytes) → Option Bytes → Option Bytes
  read_entries name a [] before = before
  read_entries name a ((t, []) ∷ es) before = read_entries name a es before
  read_entries name a ((t, x ∷ value) ∷ es) before =
      read_entries name a es (read_entry section arg tag (binding name a t (x ∷ value)) before)

  unfoldable pub read_parts : List Part → Option Bytes → Option Bytes
  unfolding read_entries
  read_parts [] before = before
  read_parts (p ∷ ps) before = read_parts ps (read_entries p.name p.arg p.entries before)

  stored_entry :
      (b : Bindings) (node : Binding)
      → IsSingle b
      → conf_get_entry
          (insert_head (conf_remove_now b node.section node.tag).0 node)
          section
          arg
          tag
        ≡ read_entry section arg tag node (conf_get_entry b section arg tag)
  stored_entry b node s =
      conf_get_entry-insert_head (conf_remove_now b node.section node.tag).0 node section arg tag
      ∙ ap (λ r. if is_entry section arg tag node then some node.value else r)
          (conf_get_entry-remove_now b node.section node.tag section arg tag s)

  stored_entries :
      (name : Bytes) (a : Option Bytes) (es : List (Bytes × Bytes)) (b : Bindings)
      → IsSingle b
      → IsSingle (store_entries name a es b)
        × (conf_get_entry (store_entries name a es b) section arg tag
            ≡ read_entries name a es (conf_get_entry b section arg tag))
  unfolding store_entries read_entries
  stored_entries name a [] b s = (s, refl)
  stored_entries name a ((t, []) ∷ es) b s = stored_entries name a es b s
  stored_entries name a ((t, x ∷ value) ∷ es) b s =
      let node = binding name a t (x ∷ value) in
      let b' = insert_head (conf_remove_now b (map to_lower name) t).0 node in
      let (single, e) = stored_entries name a es b' (conf_set_now-IsSingle b node s) in
      (single, e ∙ ap (read_entries name a es) (stored_entry b node s))

  stored_parts :
      (ps : List Part) (b : Bindings)
      → IsSingle b
      → conf_get_entry (store_parts ps b) section arg tag
        ≡ read_parts ps (conf_get_entry b section arg tag)
  unfolding store_parts read_parts
  stored_parts [] b s = refl
  stored_parts (p ∷ ps) b s =
      let (single, e) = stored_entries p.name p.arg p.entries b s in
      stored_parts ps (store_entries p.name p.arg p.entries b) single ∙ ap (read_parts ps) e

-- What conf_get_entry finds in the hash buckets after the entries of a file are stored is what a
-- fold over the entries of the file gives: an entry with the section, argument and tag gives the
-- value, one with the section and tag and another argument takes it away, and the last of these
-- counts. So of two sections of one name with different arguments, the later drops the entries of the
-- earlier for the tags that both set.
pub conf_get_entry-store_parts :
    (ps : List Part) (section : Bytes) (arg : Option Bytes) (tag : Bytes)
    → conf_get_entry (store_parts ps no_bindings) section arg tag
      ≡ read_parts section arg tag ps none
conf_get_entry-store_parts ps section arg tag =
    stored_parts section arg tag ps no_bindings (record { single = λ n. tt })
    ∙ ap (read_parts section arg tag ps) (unfold conf_get_entry find_entry in refl)
