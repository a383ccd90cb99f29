-- ===== src/Exports/Table/Search.antt =====
-- export_lookup of support/export/export.c: the search from p_first to p_last.
use nfs_utils.Common.{
  ℕ, ◌≡◌, ◌≢◌, refl, ap, sym, ◌∙◌, Bool, true, false, ◌&&◌, Option, none, some, List, [], ◌∷◌, ◌++◌,
  arith, ◌==◌, ==_iff, Bytes, All, Bool-cases, inl, inr, ◌⊎◌, str_eq, str_eq_iff, and_false,
}
use nfs_utils.Clients.{ClientType}
use nfs_utils.Clients.Lookup.{Resolver, Lists, Place, client_lookup}
use nfs_utils.Exports.Table.{
  NfsExport, HashEntry, HashTable, Exports, export_hash, find_export, same_place, is_export,
  from_first, scan_entry, search_table, export_lookup,
}
use nfs_utils.Exports.Table.Sound.{
  key, Misses, Before, IsBlock, IsRecord, IsSound, head_address, Block-records, other_key, seconds,
}
use nfs_utils.Exports.Table.Calls.{Reachable, Reachable-AreSound}

abbrev pub address_of : Option NfsExport → Option ℕ
address_of none = none
address_of (some e) = some e.address

module _ (p : NfsExport → Bool) where
  abbrev step : NfsExport → List NfsExport → Bool → Option NfsExport
  step e l b = elim b [ true ↦ some e | false ↦ find_export p l ]

  pub find_export-hit :
      (e : NfsExport) (l : List NfsExport) → p e ≡ true → find_export p (e ∷ l) ≡ some e
  unfolding find_export
  find_export-hit e l h = ap (step e l) h

  pub find_export-miss :
      (e : NfsExport) (l : List NfsExport) → p e ≡ false → find_export p (e ∷ l) ≡ find_export p l
  unfolding find_export
  find_export-miss e l h = ap (step e l) h

  find_export-skip :
      (l rest : List NfsExport)
      → All (λ e. p e ≡ false) l
      → find_export p (l ++ rest) ≡ find_export p rest
  find_export-skip [] rest h = refl
  find_export-skip (e ∷ l) rest h = find_export-miss e (l ++ rest) h.0 ∙ find_export-skip l rest h.1

  pub find_export-none : (l : List NfsExport) → All (λ e. p e ≡ false) l → find_export p l ≡ none
  unfolding find_export
  find_export-none [] h = refl
  find_export-none (e ∷ l) h = find_export-miss e l h.0 ∙ find_export-none l h.1

  abbrev scan_step : ℕ → NfsExport → List NfsExport → Bool → Bool → Option ℕ
  scan_step last e l b k = elim b [
    | true ↦ some e.address
    | false ↦ elim k [ true ↦ none | false ↦ scan_entry p last l ]
  ]

  -- The loop sees the records up to the last one.
  scan_entry-find :
      (last : ℕ) (b : List NfsExport) (z : NfsExport) (c : List NfsExport)
      → All (λ e. e.address ≢ last) b
      → z.address ≡ last
      → All (λ e. p e ≡ false) c
      → scan_entry p last (b ++ (z ∷ c)) ≡ address_of (find_export p (b ++ (z ∷ c)))
  unfolding scan_entry
  scan_entry-find last [] z c h k none_behind = elim (Bool-cases (p z)) [
    | inl hit ↦
        ap (λ (b : Bool). scan_step last z c b (z.address == last)) hit
        ∙ sym (ap address_of (find_export-hit z c hit))
    | inr miss ↦
        ap (λ (b : Bool). scan_step last z c b (z.address == last)) miss
        ∙ ap (scan_step last z c false) ((==_iff z.address last).1 k)
        ∙ sym (ap address_of (find_export-miss z c miss ∙ find_export-none c none_behind))
  ]
  scan_entry-find last (e ∷ b) z c h k none_behind = elim (Bool-cases (p e)) [
    | inl hit ↦
        ap (λ (q : Bool). scan_step last e (b ++ (z ∷ c)) q (e.address == last)) hit
        ∙ sym (ap address_of (find_export-hit e (b ++ (z ∷ c)) hit))
    | inr miss ↦
        ap (λ (q : Bool). scan_step last e (b ++ (z ∷ c)) q (e.address == last)) miss
        ∙ ap (scan_step last e (b ++ (z ∷ c)) false) (apart e.address last h.0)
        ∙ scan_entry-find last b z c h.1 k none_behind
        ∙ sym (ap address_of (find_export-miss e (b ++ (z ∷ c)) miss))
  ]
    where
      apart : (x y : ℕ) → x ≢ y → (x == y) ≡ false
      apart x y n = ground (arith, n)

abbrev first_step : ℕ → NfsExport → List NfsExport → Bool → List NfsExport
first_step first e l b = elim b [ true ↦ e ∷ l | false ↦ from_first first l ]

from_first-here :
    (first : ℕ) (b : List NfsExport) (z : NfsExport) (c : List NfsExport)
    → head_address b z ≡ first
    → from_first first (b ++ (z ∷ c)) ≡ b ++ (z ∷ c)
unfolding from_first
from_first-here first [] z c h = ap (first_step first z c) ((==_iff z.address first).1 h)
from_first-here first (e ∷ b) z c h =
    ap (first_step first e (b ++ (z ∷ c))) ((==_iff e.address first).1 h)

from_first-skip :
    (first : ℕ) (a rest : List NfsExport)
    → All (λ e. e.address ≢ first) a
    → from_first first (a ++ rest) ≡ from_first first rest
unfolding from_first
from_first-skip first [] rest h = refl
from_first-skip first (e ∷ a) rest h =
    ap (first_step first e (a ++ rest)) (apart e.address first h.0)
    ∙ from_first-skip first a rest h.1
  where
    apart : (x y : ℕ) → x ≢ y → (x == y) ≡ false
    apart x y n = ground (arith, n)

-- Records with other hashes do not have the path.
pub not_exports :
    (clp : Place) (path : Bytes) (l : List NfsExport)
    → All (Misses (export_hash path)) l
    → All (λ e. is_export clp path e ≡ false) l
not_exports clp path [] h = tt
not_exports clp path (e ∷ l) h =
    (other (Bool-cases (str_eq e.m_export.e_path path)), not_exports clp path l h.1)
  where
    other :
        ((str_eq e.m_export.e_path path ≡ true) ⊎ (str_eq e.m_export.e_path path ≡ false))
        → is_export clp path e ≡ false
    other (inl same) = absurd (h.0 (ap export_hash ((str_eq_iff e.m_export.e_path path).0 same)))
    other (inr differs) =
        ap (λ (b : Bool). same_place e.m_client clp && b) differs
        ∙ and_false (same_place e.m_client clp)

head-hash :
    (hash : ℕ → ℕ) (t : ClientType) (n slot last : ℕ) (b : List NfsExport) (z : NfsExport)
    → All (IsRecord hash t n) b
    → IsRecord hash t n z
    → All (Before slot last) b
    → key z ≡ slot
    → hash (head_address b z) ≡ slot
head-hash hash t n slot last [] z in_b in_z h k = in_z.0 ∙ k
head-hash hash t n slot last (e ∷ b) z in_b in_z h k = in_b.0.0 ∙ h.0.0

-- The search in a sound table is one in the whole list.
search_table-find :
    (t : ClientType) (n : ℕ) (clp : Place) (path : Bytes) (tbl : HashTable)
    → IsSound t n tbl
    → search_table clp path tbl ≡ address_of (find_export (is_export clp path) tbl.p_head)
unfolding search_table
search_table-find t n clp path tbl s =
    searched (tbl.entries (export_hash path)) (s.blocks (export_hash path))
  where
    searched :
        (entry : Option HashEntry)
        → IsBlock (export_hash path) tbl.p_head entry
        → elim entry [
          | none ↦ none
          | some hen ↦
              scan_entry (is_export clp path) hen.p_last (from_first hen.p_first tbl.p_head)
        ]
          ≡ address_of (find_export (is_export clp path) tbl.p_head)
    searched none k = sym (
        ap address_of
          (find_export-none (is_export clp path) tbl.p_head (not_exports clp path tbl.p_head k)))
    searched (some hen) k =
        let p = is_export clp path in
        let l = k.b ++ (k.z ∷ k.c) in
        let (in_a, in_b, in_z) = Block-records s.hash t n k.z tbl.p_head s.records k in
        let hash_first : s.hash hen.p_first ≡ export_hash path =
          ap s.hash (sym k.first)
          ∙ head-hash s.hash t n (export_hash path) hen.p_last k.b k.z in_b in_z k.before k.key_z in
        ap (λ (m : List NfsExport). scan_entry p hen.p_last (from_first hen.p_first m)) k.whole
        ∙ ap (scan_entry p hen.p_last) (
            from_first-skip hen.p_first k.a l
              (other_key s.hash t n hen.p_first (export_hash path) k.a hash_first in_a k.misses_a)
            ∙ from_first-here hen.p_first k.b k.z k.c k.first)
        ∙ scan_entry-find p hen.p_last k.b k.z k.c
            (seconds (export_hash path) hen.p_last k.b k.before) k.last_z
            (not_exports clp path k.c k.misses_c)
        ∙ sym (
            ap address_of (
              ap (find_export p) k.whole
              ∙ find_export-skip p k.a l (not_exports clp path k.a k.misses_a)))

-- In every state that calls lead to, export_lookup returns what a search in the whole list of the
-- client's type returns: the first record with this client and this path.
pub export_lookup-find :
    (r : Resolver) (x : Exports) (hname path : Bytes) (canonical : Bool) (lists : Lists)
    (clp : Place)
    → Reachable r x
    → client_lookup r x.clients hname canonical ≡ (lists, some clp)
    → export_lookup r x hname path canonical ≡ (
      record x { clients = lists },
      address_of (find_export (is_export clp path) (x.exportlist clp.0).p_head),
    )
unfolding export_lookup
export_lookup-find r x hname path canonical lists clp reached e =
    let t = clp.0 in
    ap answer e
    ∙ ap (λ (o : Option ℕ). (record x { clients = lists }, o))
        (search_table-find t x.next_address clp path (x.exportlist t)
          (Reachable-AreSound r x reached t))
  where
    answer : Lists × Option Place → Exports × Option ℕ
    answer q = elim q.1 [
      | none ↦ (record x { clients = q.0 }, none)
      | some c ↦ (record x { clients = q.0 }, search_table c path (x.exportlist c.0))
    ]
