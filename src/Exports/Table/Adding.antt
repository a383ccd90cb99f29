-- ===== src/Exports/Table/Adding.antt =====
-- export_add of support/export/export.c keeps the shape of the hash tables.
use nfs_utils.Common.{
  ℕ, ◌+◌, ◌<◌, ◌≡◌, ◌≢◌, refl, ap, sym, subst, ◌∙◌, Bool, true, false, Option, none, some, List, [],
  ◌∷◌, arith, ◌==◌, ==_iff, if◌then◌else◌, All, Bool-cases, inl, inr,
}
use nfs_utils.Clients.{ClientType, type_number}
use nfs_utils.Clients.Lookup.Tables.{type_number_inj}
use nfs_utils.Exports.Table.{
  NfsExport, HashEntry, HashTable, Exports, insert_behind, put_entry, add_to_table, export_add,
}
use nfs_utils.Exports.Table.Sound.{
  key, Block, IsBlock, IsRecord, IsSound, insert_behind-All, own-Block, other-IsBlock,
  pushed-IsBlock, last-hash,
}

put-Block :
    (l : List NfsExport) (slot : ℕ) (hen : HashEntry) (entries : ℕ → Option HashEntry)
    → Block slot hen l
    → ((k : ℕ) → k ≢ slot → IsBlock k l (entries k))
    → (k : ℕ) → IsBlock k l (put_entry slot hen entries k)
put-Block l slot hen entries own others k =
    let chosen : Bool → Option HashEntry = λ b. if b then some hen else entries k in
    elim (Bool-cases (k == slot)) [
      | inl same ↦
          subst (IsBlock k l) (sym (ap chosen same))
            (subst (λ s. Block s hen l) (sym ((==_iff k slot).0 same)) own)
      | inr other ↦
          subst (IsBlock k l) (sym (ap chosen other)) (others k (λ e. ground (arith, other, e)))
    ]

-- The hashes once the address `n` is taken
abbrev with_hash : (ℕ → ℕ) → ℕ → ℕ → ℕ → ℕ
with_hash hash n h x = if x == n then h else hash x

widen :
    (hash : ℕ → ℕ) (t : ClientType) (n h : ℕ) (l : List NfsExport)
    → All (IsRecord hash t n) l
    → All (IsRecord (with_hash hash n h) t (n + 1)) l
widen hash t n h [] r = tt
widen hash t n h (e ∷ l) r = (
  (
    ap (λ (b : Bool). if b then h else hash e.address) (fresh e.address n r.0.1) ∙ r.0.0,
    omega (arith, r.0.1),
    r.0.2,
  ),
  widen hash t n h l r.1,
)
  where
    fresh : (x y : ℕ) → x < y → (x == y) ≡ false
    fresh x y p = ground (arith, p)

self_test : (x : ℕ) → (x == x) ≡ true
self_test x = (==_iff x x).1 refl

new-IsRecord :
    (hash : ℕ → ℕ) (t : ClientType) (n : ℕ) (exp : NfsExport)
    → exp.address ≡ n
    → exp.m_client.0 ≡ t
    → IsRecord (with_hash hash n (key exp)) t (n + 1) exp
new-IsRecord hash t n exp new type = (
  ap (with_hash hash n (key exp)) new
      ∙ ap (λ (b : Bool). if b then key exp else hash n) (self_test n),
  omega (arith, new),
  type,
)

add_to_table-IsSound :
    (t : ClientType) (n : ℕ) (exp : NfsExport) (tbl : HashTable)
    → exp.address ≡ n
    → exp.m_client.0 ≡ t
    → IsSound t n tbl
    → IsSound t (n + 1) (add_to_table exp (key exp) tbl)
unfolding add_to_table
add_to_table-IsSound t n exp tbl new type s = added (tbl.entries (key exp)) refl
  where
    slot : ℕ
    slot = key exp

    added :
        (entry : Option HashEntry)
        → tbl.entries (key exp) ≡ entry
        → IsSound t (n + 1) (elim entry [
          | none ↦ record {
            p_head = exp ∷ tbl.p_head;
            entries =
                put_entry
                  (key exp)
                  (record { p_first = exp.address; p_last = exp.address })
                  tbl.entries;
          }
          | some hen ↦ record {
            p_head = insert_behind hen.p_last exp tbl.p_head;
            entries =
                put_entry
                  (key exp)
                  (record { p_first = hen.p_first; p_last = exp.address })
                  tbl.entries;
          }
        ])
    added none e =
        let l = tbl.p_head in
        record {
          hash = with_hash s.hash n (key exp);
          records = (new-IsRecord s.hash t n exp new type, widen s.hash t n (key exp) l s.records);
          blocks =
              put-Block (exp ∷ l) (key exp) (record { p_first = exp.address; p_last = exp.address })
                tbl.entries
                (record {
                  a = [];
                  b = [];
                  z = exp;
                  c = l;
                  whole = refl;
                  misses_a = tt;
                  before = tt;
                  key_z = refl;
                  last_z = refl;
                  misses_c = subst (IsBlock (key exp) l) e (s.blocks (key exp));
                  first = refl;
                })
                (λ k apart.
                  pushed-IsBlock s.hash t n exp l s.records k (tbl.entries k)
                    (λ same. apart (sym same)) (s.blocks k));
        }
    added (some hen) e =
        let l = tbl.p_head in
        let own : Block (key exp) hen l = subst (IsBlock (key exp) l) e (s.blocks (key exp)) in
        let last = last-hash s.hash t n exp l s.records own in
        record {
          hash = with_hash s.hash n (key exp);
          records =
              insert_behind-All hen.p_last exp (IsRecord (with_hash s.hash n (key exp)) t (n + 1)) l
                (new-IsRecord s.hash t n exp new type) (widen s.hash t n (key exp) l s.records);
          blocks =
              put-Block (insert_behind hen.p_last exp l) (key exp)
                (record { p_first = hen.p_first; p_last = exp.address }) tbl.entries
                (own-Block s.hash t n exp l s.records hen new own)
                (λ k apart.
                  other-IsBlock s.hash t n exp l s.records k hen.p_last (tbl.entries k)
                    (λ same. apart (sym same)) (λ same. apart (sym (sym last ∙ same)))
                    (s.blocks k));
        }

-- An address more changes nothing for the records that are there.
wider :
    (hash : ℕ → ℕ) (t : ClientType) (n : ℕ) (l : List NfsExport)
    → All (IsRecord hash t n) l
    → All (IsRecord hash t (n + 1)) l
wider hash t n [] r = tt
wider hash t n (e ∷ l) r = ((r.0.0, omega (arith, r.0.1), r.0.2), wider hash t n l r.1)

untouched : (t : ClientType) (n : ℕ) (tbl : HashTable) → IsSound t n tbl → IsSound t (n + 1) tbl
untouched t n tbl s = record {
  hash = s.hash;
  records = wider s.hash t n tbl.p_head s.records;
  blocks = s.blocks;
}

-- Every table is sound.
abbrev pub AreSound : Exports → Type 0
AreSound x = (t : ClientType) → IsSound t x.next_address (x.exportlist t)

pub export_add-AreSound :
    (exp : NfsExport) (x : Exports)
    → exp.address ≡ x.next_address
    → AreSound x
    → AreSound (export_add exp x)
unfolding export_add
export_add-AreSound exp x new s u =
    let t = exp.m_client.0 in
    let n = x.next_address in
    let tbl = add_to_table exp (key exp) (x.exportlist t) in
    let chosen : Bool → HashTable = λ b. if b then tbl else x.exportlist u in
    elim (Bool-cases (type_number u == type_number t)) [
      | inl same ↦ subst (IsSound u (n + 1)) (sym (ap chosen same)) (
          subst (λ v. IsSound v (n + 1) tbl) (sym (type_number_inj u t same))
            (add_to_table-IsSound t n exp (x.exportlist t) new refl (s t)))
      | inr other ↦
          subst (IsSound u (n + 1)) (sym (ap chosen other)) (untouched u n (x.exportlist u) (s u))
    ]
