-- ===== src/Exports/Table/Created.antt =====
-- export_lookup behind export_create of support/export/export.c.
use nfs_utils.Common.{
  ap₂, str_eq_iff, ℕ, zero, suc, ◌+◌, ◌≡◌, refl, ap, sym, subst, ◌∙◌, Bool, true, false, ◌&&◌,
  Option, none, some, List, [], ◌∷◌, ◌++◌, arith, length, ◌==◌, ==_iff, Bytes, Bool-cases, inl, inr,
  str_eq, str_eq_refl, case_eq, if◌then◌else◌, append_assoc,
}
use nfs_utils.Exports.{Exportent}
use nfs_utils.Clients.{ClientType, type_number, Client}
use nfs_utils.Clients.Lookup.{Resolver, Lists, Place, split_at, put_list, client_lookup}
use nfs_utils.Clients.Lookup.Tables.{type_number_inj}
use nfs_utils.Clients.Lookup.Again.{index, client_lookup-index}
use nfs_utils.Exports.Table.{
  NfsExport, HashEntry, HashTable, Exports, insert_behind, add_to_table, put_entry, update_client,
  count_up, export_add, export_init, dupexportent, add_counted, export_create, find_export,
  same_place, is_export, export_lookup,
}
use nfs_utils.Exports.Table.Sound.{key, IsBlock, IsSound, insert_behind-Block}
use nfs_utils.Exports.Table.Calls.{Reachable, Reachable-AreSound, after, create, run_call}
use nfs_utils.Exports.Table.Search.{
  address_of, find_export-none, not_exports, find_export-hit, find_export-miss, export_lookup-find,
}

abbrev next : Bool → Option ℕ → Option ℕ
next b o = elim b [ true ↦ some 0 | false ↦ elim o [ none ↦ none | some i ↦ some (suc i) ] ]

index-cons :
    (p : Client → Bool) (c : Client) (l : List Client) → index p (c ∷ l) ≡ next (p c) (index p l)
unfolding split_at
index-cons p c l = by_test (p c) (split_at p l)
  where
    by_test :
        (b : Bool) (r : Option (List Client × Client × List Client))
        → (elim (elim b as (λ _. Option (List Client × Client × List Client)) [
          | true ↦ some ([], c, l)
          | false ↦ elim r [ none ↦ none | some (a, d, e) ↦ some (c ∷ a, d, e) ]
        ]) [ none ↦ none | some (a, d, e) ↦ some (length a) ])
          ≡ next b (elim r [ none ↦ none | some (a, d, e) ↦ some (length a) ])
    by_test true r = refl
    by_test false none = refl
    by_test false (some (a, d, e)) = refl

-- A change that the test does not see leaves the places.
index-update_client :
    (p : Client → Bool) (f : Client → Client) (l : List Client) (i : ℕ)
    → ((c : Client) → p (f c) ≡ p c)
    → index p (update_client f l i) ≡ index p l
unfolding update_client
index-update_client p f [] i h = refl
index-update_client p f (c ∷ l) zero h =
    index-cons p (f c) l ∙ ap (λ (b : Bool). next b (index p l)) (h c) ∙ sym (index-cons p c l)
index-update_client p f (c ∷ l) (suc i) h =
    index-cons p c (update_client f l i)
    ∙ ap (next (p c)) (index-update_client p f l i h)
    ∙ sym (index-cons p c l)

put_list-same : (t : ClientType) (l : List Client) (lists : Lists) → put_list t l lists t ≡ l
put_list-same t l lists =
    ap (λ (b : Bool). if b then l else lists t) ((==_iff (type_number t) (type_number t)).1 refl)

-- The client that export_create counts is found again at its place.
counted_again :
    (r : Resolver) (x lists : Lists) (hname : Bytes) (u : ClientType) (i : ℕ)
    → client_lookup r x hname true ≡ (lists, some (u, i))
    → (client_lookup r (count_up (u, i) lists) hname true).1 ≡ some (u, i)
unfolding count_up
counted_again r x lists hname u i e =
    let f : Client → Client = λ c. record c { m_count = c.m_count + 1 } in
    let p : Client → Bool = λ clp. case_eq hname clp.m_hostname in
    client_lookup-index r x (count_up (u, i) lists) hname u i
      (ap (λ (q : Lists × Option Place). q.1) e)
      (ap (index p) (put_list-same u (update_client f (lists u) i) lists)
        ∙ index-update_client p f (lists u) i (λ c. refl)
        ∙ sym (ap (λ (q : Lists × Option Place). index p (q.0 u)) e))

abbrev pub or_else {ℓ} : {A : Type ℓ} → Option A → Option A → Option A
or_else none b = b
or_else (some a) b = some a

find_export-append :
    (p : NfsExport → Bool) (l m : List NfsExport)
    → find_export p (l ++ m) ≡ or_else (find_export p l) (find_export p m)
unfolding find_export
find_export-append p [] m = refl
find_export-append p (e ∷ l) m = elim (Bool-cases (p e)) [
  | inl hit ↦
      find_export-hit p e (l ++ m) hit
      ∙ ap (λ (o : Option NfsExport). or_else o (find_export p m)) (sym (find_export-hit p e l hit))
  | inr miss ↦
      find_export-miss p e (l ++ m) miss
      ∙ find_export-append p l m
      ∙ ap (λ (o : Option NfsExport). or_else o (find_export p m))
          (sym (find_export-miss p e l miss))
]

or_else-none {ℓ} : {A : Type ℓ} → (o : Option A) → or_else o none ≡ o
or_else-none none = refl
or_else-none (some a) = refl

-- What is found was in the list, and passes the test.
find_export-some :
    (p : NfsExport → Bool) (l : List NfsExport) (e : NfsExport)
    → find_export p l ≡ some e
    → (p e ≡ true) × (u : List NfsExport) × (v : List NfsExport) × (l ≡ u ++ (e ∷ v))
unfolding find_export
find_export-some p [] e h = absurd (cc h)
find_export-some p (d ∷ l) e h = elim (Bool-cases (p d)) [
  | inl hit ↦
      let same : d ≡ e = cc (find_export-hit p d l hit, h) in
      (sym (ap p same) ∙ hit, [], l, ap (λ (f : NfsExport). f ∷ l) same)
  | inr miss ↦
      let (pass, u, v, eq) = find_export-some p l e (sym (find_export-miss p d l miss) ∙ h) in
      (pass, d ∷ u, v, ap (λ (m : List NfsExport). d ∷ m) eq)
]

-- The search once a record is added: an older one that passes the test comes first.
add_to_table-find :
    (t : ClientType) (n : ℕ) (exp : NfsExport) (tbl : HashTable) (clp : Place)
    → IsSound t n tbl
    → is_export clp exp.m_export.e_path exp ≡ true
    → find_export (is_export clp exp.m_export.e_path) (add_to_table exp (key exp) tbl).p_head
      ≡ or_else (find_export (is_export clp exp.m_export.e_path) tbl.p_head) (some exp)
unfolding add_to_table
add_to_table-find t n exp tbl clp s pass = added (tbl.entries (key exp)) (s.blocks (key exp))
  where
    path : Bytes
    path = exp.m_export.e_path

    added :
        (entry : Option HashEntry)
        → IsBlock (key exp) tbl.p_head entry
        → find_export (is_export clp exp.m_export.e_path) (
            (elim entry as (λ _. HashTable) [
              | none ↦ record {
                p_head = exp ∷ tbl.p_head;
                entries =
                    put_entry
                      (key exp)
                      (record { p_first = exp.address; p_last = exp.address })
                      tbl.entries;
              }
              | some hen ↦ record {
                p_head = insert_behind hen.p_last exp tbl.p_head;
                entries =
                    put_entry
                      (key exp)
                      (record { p_first = hen.p_first; p_last = exp.address })
                      tbl.entries;
              }
            ]).p_head)
          ≡ or_else (find_export (is_export clp exp.m_export.e_path) tbl.p_head) (some exp)
    added none k =
        let p = is_export clp exp.m_export.e_path in
        find_export-hit p exp tbl.p_head pass
        ∙ ap (λ (o : Option NfsExport). or_else o (some exp))
            (sym (find_export-none p tbl.p_head (not_exports clp exp.m_export.e_path tbl.p_head k)))
    added (some hen) k =
        let p = is_export clp exp.m_export.e_path in
        let block = k.a ++ (k.b ++ (k.z ∷ [])) in
        let cut : (c : List NfsExport) → k.a ++ (k.b ++ (k.z ∷ c)) ≡ block ++ c = λ c. sym (
          append_assoc k.a (k.b ++ (k.z ∷ [])) c
          ∙ ap (λ (m : List NfsExport). k.a ++ m) (append_assoc k.b (k.z ∷ []) c)) in
        let old : find_export p tbl.p_head ≡ find_export p block =
          ap (find_export p) (k.whole ∙ cut k.c)
          ∙ find_export-append p block k.c
          ∙ ap (or_else (find_export p block))
              (find_export-none p k.c (not_exports clp exp.m_export.e_path k.c k.misses_c))
          ∙ or_else-none (find_export p block) in
        ap (find_export p)
          (insert_behind-Block s.hash t n exp tbl.p_head s.records hen k ∙ cut (exp ∷ k.c))
        ∙ find_export-append p block (exp ∷ k.c)
        ∙ ap (or_else (find_export p block)) (find_export-hit p exp k.c pass)
        ∙ ap (λ (o : Option NfsExport). or_else o (some exp)) (sym old)

same_place_refl : (clp : Place) → same_place clp clp ≡ true
same_place_refl (t, i) =
    ground (arith, (==_iff (type_number t) (type_number t)).1 refl, (==_iff i i).1 refl)

-- What export_create returns for a host whose client is found or made
created :
    (r : Resolver) (x : Exports) (hname : Bytes) (xep : Exportent) (lists : Lists) (clp : Place)
    → client_lookup r x.clients hname true ≡ (lists, some clp)
    → export_create r x hname xep true ≡ (
      add_counted (export_init x.next_address clp (record xep { e_hostname = some hname })) lists x,
      some x.next_address,
    )
unfolding export_create
created r x hname xep lists clp e = ap answer e
  where
    answer : Lists × Option Place → Exports × Option ℕ
    answer q = elim q.1 [
      | none ↦ (record x { clients = q.0 }, none)
      | some c ↦ (
        add_counted (export_init x.next_address c (record xep { e_hostname = some hname })) q.0 x,
        some x.next_address,
      )
    ]

not_created :
    (r : Resolver) (x : Exports) (hname : Bytes) (xep : Exportent) (lists : Lists)
    → client_lookup r x.clients hname true ≡ (lists, none)
    → (export_create r x hname xep true).1 ≡ none
unfolding export_create
not_created r x hname xep lists e = ap answer e
  where
    answer : Lists × Option Place → Option ℕ
    answer q =
        (elim q.1 as (λ _. Exports × Option ℕ) [
          | none ↦ (record x { clients = q.0 }, none)
          | some c ↦ (
            add_counted (export_init x.next_address c (record xep { e_hostname = some hname })) q.0
                x,
            some x.next_address,
          )
        ]).1

created_Reachable :
    (r : Resolver) (x : Exports) (hname : Bytes) (xep : Exportent)
    → Reachable r x
    → Reachable r (export_create r x hname xep true).0
unfolding run_call
created_Reachable r x hname xep reached =
    after x (export_create r x hname xep true).0 (create hname xep true) reached refl

-- The search in the table of the client's type behind export_add
add_counted-find :
    (x : Exports) (lists : Lists) (exp : NfsExport)
    → IsSound exp.m_client.0 x.next_address (x.exportlist exp.m_client.0)
    → find_export
        (is_export exp.m_client exp.m_export.e_path)
        ((add_counted exp lists x).exportlist exp.m_client.0).p_head
      ≡ or_else
          (find_export
            (is_export exp.m_client exp.m_export.e_path)
            (x.exportlist exp.m_client.0).p_head)
          (some exp)
unfolding export_add
add_counted-find x lists exp s =
    let clp = exp.m_client in
    let t = clp.0 in
    let path = exp.m_export.e_path in
    let p = is_export clp path in
    let tbl = add_to_table exp (key exp) (x.exportlist t) in
    let pass : p exp ≡ true =
      ap (λ (q : Bool). q && str_eq path path) (same_place_refl clp) ∙ str_eq_refl path in
    ap (λ (q : Bool). find_export p (if q then tbl else x.exportlist t).p_head)
      ((==_iff (type_number t) (type_number t)).1 refl)
    ∙ add_to_table-find t x.next_address exp (x.exportlist t) clp s pass

address_of-or_else :
    (o : Option NfsExport) (e : NfsExport)
    → address_of (or_else o (some e)) ≡ or_else (address_of o) (some e.address)
address_of-or_else none e = refl
address_of-or_else (some d) e = refl

or_else-some {ℓ} : {A : Type ℓ} → (o : Option A) (d : A) → (e : A) × (or_else o (some d) ≡ some e)
or_else-some none d = (d, refl)
or_else-some (some e) d = (e, refl)

-- The record at an address of the client's table, with this client and this path
abbrev pub IsAt : Exports → Place → Bytes → ℕ → Type 0
IsAt x clp path a =
    (e : NfsExport) × (u : List NfsExport) × (v : List NfsExport) × ((x.exportlist clp.0).p_head
      ≡ u ++ (e ∷ v))
    × (e.address ≡ a)
    × (e.m_client ≡ clp)
    × (e.m_export.e_path ≡ path)

both_true : (a b : Bool) → a && b ≡ true → (a ≡ true) × (b ≡ true)
both_true true b h = (refl, h)
both_true false b h = absurd (cc h)

same_place-eq : (c d : Place) → same_place c d ≡ true → c ≡ d
same_place-eq (t, i) (u, k) h =
    let (type, place) = both_true (type_number t == type_number u) (i == k) h in
    ap₂ (λ (v : ClientType) (m : ℕ). (v, m)) (type_number_inj t u type) ((==_iff i k).0 place)

is_export-parts :
    (clp : Place) (path : Bytes) (e : NfsExport)
    → is_export clp path e ≡ true
    → (e.m_client ≡ clp) × (e.m_export.e_path ≡ path)
is_export-parts clp path e h =
    let (place, text) = both_true (same_place e.m_client clp) (str_eq e.m_export.e_path path) h in
    (same_place-eq e.m_client clp place, (str_eq_iff e.m_export.e_path path).0 text)

-- What the look-up finds in `y`: the export that the look-up in `x` finds, or else the one at `a`
abbrev pub FoundIn : Resolver → Exports → Exports → Bytes → Bytes → ℕ → Type 0
FoundIn r x y hname path a =
    (clp : Place) × (b : ℕ) × ((client_lookup r x.clients hname true).1 ≡ some clp)
    × ((export_lookup r y hname path true).1 ≡ some b)
    × (some b ≡ or_else (export_lookup r x hname path true).1 (some a))
    × IsAt y clp path b

-- The look-up in the state that export_create leaves
lookup_new :
    (r : Resolver) (x : Exports) (hname : Bytes) (xep : Exportent) (lists : Lists) (t : ClientType)
    (i : ℕ)
    → Reachable r x
    → client_lookup r x.clients hname true ≡ (lists, some (t, i))
    → Reachable r (
        add_counted
          (export_init x.next_address (t, i) (record xep { e_hostname = some hname }))
          lists
          x)
    → FoundIn r x
        (add_counted
          (export_init x.next_address (t, i) (record xep { e_hostname = some hname }))
          lists
          x)
        hname
        xep.e_path
        x.next_address
unfolding export_init export_add dupexportent
lookup_new r x hname xep lists t i before e reached =
    let exp = export_init x.next_address (t, i) (record xep { e_hostname = some hname }) in
    let y = add_counted exp lists x in
    let path = xep.e_path in
    let p = is_export (t, i) path in
    let after_lists = (client_lookup r y.clients hname true).0 in
    let again : client_lookup r y.clients hname true ≡ (after_lists, some (t, i)) =
      ap (λ (o : Option Place). (after_lists, o)) (counted_again r x.clients lists hname t i e) in
    let old = find_export p (x.exportlist t).p_head in
    let (found, is_found) = or_else-some old exp in
    let in_new : find_export p (y.exportlist t).p_head ≡ or_else old (some exp) =
      add_counted-find x lists exp (Reachable-AreSound r x before t) in
    let (pass, u, v, whole) =
      find_export-some p (y.exportlist t).p_head found (in_new ∙ is_found) in
    let (client, text) = is_export-parts (t, i) path found pass in
    let new_look =
      ap (λ (q : Exports × Option ℕ). q.1)
        (export_lookup-find r y hname path true after_lists (t, i) reached again) in
    let old_look =
      ap (λ (q : Exports × Option ℕ). q.1)
        (export_lookup-find r x hname path true lists (t, i) before e) in
    (
      (t, i),
      found.address,
      ap (λ (q : Lists × Option Place). q.1) e,
      new_look ∙ ap address_of (in_new ∙ is_found),
      ap address_of (sym is_found)
          ∙ address_of-or_else old exp
          ∙ ap (λ (o : Option ℕ). or_else o (some x.next_address)) (sym old_look),
      (found, u, v, whole, refl, client, text),
    )

-- In every state that calls lead to, once export_create has made an export at the address `a` for a
-- canonical name, export_lookup of the same name and path returns the export that it returned before,
-- and the one at `a` if it returned none; and what it returns is in the table of the name's client,
-- with that client and that path.
pub export_lookup-export_create :
    (r : Resolver) (x : Exports) (hname : Bytes) (xep : Exportent) (a : ℕ)
    → Reachable r x
    → (export_create r x hname xep true).1 ≡ some a
    → FoundIn r x (export_create r x hname xep true).0 hname xep.e_path a
export_lookup-export_create r x hname xep a reached made =
    looked_up (client_lookup r x.clients hname true).1 refl
  where
    looked_up :
        (found : Option Place)
        → (client_lookup r x.clients hname true).1 ≡ found
        → FoundIn r x (export_create r x hname xep true).0 hname xep.e_path a
    looked_up none e =
        let lists = (client_lookup r x.clients hname true).0 in
        absurd
          (cc (not_created r x hname xep lists (ap (λ (o : Option Place). (lists, o)) e), made))
    looked_up (some (t, i)) e =
        let lists = (client_lookup r x.clients hname true).0 in
        let pair : client_lookup r x.clients hname true ≡ (lists, some (t, i)) =
          ap (λ (o : Option Place). (lists, o)) e in
        let all = created r x hname xep lists (t, i) pair in
        let state = ap (λ (q : Exports × Option ℕ). q.0) all in
        let address : some x.next_address ≡ some a =
          sym (ap (λ (q : Exports × Option ℕ). q.1) all) ∙ made in
        let same : x.next_address ≡ a = cc address in
        subst (λ y. FoundIn r x y hname xep.e_path a) (sym state)
          (subst (FoundIn r x _ hname xep.e_path) same (
            lookup_new r x hname xep lists t i reached pair
              (subst (Reachable r) state (created_Reachable r x hname xep reached))))
