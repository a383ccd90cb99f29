-- ===== src/Exports/Table/Sound.antt =====
-- The shape of the hash tables of support/export/export.c: the records with one hash stand together in
-- the list, from the record of p_first to the one of p_last.
use nfs_utils.Common.{
  ℕ, ◌<◌, ◌≡◌, ◌≢◌, refl, ap, sym, subst, ◌∙◌, Bool, true, false, Option, none, some, List, [], ◌∷◌,
  ◌++◌, arith, ◌==◌, ==_iff, All, All-append, append-All, Bool-cases, inl, inr, append_assoc,
}
use nfs_utils.Clients.{ClientType}
use nfs_utils.Exports.Table.{NfsExport, HashEntry, HashTable, export_hash, insert_behind}

abbrev pub key : NfsExport → ℕ
key e = export_hash e.m_export.e_path

abbrev pub Misses : ℕ → NfsExport → Type 0
Misses slot e = key e ≢ slot

-- A record of the slot in front of the last one
abbrev pub Before : ℕ → ℕ → NfsExport → Type 0
Before slot last e = (key e ≡ slot) × (e.address ≢ last)

abbrev pub head_address : List NfsExport → NfsExport → ℕ
head_address [] z = z.address
head_address (e ∷ b) z = e.address

-- Where the records of a slot stand: `b` and behind it `z`, with other records around them
pub record Block (slot : ℕ) (hen : HashEntry) (l : List NfsExport) : Type 0 where
  pub a : List NfsExport
  pub b : List NfsExport
  pub z : NfsExport
  pub c : List NfsExport
  pub whole : l ≡ a ++ (b ++ (z ∷ c))
  pub misses_a : All (Misses slot) a
  pub before : All (Before slot hen.p_last) b
  pub key_z : key z ≡ slot
  pub last_z : z.address ≡ hen.p_last
  pub misses_c : All (Misses slot) c
  pub first : head_address b z ≡ hen.p_first

abbrev pub IsBlock : ℕ → List NfsExport → Option HashEntry → Type 0
IsBlock slot l none = All (Misses slot) l
IsBlock slot l (some hen) = Block slot hen l

-- A record of the table of type `t`: `hash` gives the hash of each address that is below `n`.
abbrev pub IsRecord : (ℕ → ℕ) → ClientType → ℕ → NfsExport → Type 0
IsRecord hash t n e = (hash e.address ≡ key e) × (e.address < n) × (e.m_client.0 ≡ t)

pub record IsSound (t : ClientType) (n : ℕ) (tbl : HashTable) : Type 0 where
  pub hash : ℕ → ℕ
  pub records : All (IsRecord hash t n) tbl.p_head
  pub blocks : (slot : ℕ) → IsBlock slot tbl.p_head (tbl.entries slot)

module _ (last : ℕ) (exp : NfsExport) where
  abbrev step : NfsExport → List NfsExport → Bool → List NfsExport
  step e l b = elim b [ true ↦ e ∷ exp ∷ l | false ↦ e ∷ insert_behind last exp l ]

  pub insert_behind-here :
      (e : NfsExport) (l : List NfsExport)
      → (e.address == last) ≡ true
      → insert_behind last exp (e ∷ l) ≡ e ∷ exp ∷ l
  unfolding insert_behind
  insert_behind-here e l h = ap (step e l) h

  pub insert_behind-there :
      (e : NfsExport) (l : List NfsExport)
      → (e.address == last) ≡ false
      → insert_behind last exp (e ∷ l) ≡ e ∷ insert_behind last exp l
  unfolding insert_behind
  insert_behind-there e l h = ap (step e l) h

  insert_behind-skip :
      (l rest : List NfsExport)
      → All (λ e. e.address ≢ last) l
      → insert_behind last exp (l ++ rest) ≡ l ++ insert_behind last exp rest
  insert_behind-skip [] rest h = refl
  insert_behind-skip (e ∷ l) rest h = elim (Bool-cases (e.address == last)) [
    | inl same ↦ absurd (h.0 ((==_iff e.address last).0 same))
    | inr other ↦
        insert_behind-there e (l ++ rest) other
        ∙ ap (λ (m : List NfsExport). e ∷ m) (insert_behind-skip l rest h.1)
  ]

  pub insert_behind-All :
      (P : NfsExport → Type 0) (l : List NfsExport)
      → P exp
      → All P l
      → All P (insert_behind last exp l)
  unfolding insert_behind
  insert_behind-All P [] x h = tt
  insert_behind-All P (e ∷ l) x h = elim (Bool-cases (e.address == last)) [
    | inl same ↦ subst (All P) (sym (insert_behind-here e l same)) (h.0, (x, h.1))
    | inr other ↦
        subst (All P) (sym (insert_behind-there e l other)) (h.0, insert_behind-All P l x h.1)
  ]

  -- Around records that are not the last one, only the two ends change.
  insert_around :
      (slot : ℕ) (a m c : List NfsExport)
      → Misses slot exp
      → All (λ e. e.address ≢ last) m
      → All (Misses slot) a
      → All (Misses slot) c
      → (x : List NfsExport) × (y : List NfsExport) × (insert_behind last exp (a ++ (m ++ c))
          ≡ x ++ (m ++ y))
        × All (Misses slot) x
        × All (Misses slot) y
  insert_around slot [] m c x h p q = (
    [],
    insert_behind last exp c,
    insert_behind-skip m c h,
    tt,
    insert_behind-All (Misses slot) c x q,
  )
  insert_around slot (e ∷ a) m c x h p q = elim (Bool-cases (e.address == last)) [
    | inl same ↦ (e ∷ exp ∷ a, c, insert_behind-here e (a ++ (m ++ c)) same, (p.0, (x, p.1)), q)
    | inr other ↦
        let (l, r, eq, s, t) = insert_around slot a m c x h p.1 q in
        (
          e ∷ l,
          r,
          insert_behind-there e (a ++ (m ++ c)) other ∙ ap (λ (k : List NfsExport). e ∷ k) eq,
          (p.0, s),
          t,
        )
  ]

-- A record with the address of another has its hash.
pub same_key :
    (hash : ℕ → ℕ) (t : ClientType) (n last slot : ℕ) (l : List NfsExport)
    → hash last ≢ slot
    → All (IsRecord hash t n) l
    → All (λ e. key e ≡ slot) l
    → All (λ e. e.address ≢ last) l
same_key hash t n last slot [] h r k = tt
same_key hash t n last slot (e ∷ l) h r k =
    (λ eq. h (ap hash (sym eq) ∙ r.0.0 ∙ k.0), same_key hash t n last slot l h r.1 k.1)

pub other_key :
    (hash : ℕ → ℕ) (t : ClientType) (n last slot : ℕ) (l : List NfsExport)
    → hash last ≡ slot
    → All (IsRecord hash t n) l
    → All (Misses slot) l
    → All (λ e. e.address ≢ last) l
other_key hash t n last slot [] h r k = tt
other_key hash t n last slot (e ∷ l) h r k =
    (λ eq. k.0 (sym r.0.0 ∙ ap hash eq ∙ h), other_key hash t n last slot l h r.1 k.1)

firsts : (slot last : ℕ) (l : List NfsExport) → All (Before slot last) l → All (λ e. key e ≡ slot) l
firsts slot last [] h = tt
firsts slot last (e ∷ l) h = (h.0.0, firsts slot last l h.1)

pub seconds :
    (slot last : ℕ) (l : List NfsExport) → All (Before slot last) l → All (λ e. e.address ≢ last) l
seconds slot last [] h = tt
seconds slot last (e ∷ l) h = (h.0.1, seconds slot last l h.1)

-- The new last record has an address that no other has.
before_new :
    (hash : ℕ → ℕ) (t : ClientType) (n slot : ℕ) (l : List NfsExport)
    → All (IsRecord hash t n) l
    → All (λ e. key e ≡ slot) l
    → All (Before slot n) l
before_new hash t n slot [] r k = tt
before_new hash t n slot (e ∷ l) r k =
    ((k.0, λ eq. omega (arith, r.0.1, eq)), before_new hash t n slot l r.1 k.1)

head_address-append :
    (b : List NfsExport) (z e : NfsExport) → head_address (b ++ z ∷ []) e ≡ head_address b z
head_address-append [] z e = refl
head_address-append (x ∷ b) z e = refl

module _ (hash : ℕ → ℕ) (t : ClientType) (n : ℕ) (exp : NfsExport) (l : List NfsExport)
    (records : All (IsRecord hash t n) l) where
  pub Block-records :
      {slot : ℕ}
      → {hen : HashEntry} → (k : Block slot hen l)
      → All (IsRecord hash t n) k.a × All (IsRecord hash t n) k.b × IsRecord hash t n k.z
  Block-records k =
      let (in_a, rest) =
        append-All (IsRecord hash t n) k.a (k.b ++ (k.z ∷ k.c))
          (subst (All (IsRecord hash t n)) k.whole records) in
      let (in_b, (in_z, in_c)) = append-All (IsRecord hash t n) k.b (k.z ∷ k.c) rest in
      (in_a, in_b, in_z)

  pub last-hash : {slot : ℕ} → {hen : HashEntry} → Block slot hen l → hash hen.p_last ≡ slot
  last-hash k =
      let (in_a, in_b, in_z) = Block-records k in ap hash (sym k.last_z) ∙ in_z.0 ∙ k.key_z

  -- The new record stands behind the last one of its block.
  pub insert_behind-Block :
      (hen : HashEntry) (k : Block (key exp) hen l)
      → insert_behind hen.p_last exp l ≡ k.a ++ (k.b ++ (k.z ∷ exp ∷ k.c))
  insert_behind-Block hen k =
      let (in_a, in_b, in_z) = Block-records k in
      ap (insert_behind hen.p_last exp) k.whole
      ∙ insert_behind-skip hen.p_last exp k.a (k.b ++ (k.z ∷ k.c))
          (other_key hash t n hen.p_last (key exp) k.a (last-hash k) in_a k.misses_a)
      ∙ ap (λ (m : List NfsExport). k.a ++ m)
          (insert_behind-skip hen.p_last exp k.b (k.z ∷ k.c)
              (seconds (key exp) hen.p_last k.b k.before)
            ∙ ap (λ (m : List NfsExport). k.b ++ m)
                (insert_behind-here hen.p_last exp k.z k.c
                  ((==_iff k.z.address hen.p_last).1 k.last_z)))

  -- The block of the new record
  pub own-Block :
      (hen : HashEntry)
      → exp.address ≡ n
      → Block (key exp) hen l
      → Block
          (key exp)
          (record { p_first = hen.p_first; p_last = exp.address })
          (insert_behind hen.p_last exp l)
  own-Block hen new k =
      let slot = key exp in
      let (in_a, in_b, in_z) = Block-records k in
      let hash_last : hash hen.p_last ≡ slot = last-hash k in
      let z_last = (==_iff k.z.address hen.p_last).1 k.last_z in
      let keys = firsts slot hen.p_last k.b k.before in
      record {
        a = k.a;
        b = k.b ++ k.z ∷ [];
        z = exp;
        c = k.c;
        whole =
            insert_behind-Block hen k
            ∙ ap (λ (m : List NfsExport). k.a ++ m) (sym (append_assoc k.b (k.z ∷ []) (exp ∷ k.c)));
        misses_a = k.misses_a;
        before =
            subst (λ m. All (Before slot m) (k.b ++ k.z ∷ [])) (sym new)
              (All-append (Before slot n) k.b (k.z ∷ []) (before_new hash t n slot k.b in_b keys)
                (before_new hash t n slot (k.z ∷ []) (in_z, tt) (k.key_z, tt)));
        key_z = refl;
        last_z = refl;
        misses_c = k.misses_c;
        first = head_address-append k.b k.z exp ∙ k.first;
      }

  -- The block of another slot
  pub other-IsBlock :
      (slot last : ℕ) (entry : Option HashEntry)
      → Misses slot exp
      → hash last ≢ slot
      → IsBlock slot l entry
      → IsBlock slot (insert_behind last exp l) entry
  other-IsBlock slot last none x h k = insert_behind-All last exp (Misses slot) l x k
  other-IsBlock slot last (some hen) x h k =
      let (in_a, in_b, in_z) = Block-records k in
      let m = k.b ++ k.z ∷ [] in
      let apart =
        same_key hash t n last slot m h
          (All-append (IsRecord hash t n) k.b (k.z ∷ []) in_b (in_z, tt))
          (All-append (λ e. key e ≡ slot) k.b (k.z ∷ []) (firsts slot hen.p_last k.b k.before)
            (k.key_z, tt)) in
      let (a, c, eq, p, q) = insert_around last exp slot k.a m k.c x apart k.misses_a k.misses_c in
      record {
        a = a;
        b = k.b;
        z = k.z;
        c = c;
        whole =
            ap (insert_behind last exp) (
              k.whole
              ∙ ap (λ (r : List NfsExport). k.a ++ r) (sym (append_assoc k.b (k.z ∷ []) k.c)))
            ∙ eq
            ∙ ap (λ (r : List NfsExport). a ++ r) (append_assoc k.b (k.z ∷ []) c);
        misses_a = p;
        before = k.before;
        key_z = k.key_z;
        last_z = k.last_z;
        misses_c = q;
        first = k.first;
      }

  -- The new record in front of the list
  pub pushed-IsBlock :
      (slot : ℕ) (entry : Option HashEntry)
      → Misses slot exp
      → IsBlock slot l entry
      → IsBlock slot (exp ∷ l) entry
  pushed-IsBlock slot none x k = (x, k)
  pushed-IsBlock slot (some hen) x k = record {
    a = exp ∷ k.a;
    b = k.b;
    z = k.z;
    c = k.c;
    whole = ap (λ (r : List NfsExport). exp ∷ r) k.whole;
    misses_a = (x, k.misses_a);
    before = k.before;
    key_z = k.key_z;
    last_z = k.last_z;
    misses_c = k.misses_c;
    first = k.first;
  }
