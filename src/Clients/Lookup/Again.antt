-- ===== src/Clients/Lookup/Again.antt =====
-- client_lookup of support/export/client.c, called twice.
use nfs_utils.Common.{
  subst, and_false, length, fun_ext, ℕ, ◌≡◌, ◌≢◌, refl, ap, sym, ◌∙◌, Bool, true, false, ◌&&◌,
  Option, none, some, List, [], ◌∷◌, ◌++◌, ◌==◌, ==_iff, both, if◌then◌else◌, Bytes, All, map,
  to_lower, case_eq, case_eq_iff,
}
use nfs_utils.Clients.{
  Address, unset, in4, in6, Client, ClientType, type_number, init_addrlist, client_gettype,
}
use nfs_utils.Clients.Masks.{
  Parsers, init_subnetwork, with_subnet, before_slash, init_netmask4, init_netmask6,
}
use nfs_utils.Clients.Lookup.{
  Resolver, Lists, Place, put_list, client_init, client_add, split_at, blank_client, with_addresses,
  find_or_add, is_fqdn, is_subnetwork, client_lookup,
}
use nfs_utils.Clients.Lookup.Tables.{Fails, Split, split_at-Split, split_at-first}

-- Without addresses the last step changes nothing.
with_addresses-none : (clp : Client) → with_addresses clp none ≡ clp
unfolding init_addrlist
with_addresses-none clp = same (is_fqdn clp.m_type && clp.m_naddr == 0)
  where
    same : (b : Bool) → (if b then init_addrlist clp none else clp) ≡ clp
    same true = refl
    same false = refl

abbrev Named : ClientType → Bytes → Option Client → Type 0
Named t hname none = Unit
Named t hname (some clp) = (clp.m_type ≡ t) × (clp.m_hostname ≡ hname)

init_subnetwork-Named :
    (ps : Parsers) (clp : Client) → Named clp.m_type clp.m_hostname (init_subnetwork ps clp)
unfolding init_subnetwork
init_subnetwork-Named ps clp = parsed (ps.host_pton (before_slash clp.m_hostname).0)
  where
    slash : Option Bytes
    slash = (before_slash clp.m_hostname).1

    masked :
        (a : Address) (m : Option Address)
        → Named clp.m_type clp.m_hostname
            (elim m [ none ↦ none | some k ↦ some (with_subnet clp a k) ])
    masked a none = tt
    masked a (some k) = (refl, refl)

    masked4 :
        (a : ℕ) (r : Option ℕ)
        → Named clp.m_type clp.m_hostname
            (elim r [ none ↦ none | some m ↦ some (with_subnet clp (in4 a) (in4 m)) ])
    masked4 a none = tt
    masked4 a (some m) = (refl, refl)

    masked6 :
        (a : List ℕ) (scope : ℕ) (r : Option (List ℕ))
        → Named clp.m_type clp.m_hostname
            (elim r [ none ↦ none | some m ↦ some (with_subnet clp (in6 a scope) (in6 m 0)) ])
    masked6 a scope none = tt
    masked6 a scope (some m) = (refl, refl)

    parsed :
        (r : Option Address)
        → Named clp.m_type clp.m_hostname (elim r [
          | none ↦ none
          | some unset ↦ none
          | some (in4 a) ↦ elim (init_netmask4 ps slash) [
            | none ↦ none
            | some m ↦ some (with_subnet clp (in4 a) (in4 m))
          ]
          | some (in6 a scope) ↦ elim (init_netmask6 ps slash) [
            | none ↦ none
            | some m ↦ some (with_subnet clp (in6 a scope) (in6 m 0))
          ]
        ])
    parsed none = tt
    parsed (some unset) = tt
    parsed (some (in4 a)) = masked4 a (init_netmask4 ps slash)
    parsed (some (in6 a scope)) = masked6 a scope (init_netmask6 ps slash)

client_init-Named :
    (ps : Parsers) (clp : Client) (hname : Bytes)
    → Named clp.m_type hname (client_init ps clp hname none)
unfolding client_init init_addrlist
client_init-Named ps clp hname =
    let c = record clp { m_hostname = hname; m_exported = false; m_count = 0; m_naddr = 0 } in
    both (Named clp.m_type hname) (is_subnetwork c.m_type) (init_subnetwork ps c) (some c)
      (init_subnetwork-Named ps c) (refl, refl)

put_list-same : (t : ClientType) (l : List Client) (lists : Lists) → put_list t l lists t ≡ l
put_list-same t l lists = rw ((==_iff (type_number t) (type_number t)).1 refl) refl

-- What find_or_add returns for a client that it has added, and in its two cases
abbrev added_result : Parsers → ClientType → Lists → Option Client → Lists × Option Place
added_result ps t lists none = (lists, none)
added_result ps t lists (some clp) = (client_add clp lists, some (t, length (lists t)))

abbrev result_of :
    Parsers
    → ClientType
    → Bytes
    → Lists
    → Option (List Client × Client × List Client)
    → Lists × Option Place
result_of ps t hname lists r = elim r [
  | some (before, clp, after) ↦
      let c = with_addresses clp none in
      (put_list t (before ++ c ∷ after) lists, some (t, length before))
  | none ↦ elim (client_init ps (blank_client t) hname none) [
    | none ↦ (lists, none)
    | some clp ↦ let c = with_addresses clp none in (client_add c lists, some (t, length (lists t)))
  ]
]

find_or_add-found :
    (ps : Parsers) (t : ClientType) (hname : Bytes) (p : Client → Bool) (lists : Lists)
    (a b : List Client) (c : Client)
    → split_at p (lists t) ≡ some (a, c, b)
    → find_or_add ps t hname none p lists ≡ (put_list t (a ++ (c ∷ b)) lists, some (t, length a))
unfolding find_or_add
find_or_add-found ps t hname p lists a b c e =
    ap (result_of ps t hname lists) e
    ∙ ap (λ (d : Client). (put_list t (a ++ (d ∷ b)) lists, some (t, length a)))
        (with_addresses-none c)

find_or_add-absent :
    (ps : Parsers) (t : ClientType) (hname : Bytes) (p : Client → Bool) (lists : Lists)
    → split_at p (lists t) ≡ none
    → find_or_add ps t hname none p lists
      ≡ added_result ps t lists (client_init ps (blank_client t) hname none)
unfolding find_or_add
find_or_add-absent ps t hname p lists e =
    ap (result_of ps t hname lists) e ∙ plain (client_init ps (blank_client t) hname none)
  where
    plain :
        (q : Option Client)
        → elim q [
          | none ↦ (lists, none)
          | some clp ↦
              let c = with_addresses clp none in (client_add c lists, some (t, length (lists t)))
        ]
          ≡ added_result ps t lists q
    plain none = refl
    plain (some clp) =
        ap (λ (d : Client). (client_add d lists, some (t, length (lists t))))
          (with_addresses-none clp)

-- The search in the list that a search has left
module _ (ps : Parsers) (t : ClientType) (hname : Bytes) (p : Client → Bool) (lists : Lists) where
  abbrev search_again : Lists → Lists × Option Place
  search_again l = find_or_add ps t hname none p l

  put_twice : (m : List Client) → put_list t m (put_list t m lists) ≡ put_list t m lists
  put_twice m = fun_ext λ u. twice (type_number u == type_number t) m (lists u)
    where
      twice :
          (b : Bool) (x y : List Client)
          → (if b then x else (if b then x else y)) ≡ (if b then x else y)
      twice true x y = refl
      twice false x y = refl

  found_again :
      (a b : List Client) (c : Client)
      → All (Fails p) a
      → p c ≡ true
      → search_again (put_list t (a ++ (c ∷ b)) lists)
        ≡ (put_list t (a ++ (c ∷ b)) lists, some (t, length a))
  found_again a b c h e =
      let l = put_list t (a ++ (c ∷ b)) lists in
      find_or_add-found ps t hname p l a b c
        (ap (split_at p) (put_list-same t (a ++ (c ∷ b)) lists) ∙ split_at-first p a b c h e)
      ∙ ap (λ (m : Lists). (m, some (t, length a))) (put_twice (a ++ (c ∷ b)))

  client_add-put :
      (clp : Client)
      → clp.m_type ≡ t
      → client_add clp lists ≡ put_list t (lists t ++ clp ∷ []) lists
  unfolding client_add
  client_add-put clp h = ap (λ (u : ClientType). put_list u (lists u ++ clp ∷ []) lists) h

  -- A client that has been found or added is found again, and the lists stay.
  again_from :
      ((clp : Client) → clp.m_hostname ≡ hname → p clp ≡ true)
      → (r : Option (List Client × Client × List Client)) → split_at p (lists t) ≡ r
      → Split (λ _. Unit {0}) p (lists t) r
      → (search_again lists).1 ≢ none
      → search_again (search_again lists).0 ≡ search_again lists
  again_from names none e (fails, _) ok =
      let first = find_or_add-absent ps t hname p lists e in
      added (client_init ps (blank_client t) hname none)
        (client_init-Named ps (blank_client t) hname) first
    where
      added :
          (q : Option Client)
          → Named t hname q
          → search_again lists ≡ added_result ps t lists q
          → search_again (search_again lists).0 ≡ search_again lists
      added none n k = absurd (ok (ap (λ (x : Lists × Option Place). x.1) k))
      added (some clp) n k =
          let result : search_again lists
              ≡ (put_list t (lists t ++ clp ∷ []) lists, some (t, length (lists t))) =
            k ∙ ap (λ (l : Lists). (l, some (t, length (lists t)))) (client_add-put clp n.0) in
          ap (λ (x : Lists × Option Place). search_again x.0) result
          ∙ found_again (lists t) [] clp fails (names clp n.1)
          ∙ sym result
  again_from names (some (a, c, b)) e (fails, pass, _) ok =
      let result = find_or_add-found ps t hname p lists a b c e in
      ap (λ (x : Lists × Option Place). search_again x.0) result
      ∙ found_again a b c fails pass
      ∙ sym result

-- The place of the first client that passes the test
abbrev pub index : (Client → Bool) → List Client → Option ℕ
index p l = elim (split_at p l) [ none ↦ none | some (a, c, b) ↦ some (length a) ]

abbrev index_of : Option (List Client × Client × List Client) → Option ℕ
index_of r = elim r [ none ↦ none | some (a, c, b) ↦ some (length a) ]

-- A list in which the search finds its client answers with its place.
pub find_or_add-index :
    (ps : Parsers) (t : ClientType) (hname : Bytes) (p : Client → Bool) (lists : Lists) (i : ℕ)
    → index p (lists t) ≡ some i
    → (find_or_add ps t hname none p lists).1 ≡ some (t, i)
find_or_add-index ps t hname p lists i h = found (split_at p (lists t)) refl
  where
    found :
        (q : Option (List Client × Client × List Client))
        → split_at p (lists t) ≡ q
        → (find_or_add ps t hname none p lists).1 ≡ some (t, i)
    found none e = absurd (cc (ap index_of e, h))
    found (some (a, c, b)) e =
        ap (λ (x : Lists × Option Place). x.1) (find_or_add-found ps t hname p lists a b c e)
        ∙ ap (λ (o : Option ℕ). elim o [ none ↦ none | some k ↦ some (t, k) ])
            (sym (ap index_of e) ∙ h)

-- What a search leaves: the client that is returned is the first that passes the test.
abbrev Found : ClientType → (Client → Bool) → Lists × Option Place → Type 0
Found t p (lists, none) = Unit
Found t p (lists, some (u, i)) = (u ≡ t) × (index p (lists t) ≡ some i)

find_or_add-Found :
    (ps : Parsers) (t : ClientType) (hname : Bytes) (p : Client → Bool) (lists : Lists)
    → ((clp : Client) → clp.m_hostname ≡ hname → p clp ≡ true)
    → (r : Option (List Client × Client × List Client)) → split_at p (lists t) ≡ r
    → Split (λ _. Unit {0}) p (lists t) r
    → Found t p (find_or_add ps t hname none p lists)
find_or_add-Found ps t hname p lists names none e (fails, _) =
    added (client_init ps (blank_client t) hname none) (client_init-Named ps (blank_client t) hname)
      (find_or_add-absent ps t hname p lists e)
  where
    added :
        (q : Option Client)
        → Named t hname q
        → find_or_add ps t hname none p lists ≡ added_result ps t lists q
        → Found t p (find_or_add ps t hname none p lists)
    added none n k = subst (Found t p) (sym k) tt
    added (some clp) n k =
        subst (Found t p)
          (sym (
            k
            ∙ ap (λ (l : Lists). (l, some (t, length (lists t))))
                (client_add-put ps t hname p lists clp n.0)))
          (
            refl,
            ap index_of (
                ap (split_at p) (put_list-same t (lists t ++ clp ∷ []) lists)
                ∙ split_at-first p (lists t) [] clp fails (names clp n.1)),
          )
find_or_add-Found ps t hname p lists names (some (a, c, b)) e (fails, pass, _) =
    subst (Found t p) (sym (find_or_add-found ps t hname p lists a b c e)) (
      refl,
      ap index_of (
          ap (split_at p) (put_list-same t (a ++ (c ∷ b)) lists)
          ∙ split_at-first p a b c fails pass),
    )

trivial : (l : List Client) → All (λ _. Unit {0}) l
trivial [] = tt
trivial (c ∷ l) = (tt, trivial l)

case_eq_refl : (s t : Bytes) → t ≡ s → case_eq s t ≡ true
case_eq_refl s t h = (case_eq_iff s t).1 (ap (map to_lower) (sym h))

client_lookup-canonical :
    (r : Resolver) (lists : Lists) (hname : Bytes)
    → client_lookup r lists hname true
      ≡ find_or_add r.parsers
          (client_gettype hname)
          hname
          none
          (λ clp. case_eq hname clp.m_hostname)
          lists
unfolding client_lookup
client_lookup-canonical r lists hname =
    rw (and_false (is_fqdn (client_gettype hname)), client_lookup) refl

-- A look-up of a canonical name that has returned a pointer returns the same one again, and changes
-- the lists no further.
pub client_lookup_again :
    (r : Resolver) (lists : Lists) (hname : Bytes)
    → (client_lookup r lists hname true).1 ≢ none
    → client_lookup r (client_lookup r lists hname true).0 hname true
      ≡ client_lookup r lists hname true
client_lookup_again r lists hname ok =
    let t = client_gettype hname in
    let p : Client → Bool = λ clp. case_eq hname clp.m_hostname in
    let canonical = client_lookup-canonical r lists hname in
    let everything : All (λ _. Unit {0}) (lists t) = trivial (lists t) in
    ap (λ (x : Lists × Option Place). client_lookup r x.0 hname true) canonical
    ∙ client_lookup-canonical r (find_or_add r.parsers t hname none p lists).0 hname
    ∙ again_from r.parsers t hname p lists (λ clp e. case_eq_refl hname clp.m_hostname e)
        (split_at p (lists t)) refl (split_at-Split (λ _. Unit {0}) p (lists t) everything)
        (λ e. ok (ap (λ (x : Lists × Option Place). x.1) canonical ∙ e))
    ∙ sym canonical

-- A canonical name that has been looked up is found at its place from then on, in all lists that
-- keep the places of the names.
pub client_lookup-index :
    (r : Resolver) (lists after : Lists) (hname : Bytes) (u : ClientType) (i : ℕ)
    → (client_lookup r lists hname true).1 ≡ some (u, i)
    → index (λ clp. case_eq hname clp.m_hostname) (after u)
      ≡ index (λ clp. case_eq hname clp.m_hostname) ((client_lookup r lists hname true).0 u)
    → (client_lookup r after hname true).1 ≡ some (u, i)
client_lookup-index r lists after hname u i h same =
    let t = client_gettype hname in
    let p : Client → Bool = λ clp. case_eq hname clp.m_hostname in
    let everything : All (λ _. Unit {0}) (lists t) = trivial (lists t) in
    let found : Found t p (client_lookup r lists hname true) =
      subst (Found t p) (sym (client_lookup-canonical r lists hname)) (
        find_or_add-Found r.parsers t hname p lists (λ clp e. case_eq_refl hname clp.m_hostname e)
          (split_at p (lists t)) refl (split_at-Split (λ _. Unit {0}) p (lists t) everything)) in
    let (type, place) = subst (λ o. Found t p ((client_lookup r lists hname true).0, o)) h found in
    let there : index p (after t) ≡ some i =
      subst (λ v. index p (after v) ≡ index p ((client_lookup r lists hname true).0 v)) type same
      ∙ place in
    ap (λ (x : Lists × Option Place). x.1) (client_lookup-canonical r after hname)
    ∙ find_or_add-index r.parsers t hname p after i there
    ∙ ap (λ (v : ClientType). some (v, i)) (sym type)
