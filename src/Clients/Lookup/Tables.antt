-- ===== src/Clients/Lookup/Tables.antt =====
-- The lists of clients under client_lookup, client_dup and client_freeall of
-- support/export/client.c.
use nfs_utils.Common.{
  length, ℕ, zero, suc, ◌+◌, ◌≤◌, ◌≡◌, refl, ap, sym, subst, ◌∙◌, Bool, true, false, not, ◌&&◌,
  Option, none, some, List, [], ◌∷◌, ◌++◌, arith, ◌==◌, ==_iff, both, Bytes, All, All-append,
  append-All, case_eq, Bool-cases, inl, inr,
}
use nfs_utils.Clients.{
  Address, unset, in4, in6, Client, ClientType, fqdn, subnetwork, wildcard, netgroup, anonymous,
  gss, type_number, AddrInfo, addresses, init_addrlist, fill_addrlist, set_addrlist, client_gettype,
}
use nfs_utils.Clients.Masks.{
  Parsers, init_subnetwork, with_subnet, before_slash, init_netmask4, init_netmask6,
}
use nfs_utils.Clients.Lookup.{
  Resolver, Lists, Place, put_list, client_check, client_init, client_add, split_at, blank_client,
  with_addresses, find_or_add, is_fqdn, is_subnetwork, client_lookup, client_dup, client_freeall,
}

-- A client of the list for its type, with no more addresses than there is room for
abbrev pub IsSoundIn : ClientType → Client → Type 0
IsSoundIn t clp = (clp.m_type ≡ t) × (clp.m_naddr ≤ 16)

abbrev pub IsSound : Lists → Type 0
IsSound lists = (t : ClientType) → All (IsSoundIn t) (lists t)

fill_addrlist-le :
    (n i : ℕ) (ai : List Address) (slots : ℕ → Address) → (fill_addrlist n i ai slots).1 ≤ i + n
unfolding fill_addrlist
fill_addrlist-le zero i ai slots = omega arith
fill_addrlist-le (suc n) i [] slots = omega arith
fill_addrlist-le (suc n) i (a ∷ ai) slots =
    omega (arith, fill_addrlist-le n (i + 1) ai (set_addrlist slots i a))

init_addrlist-IsSound :
    (t : ClientType) (clp : Client) (ai : Option AddrInfo)
    → IsSoundIn t clp
    → IsSoundIn t (init_addrlist clp ai)
unfolding init_addrlist
init_addrlist-IsSound t clp none h = h
init_addrlist-IsSound t clp (some ai) h = (h.0, fill_addrlist-le 16 0 (addresses ai) clp.m_addrlist)

with_addresses-IsSound :
    (t : ClientType) (clp : Client) (ai : Option AddrInfo)
    → IsSoundIn t clp
    → IsSoundIn t (with_addresses clp ai)
with_addresses-IsSound t clp ai h =
    both (IsSoundIn t) (is_fqdn clp.m_type && clp.m_naddr == 0) (init_addrlist clp ai) clp
      (init_addrlist-IsSound t clp ai h) h

type_of : ℕ → ClientType
type_of zero = fqdn
type_of (suc zero) = subnetwork
type_of (suc (suc zero)) = wildcard
type_of (suc (suc (suc zero))) = netgroup
type_of (suc (suc (suc (suc zero)))) = anonymous
type_of (suc (suc (suc (suc (suc n))))) = gss

type_of-type_number : (t : ClientType) → type_of (type_number t) ≡ t
unfolding type_of
type_of-type_number fqdn = refl
type_of-type_number subnetwork = refl
type_of-type_number wildcard = refl
type_of-type_number netgroup = refl
type_of-type_number anonymous = refl
type_of-type_number gss = refl

pub type_number_inj : (u t : ClientType) → (type_number u == type_number t) ≡ true → u ≡ t
type_number_inj u t h =
    sym (type_of-type_number u)
    ∙ ap type_of ((==_iff (type_number u) (type_number t)).0 h)
    ∙ type_of-type_number t

put_list-IsSound :
    (t : ClientType) (l : List Client) (lists : Lists)
    → All (IsSoundIn t) l
    → IsSound lists
    → IsSound (put_list t l lists)
put_list-IsSound t l lists h s u = elim (Bool-cases (type_number u == type_number t)) [
  | inl e ↦ rw e (subst (λ v. All (IsSoundIn v) l) (sym (type_number_inj u t e)) h)
  | inr e ↦ rw e (s u)
]

abbrev pub Fails : (Client → Bool) → Client → Type 0
Fails p c = p c ≡ false

-- What a search has found, and that all in it has the property of the list
abbrev pub Split {κ} :
    (Client → Type κ)
    → (Client → Bool)
    → List Client
    → Option (List Client × Client × List Client)
    → Type κ
Split P p l none = All (Fails p) l × All P l
Split P p l (some (a, c, b)) = All (Fails p) a × (p c ≡ true) × All P (a ++ (c ∷ b))

pub split_at-Split {κ} :
    (P : Client → Type κ) (p : Client → Bool) (l : List Client)
    → All P l
    → Split P p l (split_at p l)
unfolding split_at
split_at-Split P p [] h = (tt, tt)
split_at-Split P p (d ∷ l) h = elim (Bool-cases (p d)) [
  | inl e ↦ rw (e, split_at) (tt, e, h)
  | inr e ↦ rw (e, split_at) (grown e (split_at p l) (split_at-Split P p l h.1))
]
  where
    grown :
        p d ≡ false
        → (r : Option (List Client × Client × List Client)) → Split P p l r
        → Split P p (d ∷ l) (elim r [ none ↦ none | some (a, c, b) ↦ some (d ∷ a, c, b) ])
    grown e none k = ((e, k.0), (h.0, k.1))
    grown e (some (a, c, b)) k = ((e, k.0), k.1, (h.0, k.2))

-- The first client that passes is found.
pub split_at-first :
    (p : Client → Bool) (a b : List Client) (c : Client)
    → All (Fails p) a
    → p c ≡ true
    → split_at p (a ++ (c ∷ b)) ≡ some (a, c, b)
unfolding split_at
split_at-first p [] b c h e = rw (e, split_at) refl
split_at-first p (d ∷ a) b c h e =
    rw (h.0, split_at)
      (ap
        (λ (r : Option (List Client × Client × List Client)). elim r [
          | none ↦ none
          | some (x, y, z) ↦ some (d ∷ x, y, z)
        ])
        (split_at-first p a b c h.1 e))

abbrev MaybeSound : ClientType → Option Client → Type 0
MaybeSound t none = Unit
MaybeSound t (some clp) = IsSoundIn t clp

init_subnetwork-IsSound :
    (ps : Parsers) (t : ClientType) (clp : Client)
    → IsSoundIn t clp
    → MaybeSound t (init_subnetwork ps clp)
unfolding init_subnetwork
init_subnetwork-IsSound ps t clp h = parsed (ps.host_pton (before_slash clp.m_hostname).0)
  where
    slash : Option Bytes
    slash = (before_slash clp.m_hostname).1

    masked4 :
        (a : ℕ) (r : Option ℕ)
        → MaybeSound t (elim r [ none ↦ none | some m ↦ some (with_subnet clp (in4 a) (in4 m)) ])
    masked4 a none = tt
    masked4 a (some m) = h

    masked6 :
        (a : List ℕ) (scope : ℕ) (r : Option (List ℕ))
        → MaybeSound t
            (elim r [ none ↦ none | some m ↦ some (with_subnet clp (in6 a scope) (in6 m 0)) ])
    masked6 a scope none = tt
    masked6 a scope (some m) = h

    parsed :
        (r : Option Address)
        → MaybeSound t (elim r [
          | none ↦ none
          | some unset ↦ none
          | some (in4 a) ↦ elim (init_netmask4 ps slash) [
            | none ↦ none
            | some m ↦ some (with_subnet clp (in4 a) (in4 m))
          ]
          | some (in6 a scope) ↦ elim (init_netmask6 ps slash) [
            | none ↦ none
            | some m ↦ some (with_subnet clp (in6 a scope) (in6 m 0))
          ]
        ])
    parsed none = tt
    parsed (some unset) = tt
    parsed (some (in4 a)) = masked4 a (init_netmask4 ps slash)
    parsed (some (in6 a scope)) = masked6 a scope (init_netmask6 ps slash)

client_init-IsSound :
    (ps : Parsers) (t : ClientType) (clp : Client) (hname : Bytes) (ai : Option AddrInfo)
    → clp.m_type ≡ t
    → MaybeSound t (client_init ps clp hname ai)
unfolding client_init
client_init-IsSound ps t clp hname ai h =
    let c = record clp { m_hostname = hname; m_exported = false; m_count = 0; m_naddr = 0 } in
    both (MaybeSound t) (is_subnetwork c.m_type) (init_subnetwork ps c) (some (init_addrlist c ai))
      (init_subnetwork-IsSound ps t c (h, omega arith))
      (init_addrlist-IsSound t c ai (h, omega arith))

client_add-IsSound :
    (t : ClientType) (clp : Client) (lists : Lists)
    → IsSoundIn t clp
    → IsSound lists
    → IsSound (client_add clp lists)
unfolding client_add
client_add-IsSound t clp lists h s =
    put_list-IsSound clp.m_type (lists clp.m_type ++ clp ∷ []) lists
      (All-append (IsSoundIn clp.m_type) (lists clp.m_type) (clp ∷ []) (s clp.m_type)
        ((refl, h.1), tt))
      s

-- The lists of a result
abbrev pub ResultSound : Lists × Option Place → Type 0
ResultSound r = IsSound r.0

parts :
    (t : ClientType) (a : List Client) (c : Client) (b : List Client)
    → All (IsSoundIn t) (a ++ (c ∷ b))
    → All (IsSoundIn t) a × IsSoundIn t c × All (IsSoundIn t) b
parts t a c b h = let (x, y) = append-All (IsSoundIn t) a (c ∷ b) h in (x, y.0, y.1)

find_or_add-IsSound :
    (ps : Parsers) (t : ClientType) (hname : Bytes) (ai : Option AddrInfo) (p : Client → Bool)
    (lists : Lists)
    → IsSound lists
    → ResultSound (find_or_add ps t hname ai p lists)
unfolding find_or_add
find_or_add-IsSound ps t hname ai p lists s =
    found (split_at p (lists t)) (split_at-Split (IsSoundIn t) p (lists t) (s t))
  where
    added :
        (r : Option Client)
        → MaybeSound t r
        → ResultSound (elim r [
          | none ↦ (lists, none)
          | some clp ↦
              let c = with_addresses clp ai in (client_add c lists, some (t, length (lists t)))
        ])
    added none h = s
    added (some clp) h =
        client_add-IsSound t (with_addresses clp ai) lists (with_addresses-IsSound t clp ai h) s

    found :
        (r : Option (List Client × Client × List Client))
        → Split (IsSoundIn t) p (lists t) r
        → ResultSound (elim r [
          | some (before, clp, after) ↦
              let c = with_addresses clp ai in
              (put_list t (before ++ c ∷ after) lists, some (t, length before))
          | none ↦ elim (client_init ps (blank_client t) hname none) [
            | none ↦ (lists, none)
            | some clp ↦
                let c = with_addresses clp ai in (client_add c lists, some (t, length (lists t)))
          ]
        ])
    found none h =
        added (client_init ps (blank_client t) hname none)
          (client_init-IsSound ps t (blank_client t) hname none refl)
    found (some (before, clp, after)) h =
        let (front, here, behind) = parts t before clp after h.2 in
        put_list-IsSound t (before ++ with_addresses clp ai ∷ after) lists
          (All-append (IsSoundIn t) before (with_addresses clp ai ∷ after) front
            (with_addresses-IsSound t clp ai here, behind))
          s

client_lookup-IsSound :
    (r : Resolver) (lists : Lists) (hname : Bytes) (canonical : Bool)
    → IsSound lists
    → ResultSound (client_lookup r lists hname canonical)
unfolding client_lookup
client_lookup-IsSound r lists hname canonical s =
    let t = client_gettype hname in
    both ResultSound (is_fqdn t && not canonical) _ _ (resolved (r.host_addrinfo hname))
      (find_or_add-IsSound r.parsers t hname none (λ clp. case_eq hname clp.m_hostname) lists s)
  where
    resolved :
        (q : Option AddrInfo)
        → ResultSound (elim q [
          | none ↦ (lists, none)
          | some ai ↦
              find_or_add r.parsers
                (client_gettype hname)
                ai.canonname
                (some ai)
                (λ clp. client_check r clp ai)
                lists
        ])
    resolved none = s
    resolved (some ai) =
        find_or_add-IsSound r.parsers (client_gettype hname) ai.canonname (some ai)
          (λ clp. client_check r clp ai) lists s

client_dup-IsSound :
    (ps : Parsers) (clp : Client) (ai : AddrInfo) (lists : Lists)
    → IsSound lists
    → ResultSound (client_dup ps clp ai lists)
unfolding client_dup
client_dup-IsSound ps clp ai lists s =
    let copy = record clp { m_type = fqdn; m_match_gen = 0; m_match = false } in
    added (client_init ps copy ai.canonname (some ai))
      (client_init-IsSound ps fqdn copy ai.canonname (some ai) refl)
  where
    added :
        (q : Option Client)
        → MaybeSound fqdn q
        → ResultSound (elim q [
          | none ↦ (lists, none)
          | some new ↦ (client_add new lists, some (fqdn, length (lists fqdn)))
        ])
    added none h = s
    added (some new) h = client_add-IsSound fqdn new lists h s

-- The calls that change the lists
pub data Call : Type 0 where
  lookup : Bytes → Bool → Call
  dup : Client → AddrInfo → Call
  freeall : Call

pub run_call : Resolver → Lists → Call → Lists
run_call r lists (lookup hname canonical) = (client_lookup r lists hname canonical).0
run_call r lists (dup clp ai) = (client_dup r.parsers clp ai lists).0
run_call r lists freeall = client_freeall lists

pub run_calls : Resolver → Lists → List Call → Lists
unfolding run_call
run_calls r lists [] = lists
run_calls r lists (c ∷ l) = run_calls r (run_call r lists c) l

run_call-IsSound :
    (r : Resolver) (lists : Lists) (c : Call) → IsSound lists → IsSound (run_call r lists c)
unfolding run_call client_freeall
run_call-IsSound r lists (lookup hname canonical) s =
    client_lookup-IsSound r lists hname canonical s
run_call-IsSound r lists (dup clp ai) s = client_dup-IsSound r.parsers clp ai lists s
run_call-IsSound r lists freeall s = λ t. tt

-- Whatever is looked up, copied and freed, every client stands in the list of its type and has at most
-- 16 addresses, if that held at the start.
pub run_calls-IsSound :
    (r : Resolver) (lists : Lists) (l : List Call) → IsSound lists → IsSound (run_calls r lists l)
unfolding run_calls
run_calls-IsSound r lists [] s = s
run_calls-IsSound r lists (c ∷ l) s =
    run_calls-IsSound r (run_call r lists c) l (run_call-IsSound r lists c s)
