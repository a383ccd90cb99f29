-- ===== src/Clients/Lookup/Compose.antt =====
-- client_compose of support/export/client.c, and client_member on what it returns.
use nfs_utils.Common.{
  or_false, ◌≡◌, refl, ap, sym, subst, ◌∙◌, Bool, true, false, ◌||◌, Option, none, some, List, [],
  ◌∷◌, ◌++◌, if◌then◌else◌, Bytes, All, append-All, Lacks, str_eq, Bool-cases, inl, inr,
}
use nfs_utils.Clients.{Client, ClientType, AddrInfo}
use nfs_utils.Clients.Names.{Sign, below, same, above, name_cmp, add_name, client_member}
use nfs_utils.Clients.Names.Members.{IsName, join_names, any_eq, client_member-join_names}
use nfs_utils.Clients.Names.Sorted.{
  insert_name, add_name-join_names, insert_name-All, any_eq-insert_name, IsSorted, IsByteName,
  insert_name-IsSorted,
}
use nfs_utils.Clients.Lookup.{
  Resolver, Lists, all_types, client_check, compose_list, compose_types, client_compose,
}

-- The names of the clients that pass the test, in the order of the lists
abbrev pub matching : (Client → Bool) → List Client → List Bytes
matching p [] = []
matching p (clp ∷ l) = let rest = matching p l in if p clp then clp.m_hostname ∷ rest else rest

abbrev pub all_matching : (Client → Bool) → Lists → List ClientType → List Bytes
all_matching p lists [] = []
all_matching p lists (t ∷ l) = matching p (lists t) ++ all_matching p lists l

-- An insertion sort
abbrev pub insert_all : List Bytes → List Bytes → List Bytes
insert_all [] sorted = sorted
insert_all (w ∷ l) sorted = insert_all l (insert_name w sorted)

-- The text of a list of names, NULL for none
abbrev pub composed : List Bytes → Option Bytes
composed [] = none
composed (w ∷ l) = some (join_names (w ∷ l))

add_name-composed :
    (add : Bytes) (l : List Bytes)
    → All IsName l
    → some (add_name (composed l) add) ≡ composed (insert_name add l)
unfolding insert_name
add_name-composed add [] h = unfold add_name join_names in refl
add_name-composed add (w ∷ l) h =
    ap some (add_name-join_names add (w ∷ l) h) ∙ grown (name_cmp w add)
  where
    grown :
        (x : Sign)
        → some (join_names (elim x [ below ↦ w ∷ insert_name add l | _ ↦ add ∷ w ∷ l ]))
          ≡ composed (elim x [ below ↦ w ∷ insert_name add l | _ ↦ add ∷ w ∷ l ])
    grown below = refl
    grown same = refl
    grown above = refl

insert_all-append :
    (a b sorted : List Bytes) → insert_all (a ++ b) sorted ≡ insert_all b (insert_all a sorted)
insert_all-append [] b sorted = refl
insert_all-append (w ∷ a) b sorted = insert_all-append a b (insert_name w sorted)

insert_all-All {κ} :
    (P : Bytes → Type κ) (l sorted : List Bytes)
    → All P l
    → All P sorted
    → All P (insert_all l sorted)
insert_all-All P [] sorted h k = k
insert_all-All P (w ∷ l) sorted h k =
    insert_all-All P l (insert_name w sorted) h.1 (insert_name-All P w sorted h.0 k)

compose_list-matching :
    (p : Client → Bool) (l : List Client) (sorted : List Bytes)
    → All IsName (matching p l)
    → All IsName sorted
    → compose_list p l (composed sorted) ≡ composed (insert_all (matching p l) sorted)
unfolding compose_list
compose_list-matching p [] sorted h k = refl
compose_list-matching p (clp ∷ l) sorted h k = elim (Bool-cases (p clp)) [
  | inl yes_match ↦
      let h' =
        subst (λ (b : Bool). All IsName (if b then clp.m_hostname ∷ matching p l else matching p l))
          yes_match h in
      rw (yes_match, compose_list)
        (ap (compose_list p l) (add_name-composed clp.m_hostname sorted k)
          ∙ compose_list-matching p l (insert_name clp.m_hostname sorted) h'.1
              (insert_name-All IsName clp.m_hostname sorted h'.0 k))
  | inr no_match ↦
      let h' =
        subst (λ (b : Bool). All IsName (if b then clp.m_hostname ∷ matching p l else matching p l))
          no_match h in
      rw (no_match, compose_list) (compose_list-matching p l sorted h' k)
]

compose_types-matching :
    (p : Client → Bool) (lists : Lists) (l : List ClientType) (sorted : List Bytes)
    → All IsName (all_matching p lists l)
    → All IsName sorted
    → compose_types p lists l (composed sorted)
      ≡ composed (insert_all (all_matching p lists l) sorted)
unfolding compose_types
compose_types-matching p lists [] sorted h k = refl
compose_types-matching p lists (t ∷ l) sorted h k =
    let m = matching p (lists t) in
    let (first, rest) = append-All IsName m (all_matching p lists l) h in
    ap (compose_types p lists l) (compose_list-matching p (lists t) sorted first k)
    ∙ compose_types-matching p lists l (insert_all m sorted) rest
        (insert_all-All IsName m sorted first k)
    ∙ ap composed (sym (insert_all-append m (all_matching p lists l) sorted))

insert_all-IsSorted :
    (l sorted : List Bytes)
    → All IsByteName l
    → All IsByteName sorted
    → IsSorted sorted
    → IsSorted (insert_all l sorted)
insert_all-IsSorted [] sorted h k s = s
insert_all-IsSorted (w ∷ l) sorted h k s =
    insert_all-IsSorted l (insert_name w sorted) h.1 (insert_name-All IsByteName w sorted h.0 k)
      (insert_name-IsSorted w sorted h.0 k s)

or_shift : (a b c : Bool) → a || (b || c) ≡ (b || a) || c
or_shift true true c = refl
or_shift true false c = refl
or_shift false true c = refl
or_shift false false c = refl

any_eq-insert_all :
    (name : Bytes) (l sorted : List Bytes)
    → any_eq name (insert_all l sorted) ≡ any_eq name l || any_eq name sorted
any_eq-insert_all name [] sorted = refl
any_eq-insert_all name (w ∷ l) sorted =
    any_eq-insert_all name l (insert_name w sorted)
    ∙ ap (λ (b : Bool). any_eq name l || b) (any_eq-insert_name name w sorted)
    ∙ or_shift (any_eq name l) (str_eq name w) (any_eq name sorted)

-- The names of all clients that match
abbrev pub matches : Resolver → Lists → AddrInfo → List Bytes
matches r lists ai = all_matching (λ clp. client_check r clp ai) lists all_types

-- client_compose returns the comma-separated list of the names of the clients that match, in the order
-- of name_cmp, and NULL if none matches. The names are not empty, and have no comma and no NUL.
pub client_compose-IsSorted :
    (r : Resolver) (lists : Lists) (ai : AddrInfo)
    → All IsName (matches r lists ai)
    → All IsByteName (matches r lists ai)
    → (client_compose r lists ai ≡ composed (insert_all (matches r lists ai) []))
      × IsSorted (insert_all (matches r lists ai) [])
unfolding client_compose
client_compose-IsSorted r lists ai h b = (
  compose_types-matching (λ clp. client_check r clp ai) lists all_types [] h tt,
  insert_all-IsSorted (matches r lists ai) [] b tt tt,
)

abbrev pub member_of : Bytes → Option Bytes → Bool
member_of name none = false
member_of name (some text) = client_member text name

member_of-composed :
    (name : Bytes) (l : List Bytes)
    → All IsName l
    → Lacks b',' name
    → member_of name (composed l) ≡ any_eq name l
member_of-composed name [] h n = refl
member_of-composed name (w ∷ l) h n = client_member-join_names (w ∷ l) name h n

-- A name without commas is a member of the list that client_compose returns for a host exactly if
-- some client with this name matches the host, if the names of the clients that match are not empty
-- and have no comma and no NUL.
pub client_member-client_compose :
    (r : Resolver) (lists : Lists) (ai : AddrInfo) (name : Bytes)
    → All IsName (matches r lists ai)
    → Lacks b',' name
    → member_of name (client_compose r lists ai) ≡ any_eq name (matches r lists ai)
unfolding client_compose
client_member-client_compose r lists ai name h n =
    let l = matches r lists ai in
    ap (member_of name)
      (compose_types-matching (λ clp. client_check r clp ai) lists all_types [] h tt)
    ∙ member_of-composed name (insert_all l []) (insert_all-All IsName l [] h tt) n
    ∙ any_eq-insert_all name l []
    ∙ or_false (any_eq name l)
