-- ===== src/Clients/Names.antt =====
-- The sorted list of client names: client_member, name_cmp and add_name of
-- support/export/client.c.
pub mod Members
pub mod Sorted
use nfs_utils.Common.{
  ℕ, zero, suc, ◌+◌, ◌%◌, Bool, true, false, ◌&&◌, ◌||◌, Option, none, some, [], ◌∷◌, ◌++◌, ltb,
  ◌==◌, if◌then◌else◌, Bytes, cut, starts, length, drop, peek,
}

-- The sign of a comparison
pub data Sign : Type 0 where
  below same above : Sign

-- A char is signed: from 128 on a byte stands below the others.
abbrev pub char_key : ℕ → ℕ
char_key c = (c + 128) % 256

abbrev pub sign_of : ℕ → ℕ → Sign
sign_of a b = if ltb (char_key a) (char_key b) then below else above

-- A comparison that stops at a comma in `a`
unfoldable pub name_cmp : Bytes → Bytes → Sign
name_cmp [] [] = same
name_cmp [] (d ∷ b) = below
name_cmp (c ∷ a) [] = if c == b',' then same else above
name_cmp (c ∷ a) (d ∷ b) =
    let rest = name_cmp a b in if c == b',' then below else if c == d then rest else sign_of c d

-- The loop of client_member: the list from a name on
unfoldable pub member_loop : ℕ → Bytes → Bytes → Option Bool
unfolding cut starts
member_loop zero client name = none
member_loop (suc fuel) [] name = some false
member_loop (suc fuel) (c ∷ s) name =
    let end = peek (drop (length name) (c ∷ s)) in
    elim (starts name (c ∷ s) && (end == b',' || end == 0)) [
      | true ↦ some true
      | false ↦ elim (cut b',' (c ∷ s)) [
        | none ↦ some false
        | some (_, rest) ↦ member_loop fuel rest name
      ]
    ]

-- The fuel does not run out.
unfoldable pub client_member : Bytes → Bytes → Bool
client_member client name = elim (member_loop (suc (length client)) client name) [
  | none ↦ false
  | some r ↦ r
]

-- The place of a new name: what stands in front of it, and the rest of the list from there on.
unfoldable pub place_loop : ℕ → Bytes → Bytes → Bytes → Bytes × Bytes
place_loop zero front cp add = (front, cp)
place_loop (suc fuel) front [] add = (front, [])
place_loop (suc fuel) front (c ∷ s) add = elim (name_cmp (c ∷ s) add) [
  | below ↦ elim (cut b',' (c ∷ s)) [
    | none ↦ (front ++ (c ∷ s), [])
    | some (name, rest) ↦ place_loop fuel (front ++ (name ++ b',' ∷ [])) rest add
  ]
  | _ ↦ (front, c ∷ s)
]

-- A comma is written in front of a last name, and behind one that others follow.
unfoldable pub insert_at : Bytes × Bytes → Bytes → Bytes
insert_at ([], []) add = add
insert_at (c ∷ front, []) add = (c ∷ front) ++ b',' ∷ add
insert_at (front, c ∷ rest) add = front ++ (add ++ b',' ∷ c ∷ rest)

unfoldable pub add_name : Option Bytes → Bytes → Bytes
unfolding insert_at
add_name none add = add
add_name (some old) add = insert_at (place_loop (suc (length old)) [] old add) add
