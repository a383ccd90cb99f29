-- ===== src/Exports/Squash.antt =====
-- The lists of ids to squash: parsesquash and parsenum of support/nfs/exports.c.
pub mod Ends
use nfs_utils.Common.{
  ℕ, zero, suc, ◌+◌, Bool, true, false, not, ◌&&◌, ◌||◌, Option, none, some, List, [], ◌∷◌, ◌++◌,
  ◌==◌, if◌then◌else◌, Bytes, length, is_digit, peek, ℤ, negsuc, strtol, to_int,
}

-- The run of digits at the front, and the text behind it.
unfoldable pub digit_run : Bytes → Bytes × Bytes
digit_run [] = ([], [])
digit_run (c ∷ s) = let (a, b) = digit_run s in if is_digit c then (c ∷ a, b) else ([], c ∷ s)

-- atoi
abbrev pub atoi : Bytes → ℤ
atoi s = to_int (strtol s).value

-- The value, and the new *cpp.
unfoldable pub parsenum : Bytes → ℤ × Bytes
unfolding digit_run strtol
parsenum [] = (atoi [], [])
parsenum (c ∷ s) =
    if c == b'-'
    then (let (run, rest) = digit_run s in (atoi (c ∷ run), rest))
    else (let (run, rest) = digit_run (c ∷ s) in (atoi run, rest))

-- The ids of one range, and the text behind it.
unfoldable pub range_end : ℤ → Bytes → ℤ × ℤ × Bytes
unfolding parsenum
range_end id0 [] = (id0, id0, [])
range_end id0 (c ∷ s) =
    if c == b'-' then (let (id1, rest) = parsenum s in (id0, id1, rest)) else (id0, id0, c ∷ s)

unfoldable pub parse_range : Bytes → ℤ × ℤ × Bytes
unfolding parsenum range_end
parse_range cp = let (id0, rest) = parsenum cp in range_end id0 rest

unfoldable pub is_minus_one : ℤ → Bool
is_minus_one (negsuc zero) = true
is_minus_one _ = false

pub data Squash : Type 0 where
  squashed : List ℤ → Squash
  minus_one_not_permitted bad_list : Squash

-- !*cp || *cp == ')' || (*cp == ',' && !isdigit(cp[1]))
unfoldable pub list_ends : Bytes → Bool
list_ends [] = true
list_ends (c ∷ s) = c == b')' || c == b',' && not (is_digit (peek s))

-- What follows the comma
unfoldable pub next_range : Bytes → Option Bytes
next_range [] = none
next_range (c ∷ s) = if c == b',' then some s else none

unfoldable pub squash_loop : ℕ → Bytes → List ℤ → Option Squash
squash_loop zero cp id = none
squash_loop (suc fuel) cp id =
    let (id0, id1, rest) = parse_range cp in
    elim (is_minus_one id0 || is_minus_one id1) [
      | true ↦ some minus_one_not_permitted
      | false ↦ elim (list_ends rest) [
        | true ↦ some (squashed (id ++ (id0 ∷ id1 ∷ [])))
        | false ↦ elim (next_range rest) [
          | none ↦ some bad_list
          | some s ↦ squash_loop fuel s (id ++ (id0 ∷ id1 ∷ []))
        ]
      ]
    ]

-- The two writes to **ep put a comma where there is one, and leave the pointer where it was. The
-- fuel does not run out.
unfoldable pub parsesquash : Bytes → List ℤ → Squash
unfolding squash_loop
parsesquash list id = elim (squash_loop (suc (length list)) list id) [
  | none ↦ bad_list
  | some r ↦ r
]
