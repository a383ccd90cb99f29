-- ===== src/Nfs/Tests.antt =====
-- Concrete words and patterns for the theorems on support/nfs/cacheio.c and support/nfs/wildmat.c.
use nfs_utils.Common.{
  ◌≤◌, ◌≡◌, ◌≢◌, All, to_upper, ◌↔◌, refl, true, some, [], ◌∷◌, ◌++◌, arith, Bytes, codes, length,
  skip,
}
use nfs_utils.Nfs.Qword.{
  Buffer, Read, qword_add, qword_addhex, qword_addeol, qword_get, is_space_byte, add_loop,
  addhex_loop, get_word, get_text, finish,
}
use nfs_utils.Nfs.Qword.Encode.{hexed}
use nfs_utils.Nfs.Qword.Decode.{AreBytes, qword_get-qword_add, qword_get-qword_addhex}
use nfs_utils.Nfs.Qword.Bounds.{
  Within, qword_Within, stored, qword_get_text-stored, qword_get_overrun,
}
use nfs_utils.Nfs.Wildmat.{do_match, wildmat, overrun, class_of}
use nfs_utils.Nfs.Wildmat.Spec.{Matches}
use nfs_utils.Nfs.Wildmat.Steps.{Judges}
use nfs_utils.Nfs.Wildmat.Verdict.{wildmat_iff, do_match-Judges}
use nfs_utils.Nfs.Wildmat.Closed.{
  HasClass, straight, direct, single, range, close, IsClosed, ends, byte, class, do_match-IsClosed,
}

-- "a b", with a blank that is quoted
abbrev a_b : Bytes
a_b = codes "a b"

a_b-AreBytes : AreBytes a_b
a_b-AreBytes = (omega arith, (omega arith, (omega arith, tt)))

qword_get-qword_add_example :
    qword_get ((qword_add (record { out = []; len = some 20 }) a_b).out ++ codes "next") 8
    ≡ some (record { dest = a_b; at = skip is_space_byte (codes "next") })
qword_get-qword_add_example =
    qword_get-qword_add a_b (codes "next") 20 8 13 (λ e. ground (arith, e)) a_b-AreBytes
      (omega arith) (unfold qword_add add_loop in refl)

qword_get-qword_addhex_example :
    qword_get ((qword_addhex (record { out = []; len = some 20 }) a_b).out ++ codes "next") 3
    ≡ some (record { dest = a_b; at = skip is_space_byte (codes "next") })
qword_get-qword_addhex_example =
    qword_get-qword_addhex a_b (codes "next") 20 3 11 (λ e. ground (arith, e)) a_b-AreBytes
      (omega arith) (unfold qword_addhex addhex_loop in refl)

abbrev small : Buffer
small = record { out = codes "w "; len = some 5 }

qword_Within_example :
    Within small (qword_add small a_b)
    × Within small (qword_addhex small a_b)
    × Within small (qword_addeol small)
qword_Within_example = qword_Within small a_b

plain_word : qword_get (codes "ab c") 3 ≡ some (record { dest = codes "ab"; at = codes "c" })
unfolding qword_get get_word get_text finish skip
plain_word = refl

qword_get_text-stored_example : stored (record { dest = codes "ab"; at = codes "c" }) ≤ 3
qword_get_text-stored_example =
    qword_get_text-stored (codes "ab c") 3 (record { dest = codes "ab"; at = codes "c" }) plain_word
      (omega arith) (λ (t, e). unfold skip in ground (arith, e))

qword_get_overrun_example :
    (r : Read) × (qword_get (b'\\' ∷ b'x' ∷ hexed a_b ++ (b' ' ∷ [])) (length a_b) ≡ some r)
    × ¬ (stored r ≤ length a_b)
qword_get_overrun_example = qword_get_overrun a_b [] a_b-AreBytes

-- The bytes that stand for themselves, and then a class
plain_then : (w p : Bytes) → All (λ c. (c ≢ b'\\') × (c ≢ b'[')) w → IsClosed p → IsClosed (w ++ p)
plain_then [] p h q = q
plain_then (c ∷ w) p h q = byte h.0.0 h.0.1 (plain_then w p h.1 q)

a_to_m : HasClass (codes "a-m]mple") (codes "mple")
a_to_m =
    straight (λ e. ground (arith, e))
      (direct refl (
        single (λ e. ground (arith, e)) (λ e. ground (arith, e))
          (range refl (λ e. ground (arith, e)) (close refl))))

pattern-IsClosed : IsClosed (codes "*.ex[a-m]mple")
pattern-IsClosed =
    plain_then (codes "*.ex") (codes "[a-m]mple") (ground arith)
      (class (codes "mple") refl a_to_m (plain_then (codes "mple") [] (ground arith) ends))

wildmat_iff_example :
    (wildmat (λ text p. true) (codes "host.example") (codes "*.ex[a-m]mple") ≡ true)
    ↔ Matches (codes "host.example") (codes "*.ex[a-m]mple")
wildmat_iff_example =
    wildmat_iff (λ text p. true) (codes "host.example") (codes "*.ex[a-m]mple") pattern-IsClosed

do_match-IsClosed_example :
    do_match 14 (codes "host.example") (codes "*.ex[a-m]mple") ≢ some overrun
do_match-IsClosed_example =
    do_match-IsClosed 14 (codes "host.example") (codes "*.ex[a-m]mple") pattern-IsClosed

do_match-Judges_example :
    Judges (do_match 8 (codes "abc") (codes "a*[^d]")) (codes "abc") (codes "a*[^d]")
do_match-Judges_example = do_match-Judges 8 (codes "abc") (codes "a*[^d]") (omega arith)

-- An unterminated class that holds the byte at hand
overrun_test : do_match 4 (codes "ab") (codes "[a") ≡ some overrun
unfolding do_match class_of to_upper
overrun_test = refl
