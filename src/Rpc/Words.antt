-- ===== src/Rpc/Words.antt =====
-- The bytes of integers in memory, and of the sizes in a request.
use gicame.Prelude.{
  ℕ, zero, suc, ◌*◌, ◌/◌, ◌^◌, ◌<◌, ◌≡◌, refl, ap, ◌∙◌, arith, List, [], ◌∷◌, ◌++◌, length, take,
  drop, take-append, drop-append, append_assoc, length-append,
}
use gicame.Rpc.{Bytes, to_le, from_le, write_words, read_words}

pub length-to_le : (n x : ℕ) → length (to_le n x) ≡ n
unfolding to_le
length-to_le zero x = refl
length-to_le (suc n) x = ap suc (length-to_le n (x / 256))

pub from_le-to_le : (n x : ℕ) → x < 256 ^ n → from_le (to_le n x) ≡ x
unfolding to_le from_le
from_le-to_le zero x h = omega arith
from_le-to_le (suc n) x h =
    let e : from_le (to_le n (x / 256)) ≡ x / 256 = from_le-to_le n (x / 256) (omega arith) in
    rw e (omega arith)

pub take-at : {n : ℕ} (xs ys : Bytes) → length xs ≡ n → take n (xs ++ ys) ≡ xs
take-at xs ys e = rw (← e) (take-append xs ys)

pub drop-at : {n : ℕ} (xs ys : Bytes) → length xs ≡ n → drop n (xs ++ ys) ≡ ys
drop-at xs ys e = rw (← e) (drop-append xs ys)

-- Each fits a `uint64_t`.
abbrev pub AllWords : List ℕ → Type 0
AllWords [] = Unit
AllWords (p ∷ ps) = (p < 256 ^ 8) × AllWords ps

pub length-write_words : (ps : List ℕ) → length (write_words ps) ≡ 8 * length ps
unfolding write_words
length-write_words [] = refl
length-write_words (p ∷ ps) =
    length-append (to_le 8 p) (write_words ps)
    ∙ omega (arith, length-to_le 8 p, length-write_words ps)

pub read_words-write_words :
    (ps : List ℕ) (ys : Bytes) → AllWords ps → read_words (length ps) (write_words ps ++ ys) ≡ ps
unfolding write_words read_words
read_words-write_words [] ys w = refl
read_words-write_words (p ∷ ps) ys (h, w) =
    let split : (to_le 8 p ++ write_words ps) ++ ys ≡ to_le 8 p ++ (write_words ps ++ ys) =
      append_assoc (to_le 8 p) (write_words ps) ys in
    let t : take 8 (to_le 8 p ++ (write_words ps ++ ys)) ≡ to_le 8 p =
      take-at (to_le 8 p) _ (length-to_le 8 p) in
    let d : drop 8 (to_le 8 p ++ (write_words ps ++ ys)) ≡ write_words ps ++ ys =
      drop-at (to_le 8 p) _ (length-to_le 8 p) in
    rw (split, t, d, from_le-to_le 8 p h, read_words-write_words ps ys w) refl
