-- ===== src/Streams/Laws.antt =====
-- What is written to a memory stream that has room for it, and read from one that holds it.
use gicame.Prelude.{
  ℕ, suc, ◌+◌, ◌-◌, ◌≤◌, ◌≡◌, refl, arith, true, ◌==◌, List, [], ◌∷◌, ◌++◌, length, drop, min,
  append_assoc, length-append, take-append, drop-append, take-all,
}
use gicame.Streams.{MemoryStream, write, read}

-- A good stream, `before` its position.
abbrev pub at : List ℕ → List ℕ → MemoryStream
at before rest = record {
  buf = record { buffer = before ++ rest; pos = length before };
  good = true;
}

pub drop-append-add : (xs ys : List ℕ) (n : ℕ) → drop (length xs + n) (xs ++ ys) ≡ drop n ys
drop-append-add [] ys n = let e : 0 + n ≡ n = omega arith in rw e refl
drop-append-add (x ∷ xs) ys n =
    let e : suc (length xs) + n ≡ suc (length xs + n) = omega arith in
    rw e (drop-append-add xs ys n)

-- Bytes that fit are written whole at the position.
pub write-at :
    (before bs rest : List ℕ)
    → length bs ≤ length rest
    → write bs (at before rest) ≡ at (before ++ bs) (drop (length bs) rest)
unfolding write
write-at before bs rest fits =
    let whole : min (length bs) (length (before ++ rest) - length before) ≡ length bs =
      omega (arith, length-append before rest) in
    let same : (length bs == length bs) ≡ true = ground arith in
    rw
      (
        whole,
        take-append before rest,
        take-all (length bs) bs (omega arith),
        drop-append-add before rest (length bs),
        same,
        length-append before bs,
        append_assoc before bs (drop (length bs) rest),
      )
      refl

-- Bytes that are there are read whole from the position.
pub read-at :
    (before bs rest : List ℕ)
    → read (length bs) (at before (bs ++ rest)) ≡ (bs, at (before ++ bs) rest)
unfolding read
read-at before bs rest =
    let whole : min (length bs) (length (before ++ (bs ++ rest)) - length before) ≡ length bs =
      omega (arith, length-append before (bs ++ rest), length-append bs rest) in
    let same : (length bs == length bs) ≡ true = ground arith in
    rw
      (
        whole,
        drop-append before (bs ++ rest),
        take-append bs rest,
        same,
        length-append before bs,
        append_assoc before bs rest,
      )
      refl
