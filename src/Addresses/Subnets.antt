-- ===== src/Addresses/Subnets.antt =====
-- What the subnets of headers/network/NetworkDefinitions.h have to do with each other.
use gicame.Prelude.{
  ◌≡◌, refl, ap, ap₂, ◌∙◌, Bool, true, false, not, ◌&&◌, ◌||◌, [], ◌∷◌, length, arith, ◌↔◌,
}
use gicame.Addresses.{
  Word, word_and, word_or, word_not, same_bit, word_eq, match_subnet, get_subnet, broadcast_address,
  is_broadcast_address,
}

abbrev both_split : Bool → Bool → Bool → Bool
both_split v w m = same_bit (v && m) (w && m) && same_bit (v && not m) (not m)

bit_broadcast : (v w m : Bool) → both_split v w m ≡ same_bit v (w || not m)
bit_broadcast true true true = refl
bit_broadcast true true false = refl
bit_broadcast true false true = refl
bit_broadcast true false false = refl
bit_broadcast false true true = refl
bit_broadcast false true false = refl
bit_broadcast false false true = refl
bit_broadcast false false false = refl

&&_exchange : (a x b y : Bool) → ((a && x) && (b && y)) ≡ ((a && b) && (x && y))
&&_exchange true true b y = ground arith
&&_exchange true false true y = refl
&&_exchange true false false y = refl
&&_exchange false x b y = refl

word_broadcast :
    (v w m : Word)
    → length v ≡ length m
    → length w ≡ length m
    → (word_eq (word_and v m) (word_and w m) && word_eq (word_and v (word_not m)) (word_not m))
      ≡ word_eq v (word_or w (word_not m))
word_broadcast [] [] [] p q = refl
word_broadcast (a ∷ v) (b ∷ w) (c ∷ m) p q =
    &&_exchange (same_bit (a && c) (b && c)) _ (same_bit (a && not c) (not c)) _
    ∙ ap₂ ◌&&◌ (bit_broadcast a b c) (word_broadcast v w m (omega arith) (omega arith))
word_broadcast [] [] (c ∷ m) p q = absurd (omega arith)
word_broadcast [] (b ∷ w) m p q = absurd (omega arith)
word_broadcast (a ∷ v) [] m p q = absurd (omega arith)
word_broadcast (a ∷ v) (b ∷ w) [] p q = absurd (omega arith)

word_eq_refl : (v : Word) → word_eq v v ≡ true
word_eq_refl [] = refl
word_eq_refl (true ∷ v) = word_eq_refl v
word_eq_refl (false ∷ v) = word_eq_refl v

word_eq_sound : (v w : Word) → word_eq v w ≡ true → v ≡ w
word_eq_sound [] [] e = refl
word_eq_sound [] (b ∷ w) e = cc
word_eq_sound (a ∷ v) [] e = cc
word_eq_sound (true ∷ v) (true ∷ w) e = ap (λ r. true ∷ r) (word_eq_sound v w e)
word_eq_sound (false ∷ v) (false ∷ w) e = ap (λ r. false ∷ r) (word_eq_sound v w e)
word_eq_sound (true ∷ v) (false ∷ w) e = cc
word_eq_sound (false ∷ v) (true ∷ w) e = cc

and_twice : (v m : Word) → word_and (word_and v m) m ≡ word_and v m
and_twice [] m = refl
and_twice (a ∷ v) [] = refl
and_twice (true ∷ v) (true ∷ m) = ap (λ r. true ∷ r) (and_twice v m)
and_twice (true ∷ v) (false ∷ m) = ap (λ r. false ∷ r) (and_twice v m)
and_twice (false ∷ v) (c ∷ m) = ap (λ r. false ∷ r) (and_twice v m)

-- Subnets of words of one length, whatever the mask. An address that matches the subnet of another, by
-- any address `w` of that subnet, and is a broadcast address is exactly the broadcast address of the
-- subnet; an address matches the address that `getSubnet` gives for it; and two addresses match
-- exactly if `getSubnet` gives them the same.
pub one_broadcast_address :
    (v w mask : Word)
    → length v ≡ length mask
    → length w ≡ length mask
    → ((match_subnet w mask v && is_broadcast_address mask v)
        ≡ word_eq v (broadcast_address mask w))
      × (match_subnet (get_subnet mask v) mask v ≡ true)
      × ((match_subnet w mask v ≡ true) ↔ (get_subnet mask v ≡ get_subnet mask w))
unfolding match_subnet is_broadcast_address broadcast_address get_subnet
one_broadcast_address v w mask p q = (
  word_broadcast v w mask p q,
  ap (word_eq (word_and v mask)) (and_twice v mask) ∙ word_eq_refl (word_and v mask),
  (
    word_eq_sound (word_and v mask) (word_and w mask),
    λ e. ap (λ r. word_eq r (word_and w mask)) e ∙ word_eq_refl (word_and w mask),
  ),
)
