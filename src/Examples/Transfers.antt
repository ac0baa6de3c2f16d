-- ===== src/Examples/Transfers.antt =====
-- Objects and texts at concrete inputs, over calls that move two or three bytes.
use gicame.Prelude.{
  ℕ, ◌≡◌, arith, some, List, [], ◌∷◌, ◌++◌, length-replicate, replicate, done, threw,
}
use gicame.Rpc.{Bytes, to_le}
use gicame.Transfer.{size_bytes, send_object, receive_object, send_text, receive_text}
use gicame.Transfer.Objects.{AllMove, object_is_transferred}
use gicame.Transfer.Texts.{text_arrives}

abbrev object : Bytes
object = 65 ∷ 66 ∷ 67 ∷ []

abbrev twos : List ℕ
twos = replicate 13 2

abbrev threes : List ℕ
threes = replicate 13 3

twos-AllMove : AllMove twos
twos-AllMove = ground arith

threes-AllMove : AllMove threes
threes-AllMove = ground arith

object_is_transferred_example :
    (ks' : List ℕ) × (sent : Bytes) × (send_object twos object ≡ some (ks', sent))
    × (sent ≡ to_le size_bytes 3 ++ object)
    × (receive_object threes 2 (sent ++ (9 ∷ [])) ≡ some (threw, 65 ∷ 66 ∷ 67 ∷ 9 ∷ []))
object_is_transferred_example =
    object_is_transferred twos threes object (9 ∷ []) 2 twos-AllMove threes-AllMove (omega arith)
      (omega arith) (omega arith)

text_arrives_example :
    (ks' : List ℕ) × (sent : Bytes) × (send_text twos object ≡ some (ks', 3, sent))
    × (sent ≡ to_le size_bytes 3 ++ object)
    × (receive_text (replicate 8 255) threes 100 (sent ++ (9 ∷ [])) ≡ some (done object, 9 ∷ []))
text_arrives_example =
    text_arrives (replicate 8 255) twos threes object (9 ∷ []) 100 (length-replicate {A = ℕ} 8 255)
      twos-AllMove threes-AllMove (omega arith) (omega arith) (omega arith)
