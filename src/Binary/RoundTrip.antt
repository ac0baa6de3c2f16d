-- ===== src/Binary/RoundTrip.antt =====
-- Objects of headers/serialization/Binary.h that are read back from the buffer they were written to.
use gicame.Prelude.{
  ℕ, ◌+◌, ◌^◌, ◌≤◌, ◌<◌, ◌≡◌, refl, sym, ap, ap₂, ◌∙◌, arith, [], ◌∷◌, ◌++◌, length, drop, drop-all,
  length-append, append_assoc, append-nil,
}
use gicame.Rpc.{Bytes, to_le}
use gicame.Rpc.Words.{length-to_le, from_le-to_le}
use gicame.Streams.{MemoryStream, memory_stream, read}
use gicame.Streams.Laws.{at, write-at, read-at}
use gicame.Binary.{
  Member, fundamental, with_properties, Properties, end, property, fundamental_to_binary,
  binary_to_fundamental, serialize_member, binary_serialize, deserialize_member, binary_deserialize,
  tell, serialize_to_buffer, deserialize_from_buffer,
}

unfoldable mutual
  -- The bytes of an object: those of its members, one behind the other.
  pub member_bytes : Member → Bytes
  member_bytes (fundamental w v) = to_le w v
  member_bytes (with_properties ps) = object_bytes ps

  pub object_bytes : Properties → Bytes
  object_bytes end = []
  object_bytes (property m ps) = member_bytes m ++ object_bytes ps

unfoldable mutual
  -- Every value fits its type.
  pub MemberFits : Member → Type 0
  MemberFits (fundamental w v) = v < 256 ^ w
  MemberFits (with_properties ps) = ObjectFits ps

  pub ObjectFits : Properties → Type 0
  ObjectFits end = Unit
  ObjectFits (property m ps) = MemberFits m × ObjectFits ps

unfoldable mutual
  -- The objects are of one class.
  pub SameMember : Member → Member → Type 0
  SameMember (fundamental w v) (fundamental w' v') = w ≡ w'
  SameMember (with_properties ps) (with_properties ps') = SameClass ps ps'
  SameMember _ _ = ⊥

  pub SameClass : Properties → Properties → Type 0
  SameClass end end = Unit
  SameClass (property m ps) (property m' ps') = SameMember m m' × SameClass ps ps'
  SameClass _ _ = ⊥

drop-drop-length :
    (xs ys rest : Bytes) → drop (length ys) (drop (length xs) rest) ≡ drop (length (xs ++ ys)) rest
drop-drop-length [] ys rest = refl
drop-drop-length (x ∷ xs) [] [] = refl
drop-drop-length (x ∷ xs) (y ∷ ys) [] = refl
drop-drop-length (x ∷ xs) ys (r ∷ rest) = drop-drop-length xs ys rest

length-drop_le :
    (xs rest : Bytes) (n : ℕ) → length xs + n ≤ length rest → n ≤ length (drop (length xs) rest)
length-drop_le [] rest n h = omega arith
length-drop_le (x ∷ xs) [] n h = absurd (omega arith)
length-drop_le (x ∷ xs) (r ∷ rest) n h = length-drop_le xs rest n (omega arith)

mutual
  unfolding serialize_member binary_serialize fundamental_to_binary member_bytes object_bytes

  serialize_member-at :
      (m : Member) (before rest : Bytes)
      → length (member_bytes m) ≤ length rest
      → serialize_member m (at before rest)
        ≡ at (before ++ member_bytes m) (drop (length (member_bytes m)) rest)
  serialize_member-at (fundamental w v) before rest fits = write-at before (to_le w v) rest fits
  serialize_member-at (with_properties ps) before rest fits =
      binary_serialize-at ps before rest fits

  pub binary_serialize-at :
      (ps : Properties) (before rest : Bytes)
      → length (object_bytes ps) ≤ length rest
      → binary_serialize ps (at before rest)
        ≡ at (before ++ object_bytes ps) (drop (length (object_bytes ps)) rest)
  binary_serialize-at end before rest fits = rw (append-nil before) refl
  binary_serialize-at (property m ps) before rest fits =
      let bs : Bytes = member_bytes m in
      let l : length (bs ++ object_bytes ps) ≡ length bs + length (object_bytes ps) =
        length-append bs (object_bytes ps) in
      ap (binary_serialize ps) (serialize_member-at m before rest (omega arith))
      ∙ binary_serialize-at ps (before ++ bs) (drop (length bs) rest)
          (length-drop_le bs rest _ (omega arith))
      ∙ ap₂ at (append_assoc before bs (object_bytes ps))
          (drop-drop-length bs (object_bytes ps) rest)

binary_to_fundamental-at :
    (w v v' : ℕ) (before rest : Bytes)
    → v < 256 ^ w
    → binary_to_fundamental w v' (at before (to_le w v ++ rest))
      ≡ (v, at (before ++ to_le w v) rest)
unfolding binary_to_fundamental
binary_to_fundamental-at w v v' before rest fits =
    let l : length (to_le w v) ≡ w = length-to_le w v in
    let whole : read w (at before (to_le w v ++ rest))
        ≡ (to_le w v, at (before ++ to_le w v) rest) =
      ap (λ n. read n (at before (to_le w v ++ rest))) (sym l) ∙ read-at before (to_le w v) rest in
    let replaced : drop (length (to_le w v)) (to_le w v') ≡ [] =
      drop-all (length (to_le w v)) (to_le w v') (omega (arith, l, length-to_le w v')) in
    rw (whole, replaced, append-nil (to_le w v), from_le-to_le w v fits) refl

mutual
  unfolding deserialize_member binary_deserialize binary_to_fundamental member_bytes object_bytes
      MemberFits ObjectFits SameMember SameClass

  deserialize_member-at :
      (m m' : Member) (before rest : Bytes)
      → MemberFits m
      → SameMember m' m
      → deserialize_member m' (at before (member_bytes m ++ rest))
        ≡ (m, at (before ++ member_bytes m) rest)
  deserialize_member-at (fundamental w v) (fundamental w' v') before rest fits same =
      ap (λ w''. deserialize_member (fundamental w'' v') (at before (to_le w v ++ rest))) same
      ∙ ap (λ r. (fundamental w (r.0), r.1)) (binary_to_fundamental-at w v v' before rest fits)
  deserialize_member-at (with_properties ps) (with_properties ps') before rest fits same =
      ap (λ r. (with_properties (r.0), r.1)) (binary_deserialize-at ps ps' before rest fits same)
  deserialize_member-at (fundamental w v) (with_properties ps') before rest fits same = absurd same
  deserialize_member-at (with_properties ps) (fundamental w' v') before rest fits same = absurd same

  binary_deserialize-at :
      (ps ps' : Properties) (before rest : Bytes)
      → ObjectFits ps
      → SameClass ps' ps
      → binary_deserialize ps' (at before (object_bytes ps ++ rest))
        ≡ (ps, at (before ++ object_bytes ps) rest)
  binary_deserialize-at end end before rest fits same = rw (append-nil before) refl
  binary_deserialize-at (property m ps) (property m' ps') before rest (f, fits) (e, same) =
      let bs : Bytes = member_bytes m in
      let next : Member × MemoryStream → Properties × MemoryStream = λ r.
        (property (r.0) ((binary_deserialize ps' (r.1)).0), (binary_deserialize ps' (r.1)).1) in
      ap (λ l. next (deserialize_member m' (at before l))) (append_assoc bs (object_bytes ps) rest)
      ∙ ap next (deserialize_member-at m m' before (object_bytes ps ++ rest) f e)
      ∙ ap (λ r. (property m (r.0), r.1))
          (binary_deserialize-at ps ps' (before ++ bs) rest fits same)
      ∙ ap (λ l. (property m ps, at l rest)) (append_assoc before bs (object_bytes ps))
  binary_deserialize-at end (property m' ps') before rest fits same = absurd same
  binary_deserialize-at (property m ps) end before rest fits same = absurd same

-- An object that is serialized to a buffer with room for its bytes is deserialized from it into any
-- object of its class, member for member, and both calls return the number of its bytes; what the
-- buffer holds behind them is left.
pub deserialize-serialize_to_buffer :
    (ps ps' : Properties) (buffer : Bytes)
    → ObjectFits ps
    → SameClass ps' ps
    → length (object_bytes ps) ≤ length buffer
    → (serialize_to_buffer ps buffer
        ≡ (length (object_bytes ps), object_bytes ps ++ drop (length (object_bytes ps)) buffer))
      × (deserialize_from_buffer ps' ((serialize_to_buffer ps buffer).1)
          ≡ (length (object_bytes ps), ps))
unfolding serialize_to_buffer deserialize_from_buffer memory_stream tell
deserialize-serialize_to_buffer ps ps' buffer fits same room =
    let bs : Bytes = object_bytes ps in
    let out : MemoryStream → ℕ × Bytes = λ s. (tell s, s.buf.buffer) in
    let back : Properties × MemoryStream → ℕ × Properties = λ r. (tell (r.1), r.0) in
    let written : serialize_to_buffer ps buffer ≡ (length bs, bs ++ drop (length bs) buffer) =
      ap out (binary_serialize-at ps [] buffer room) in
    (
      written,
      ap (λ r. deserialize_from_buffer ps' (r.1)) written
          ∙ ap back (binary_deserialize-at ps ps' [] (drop (length bs) buffer) fits same),
    )
