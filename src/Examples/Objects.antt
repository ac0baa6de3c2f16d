-- ===== src/Examples/Objects.antt =====
-- An object with properties at concrete inputs.
use gicame.Prelude.{◌≡◌, ◌≤◌, refl, arith, [], ◌∷◌, ◌++◌, length, drop}
use gicame.Rpc.{Bytes, to_le}
use gicame.Binary.{
  Properties, fundamental, with_properties, end, property, serialize_to_buffer,
  deserialize_from_buffer,
}
use gicame.Tree
use gicame.Streams.Laws.{at}
use gicame.Binary.{binary_serialize}
use gicame.Tree.Leaves.{name_of, node_object, leaf_bytes, nameless, build_tree_keeps_object}
use gicame.Binary.RoundTrip.{object_bytes, ObjectFits, SameClass, deserialize-serialize_to_buffer}

-- A point of two 16-bit numbers, and a flag.
abbrev marked_point : Properties
marked_point =
    property (with_properties (property (fundamental 2 515) (property (fundamental 2 7) end)))
      (property (fundamental 1 1) end)

abbrev new_point : Properties
new_point =
    property (with_properties (property (fundamental 2 0) (property (fundamental 2 0) end)))
      (property (fundamental 1 0) end)

abbrev buffer : Bytes
buffer = 9 ∷ 9 ∷ 9 ∷ 9 ∷ 9 ∷ 9 ∷ []

marked_point-ObjectFits : ObjectFits marked_point
unfolding ObjectFits
marked_point-ObjectFits = ((omega arith, (omega arith, tt)), (omega arith, tt))

new_point-SameClass : SameClass new_point marked_point
unfolding SameClass
new_point-SameClass = ((refl, (refl, tt)), (refl, tt))

marked_point-room : length (object_bytes marked_point) ≤ length buffer
unfolding object_bytes to_le
marked_point-room = omega arith

deserialize-serialize_to_buffer_example :
    (serialize_to_buffer marked_point buffer ≡ (
      length (object_bytes marked_point),
      object_bytes marked_point ++ drop (length (object_bytes marked_point)) buffer,
    ))
    × (deserialize_from_buffer new_point ((serialize_to_buffer marked_point buffer).1)
        ≡ (length (object_bytes marked_point), marked_point))
deserialize-serialize_to_buffer_example =
    deserialize-serialize_to_buffer marked_point new_point buffer marked_point-ObjectFits
      new_point-SameClass marked_point-room

-- A flag and a point inside, by the characters of their names.
abbrev named : Tree.Object
named = Tree.property (102 ∷ []) (Tree.fundamental 1 1) (
    Tree.property (112 ∷ [])
      (Tree.with_properties (Tree.property (120 ∷ []) (Tree.fundamental 2 515) Tree.end)) Tree.end)

named-room : length (leaf_bytes (Tree.build_tree (110 ∷ []) named)) ≤ length buffer
unfolding leaf_bytes Tree.build_tree to_le
named-room = omega arith

build_tree_keeps_object_example :
    (name_of (Tree.build_tree (110 ∷ []) named) ≡ 110 ∷ [])
    × (node_object (Tree.build_tree (110 ∷ []) named) ≡ named)
    × (binary_serialize (nameless named) (at [] buffer)
        ≡ at
            ([] ++ leaf_bytes (Tree.build_tree (110 ∷ []) named))
            (drop (length (leaf_bytes (Tree.build_tree (110 ∷ []) named))) buffer))
build_tree_keeps_object_example = build_tree_keeps_object (110 ∷ []) named [] buffer named-room
