-- ===== src/Tree/Leaves.antt =====
-- What a tree of headers/serialization/Tree.h keeps of its object, and how it relates to the bytes of Binary.
use gicame.Prelude.{◌≤◌, ◌≡◌, refl, ap, ap₂, arith, [], ◌++◌, length, drop}
use gicame.Rpc.{Bytes, to_le}
use gicame.Streams.Laws.{at}
use gicame.Binary
use gicame.Binary.{binary_serialize}
use gicame.Binary.RoundTrip.{member_bytes, object_bytes, binary_serialize-at}
use gicame.Tree.{
  Name, Value, fundamental, with_properties, Object, end, property, Node, node, Children, no_child,
  leaf, inner, add_child, build_children, build_tree_node, build_tree,
}

-- The name of a node.
abbrev pub name_of : Node → Name
name_of (node name cs) = name

-- Reading an object back from its tree.
unfoldable pub children_object : Children → Object
children_object no_child = end
children_object (leaf name w v cs) = property name (fundamental w v) (children_object cs)
children_object (inner (node name cs) rest) =
    property name (with_properties (children_object cs)) (children_object rest)

unfoldable pub node_object : Node → Object
unfolding children_object
node_object (node name cs) = children_object cs

-- The values of the leaves from the left to the right, each as its bytes.
unfoldable pub children_bytes : Children → Bytes
children_bytes no_child = []
children_bytes (leaf name w v cs) = to_le w v ++ children_bytes cs
children_bytes (inner (node name cs) rest) = children_bytes cs ++ children_bytes rest

unfoldable pub leaf_bytes : Node → Bytes
unfolding children_bytes
leaf_bytes (node name cs) = children_bytes cs

unfoldable mutual
  -- The object as Binary sees it, which does not look at the names.
  pub nameless_value : Value → Binary.Member
  nameless_value (fundamental w v) = Binary.fundamental w v
  nameless_value (with_properties o) = Binary.with_properties (nameless o)

  pub nameless : Object → Binary.Properties
  nameless end = Binary.end
  nameless (property name v o) = Binary.property (nameless_value v) (nameless o)

mutual
  unfolding build_children add_child children_object

  value-back :
      (name : Name) (v : Value) (cs : Children) (o : Object)
      → children_object cs ≡ o
      → children_object (add_child name v cs) ≡ property name v o
  value-back name (fundamental w v) cs o e = ap (property name (fundamental w v)) e
  value-back name (with_properties p) cs o e =
      ap₂ (λ q r. property name (with_properties q) r) (children-back p) e

  children-back : (o : Object) → children_object (build_children o) ≡ o
  children-back end = refl
  children-back (property name v o) = value-back name v (build_children o) o (children-back o)

mutual
  unfolding build_children add_child children_bytes member_bytes object_bytes nameless
      nameless_value

  value-bytes :
      (name : Name) (v : Value) (cs : Children) (rest : Bytes)
      → children_bytes cs ≡ rest
      → children_bytes (add_child name v cs) ≡ member_bytes (nameless_value v) ++ rest
  value-bytes name (fundamental w v) cs rest e = ap (λ r. to_le w v ++ r) e
  value-bytes name (with_properties p) cs rest e = ap₂ ◌++◌ (children-bytes p) e

  children-bytes : (o : Object) → children_bytes (build_children o) ≡ object_bytes (nameless o)
  children-bytes end = refl
  children-bytes (property name v o) = value-bytes name v (build_children o) _ (children-bytes o)

-- The tree of an object has the object's name at its root, and keeps the object with the names, the
-- values and the order of its properties; and `binarySerialize` writes of an object exactly the values of
-- the leaves of its tree, from the left to the right, to any stream with room for them.
pub build_tree_keeps_object :
    (name : Name) (o : Object) (before rest : Bytes)
    → length (leaf_bytes (build_tree name o)) ≤ length rest
    → (name_of (build_tree name o) ≡ name)
      × (node_object (build_tree name o) ≡ o)
      × (binary_serialize (nameless o) (at before rest)
          ≡ at
              (before ++ leaf_bytes (build_tree name o))
              (drop (length (leaf_bytes (build_tree name o))) rest))
unfolding build_tree build_tree_node node_object leaf_bytes
build_tree_keeps_object name o before rest room =
    let e : children_bytes (build_children o) ≡ object_bytes (nameless o) = children-bytes o in
    (
      refl,
      children-back o,
      rw e (binary_serialize-at (nameless o) before rest (omega (arith, room, ap length e))),
    )
