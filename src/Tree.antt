-- ===== src/Tree.antt =====
-- headers/serialization/Tree.h: the tree of names and values that `buildTree` makes of an object. A name is
-- the list of its characters; a value is of a fundamental type, as in Binary.
pub mod Leaves
use gicame.Prelude.{ℕ, List}

abbrev pub Name : Type 0
Name = List ℕ

mutual
  -- A member, and an object through its named properties.
  pub data Value : Type 0 where
    fundamental : ℕ → ℕ → Value
    with_properties : Object → Value

  pub data Object : Type 0 where
    end : Object
    property : Name → Value → Object → Object

mutual
  pub data Node : Type 0 where
    node : Name → Children → Node

  -- A child is a leaf, of a name and a value, or a node.
  pub data Children : Type 0 where
    no_child : Children
    leaf : Name → ℕ → ℕ → Children → Children
    inner : Node → Children → Children

unfoldable mutual
  -- What the function that is applied to each property adds to the children: a leaf, or the node that
  -- `buildTreeNode` makes of a member with properties.
  pub add_child : Name → Value → Children → Children
  add_child name (fundamental w v) rest = leaf name w v rest
  add_child name (with_properties o) rest = inner (node name (build_children o)) rest

  pub build_children : Object → Children
  build_children end = no_child
  build_children (property name v o) = add_child name v (build_children o)

-- `buildTreeNode`
unfoldable pub build_tree_node : Name → Object → Node
unfolding build_children
build_tree_node name o = node name (build_children o)

-- `buildTree`: the root of the tree.
unfoldable pub build_tree : Name → Object → Node
unfolding build_tree_node
build_tree name o = build_tree_node name o
