-- ===== src/Experiments/Targeting/Config.antt =====
-- The JSON configuration that stands for a targeting tree.
use Prim.Native.String.{String}
use baseplate_py.Prelude.{◌≡◌, refl, true, false, some, ok, ◌>>=◌}
use baseplate_py.Experiments.Lower.{lower}
use baseplate_py.Experiments.Value.{
  Value, bool, str, list, dict, Values, nil, cons, end, field, truthy, size, get, has,
}
use baseplate_py.Experiments.Order.{Comparator, gt, ge, lt, le, ne}
use baseplate_py.Experiments.Targeting.{
  Targeting, equal_node, all_node, any_node, not_node, override_node, comparison_node, Nodes, leaf,
  node, create, create_node, create_children, not_type, node_type, equal_node_of,
  comparison_node_of, accepted_key, accepted_values,
}

abbrev pub single : String → Value → Value
single k v = dict (field k v end)

abbrev pub comparator_name : Comparator → String
comparator_name gt = "GT"
comparator_name ge = "GE"
comparator_name lt = "LT"
comparator_name le = "LE"
comparator_name ne = "NE"

unfoldable mutual
  pub config : Targeting → Value
  config (equal_node k vs) = single "EQ" (dict (field "field" (str k) (field "values" vs end)))
  config (all_node ts) = single "ALL" (list (configs ts))
  config (any_node ts) = single "ANY" (list (configs ts))
  config (not_node t) = single "NOT" (config t)
  config (override_node b) = single "OVERRIDE" (bool b)
  config (comparison_node k v c) =
      single (comparator_name c) (dict (field "field" (str k) (field "value" v end)))

  pub configs : Nodes → Values
  configs leaf = nil
  configs (node t ts) = cons (config t) (configs ts)

-- The field names of the tree are in lower case, and what its EqualNodes accept is not empty.
unfoldable mutual
  pub IsCanonical : Targeting → Type 0
  IsCanonical (equal_node k vs) = (lower k ≡ k) × (truthy vs ≡ true)
  IsCanonical (all_node ts) = AreCanonical ts
  IsCanonical (any_node ts) = AreCanonical ts
  IsCanonical (not_node t) = IsCanonical t
  IsCanonical (override_node _) = Unit
  IsCanonical (comparison_node k _ _) = lower k ≡ k

  pub AreCanonical : Nodes → Type 0
  AreCanonical leaf = Unit
  AreCanonical (node t ts) = IsCanonical t × AreCanonical ts

-- NotNode is `create_targeting_tree` on its input.
create_node-not : (v : Value) → create_node (some not_type) v ≡ (create v >>= λ t. ok (not_node t))
unfolding create create_node
create_node-not (dict (field name v end)) = refl
create_node-not v = refl

comparison_node_of-config :
    (c : Comparator) (k : String) (v : Value)
    → lower k ≡ k
    → create (config (comparison_node k v c)) ≡ ok (comparison_node k v c)
unfolding create create_node comparison_node_of accepted_key node_type lower get size config
comparison_node_of-config gt k v h = rw h
comparison_node_of-config ge k v h = rw h
comparison_node_of-config lt k v h = rw h
comparison_node_of-config le k v h = rw h
comparison_node_of-config ne k v h = rw h

mutual
  unfolding create create_node equal_node_of accepted_key accepted_values node_type lower get has
      size config IsCanonical

  create-config_tree : (t : Targeting) → IsCanonical t → create (config t) ≡ ok t
  create-config_tree (equal_node k vs) (h, g) = rw (h, g)
  create-config_tree (all_node ts) h = rw (create_children-configs ts h)
  create-config_tree (any_node ts) h = rw (create_children-configs ts h)
  create-config_tree (not_node t) h = rw (create_node-not (config t), create-config_tree t h)
  create-config_tree (override_node true) h = refl
  create-config_tree (override_node false) h = refl
  create-config_tree (comparison_node k v c) h = comparison_node_of-config c k v h

  create_children-configs : (ts : Nodes) → AreCanonical ts → create_children (configs ts) ≡ ok ts
  create_children-configs leaf h = refl
  create_children-configs (node t ts) (h, hs) =
      rw (create-config_tree t h, create_children-configs ts hs)

-- A tree whose field names are in lower case, and whose EqualNodes accept something, is made again
-- by create_targeting_tree from its JSON configuration: every operator, field and accepted value is
-- read back.
pub create-config : (t : Targeting) → IsCanonical t → create (config t) ≡ ok t
create-config t h = create-config_tree t h
