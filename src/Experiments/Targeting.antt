-- ===== src/Experiments/Targeting.antt =====
-- baseplate/lib/experiments/targeting/tree_targeting.py: the targeting tree, made from the JSON
-- configuration and evaluated on the keyword arguments.
pub mod Evaluation
pub mod Config
use Prim.Native.String.{String}
use text.Mathlib.Text.{◌==◌ as str_eq}
use baseplate_py.Prelude.{
  Bool, true, false, not, ◌&&◌, ◌||◌, Option, none, some, List, [], ◌∷◌, Result, ok, err, ◌>>=◌,
  ◌==◌, if◌then◌else◌,
}
use baseplate_py.Experiments.Lower.{lower}
use baseplate_py.Experiments.Value.{
  Value, null, bool, str, list, dict, Values, nil, cons, Fields, end, field, TypeError, size, get,
  has, truthy,
}
use baseplate_py.Experiments.Order.{Comparator, gt, ge, lt, le, ne, compare_by, contains}

mutual
  pub data Targeting : Type 0 where
    equal_node : String → Value → Targeting
    all_node : Nodes → Targeting
    any_node : Nodes → Targeting
    not_node : Targeting → Targeting
    override_node : Bool → Targeting
    comparison_node : String → Value → Comparator → Targeting

  pub data Nodes : Type 0 where
    leaf : Nodes
    node : Targeting → Nodes → Nodes

-- The exceptions of `create_targeting_tree`. A KeyError or an AttributeError of a node's
-- constructor is not one that it turns into a TargetingNodeError.
pub data TreeError : Type 0 where
  targeting_node_error : TreeError
  unknown_operator : TreeError
  key_error : TreeError
  attribute_error : TreeError

abbrev pub Kwargs : Type 0
Kwargs = List (String × Value)

-- `kwargs.get(key)`, where a missing key is None
unfoldable pub get_kwarg : String → Kwargs → Value
get_kwarg k [] = null
get_kwarg k ((j, v) ∷ kwargs) = if str_eq j k then v else get_kwarg k kwargs

-- `EqualNode.evaluate` catches the TypeError of `in`
abbrev pub caught : Result TypeError Bool → Result TypeError Bool
caught (ok b) = ok b
caught (err _) = ok false

abbrev pub negated : Result TypeError Bool → Result TypeError Bool
negated (ok b) = ok (not b)
negated (err e) = err e

-- None is not compared with None
unfoldable pub compare_kwarg : Comparator → Value → Value → Result TypeError Bool
compare_kwarg c null null = ok false
compare_kwarg c candidate accepted = compare_by c candidate accepted

-- `evaluate`; `all` and `any` stop at the first node that decides
unfoldable mutual
  unfolding get_kwarg compare_kwarg

  pub evaluate : Targeting → Kwargs → Result TypeError Bool
  evaluate (equal_node key accepted) kwargs = caught (contains (get_kwarg key kwargs) accepted)
  evaluate (all_node nodes) kwargs = evaluate_all nodes kwargs
  evaluate (any_node nodes) kwargs = evaluate_any nodes kwargs
  evaluate (not_node t) kwargs = negated (evaluate t kwargs)
  evaluate (override_node b) kwargs = ok b
  evaluate (comparison_node key accepted c) kwargs = compare_kwarg c (get_kwarg key kwargs) accepted

  pub evaluate_all : Nodes → Kwargs → Result TypeError Bool
  evaluate_all leaf kwargs = ok true
  evaluate_all (node t ts) kwargs = elim (evaluate t kwargs) [
    | ok b ↦ elim b [ true ↦ evaluate_all ts kwargs | false ↦ ok false ]
    | err e ↦ err e
  ]

  pub evaluate_any : Nodes → Kwargs → Result TypeError Bool
  evaluate_any leaf kwargs = ok false
  evaluate_any (node t ts) kwargs = elim (evaluate t kwargs) [
    | ok b ↦ elim b [ true ↦ ok true | false ↦ evaluate_any ts kwargs ]
    | err e ↦ err e
  ]

-- OPERATOR_NODE_TYPE_MAPPING, with the operator that a ComparisonNode is given
pub data NodeType : Type 0 where
  any_type all_type eq_type not_type override_type : NodeType
  comparison_type : Comparator → NodeType

unfoldable pub node_type : String → Option NodeType
node_type s =
    if str_eq s "any"
    then some any_type
    else if str_eq s "all"
    then some all_type
    else if str_eq s "eq"
    then some eq_type
    else if str_eq s "not"
    then some not_type
    else if str_eq s "override"
    then some override_type
    else if str_eq s "gt"
    then some (comparison_type gt)
    else if str_eq s "ge"
    then some (comparison_type ge)
    else if str_eq s "lt"
    then some (comparison_type lt)
    else if str_eq s "le"
    then some (comparison_type le)
    else if str_eq s "ne"
    then some (comparison_type ne)
    else none

-- `input_node["field"].lower()`, where only a text has `lower`
unfoldable accepted_key : Value → Result TreeError String
accepted_key (str s) = ok (lower s)
accepted_key _ = err attribute_error

-- `input_node["value"]`
unfoldable item : Option Value → Result TreeError Value
item none = err key_error
item (some v) = ok v

-- `input_node.get("values") or [input_node["value"]]`
unfoldable accepted_values : Fields → Result TreeError Value
unfolding item
accepted_values fs =
    let one = item (get "value" fs) >>= λ v. ok (list (cons v nil)) in
    elim (get "values" fs) [ none ↦ one | some vs ↦ if truthy vs then ok vs else one ]

-- EqualNode. Its TypeErrors and ValueErrors are caught by `create_targeting_tree`, also the
-- TypeError of a list or a text that is indexed with "field".
unfoldable pub equal_node_of : Value → Result TreeError Targeting
unfolding accepted_key accepted_values
equal_node_of (dict fs) = elim (get "field" fs) [
  | none ↦ err targeting_node_error
  | some f ↦
      if size fs == 2 && (has "value" fs || has "values" fs)
      then (accepted_key f >>= λ k. accepted_values fs >>= λ vs. ok (equal_node k vs))
      else err targeting_node_error
]
equal_node_of _ = err targeting_node_error

-- ComparisonNode
unfoldable pub comparison_node_of : Value → Comparator → Result TreeError Targeting
unfolding accepted_key
comparison_node_of (dict fs) c = elim (get "field" fs) [
  | none ↦ err targeting_node_error
  | some f ↦ elim (get "value" fs) [
    | none ↦ err targeting_node_error
    | some v ↦
        if size fs == 2
        then (accepted_key f >>= λ k. ok (comparison_node k v c))
        else err targeting_node_error
  ]
]
comparison_node_of _ c = err targeting_node_error

-- OverrideNode: `input_node is True`
abbrev override_node_of : Value → Targeting
override_node_of (bool true) = override_node true
override_node_of _ = override_node false

-- `create_targeting_tree`, and the constructors of AllNode, AnyNode and NotNode, where NotNode's
-- own call of `create_targeting_tree` is written out
unfoldable mutual
  unfolding node_type equal_node_of comparison_node_of

  pub create : Value → Result TreeError Targeting
  create (dict (field name v end)) = create_node (node_type (lower name)) v
  create _ = err targeting_node_error

  pub create_node : Option NodeType → Value → Result TreeError Targeting
  create_node none v = err unknown_operator
  create_node (some any_type) (list vs) = create_children vs >>= λ ts. ok (any_node ts)
  create_node (some any_type) _ = err targeting_node_error
  create_node (some all_type) (list vs) = create_children vs >>= λ ts. ok (all_node ts)
  create_node (some all_type) _ = err targeting_node_error
  create_node (some eq_type) v = equal_node_of v
  create_node (some not_type) (dict (field name v end)) =
      create_node (node_type (lower name)) v >>= λ t. ok (not_node t)
  create_node (some not_type) _ = err targeting_node_error
  create_node (some override_type) v = ok (override_node_of v)
  create_node (some (comparison_type c)) v = comparison_node_of v c

  pub create_children : Values → Result TreeError Nodes
  create_children nil = ok leaf
  create_children (cons v vs) = create v >>= λ t. create_children vs >>= λ ts. ok (node t ts)
