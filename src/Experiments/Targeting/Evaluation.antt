-- ===== src/Experiments/Targeting/Evaluation.antt =====
-- The evaluation of a targeting tree: the negation of the nodes that combine others, and what
-- raises.
use baseplate_py.Prelude.{◌≡◌, refl, sym, subst, Bool, true, false, not, Result, ok, err, arith}
use baseplate_py.Experiments.Value.{Value, null, TypeError, equals}
use baseplate_py.Experiments.Order.{ne, contains, compare_by}
use baseplate_py.Experiments.Targeting.{
  Targeting, equal_node, all_node, any_node, not_node, override_node, comparison_node, Nodes, leaf,
  node, Kwargs, evaluate, evaluate_all, evaluate_any, get_kwarg, compare_kwarg, caught, negated,
}

-- every node under a NotNode
abbrev pub negate : Nodes → Nodes
negate leaf = leaf
negate (node t ts) = node (not_node t) (negate ts)

-- For every list of nodes and all keyword arguments, NOT over ANY evaluates as ALL over the NOT of
-- each node does: the two give the same Boolean, or raise the same error.
pub not_any-DeMorgan :
    (ts : Nodes) (kwargs : Kwargs)
    → evaluate (not_node (any_node ts)) kwargs ≡ evaluate (all_node (negate ts)) kwargs
unfolding evaluate evaluate_all evaluate_any
not_any-DeMorgan leaf kwargs = refl
not_any-DeMorgan (node t ts) kwargs = ground (arith, not_any-DeMorgan ts kwargs)

-- For every list of nodes and all keyword arguments, NOT over ALL evaluates as ANY over the NOT of
-- each node does, errors included.
pub not_all-DeMorgan :
    (ts : Nodes) (kwargs : Kwargs)
    → evaluate (not_node (all_node ts)) kwargs ≡ evaluate (any_node (negate ts)) kwargs
unfolding evaluate evaluate_all evaluate_any
not_all-DeMorgan leaf kwargs = refl
not_all-DeMorgan (node t ts) kwargs = ground (arith, not_all-DeMorgan ts kwargs)

-- no GT, GE, LT or LE in the tree
unfoldable mutual
  pub IsUnordered : Targeting → Type 0
  IsUnordered (equal_node _ _) = Unit
  IsUnordered (all_node ts) = AreUnordered ts
  IsUnordered (any_node ts) = AreUnordered ts
  IsUnordered (not_node t) = IsUnordered t
  IsUnordered (override_node _) = Unit
  IsUnordered (comparison_node _ _ c) = c ≡ ne

  pub AreUnordered : Nodes → Type 0
  AreUnordered leaf = Unit
  AreUnordered (node t ts) = IsUnordered t × AreUnordered ts

abbrev pub Answers : Result TypeError Bool → Type 0
Answers r = (b : Bool) × (r ≡ ok b)

compare_kwarg-Answers : (a b : Value) → Answers (compare_kwarg ne a b)
unfolding compare_kwarg compare_by
compare_kwarg-Answers null null = (false, refl)
compare_kwarg-Answers a b = (not (equals a b), refl)

caught-Answers : (r : Result TypeError Bool) → Answers (caught r)
caught-Answers (ok b) = (b, refl)
caught-Answers (err _) = (false, refl)

negated-Answers : (r : Result TypeError Bool) → Answers r → Answers (negated r)
negated-Answers r (b, e) = (not b, rw e)

all-Answers :
    (t : Targeting) (ts : Nodes) (kwargs : Kwargs)
    → Answers (evaluate t kwargs)
    → Answers (evaluate_all ts kwargs)
    → Answers (evaluate_all (node t ts) kwargs)
unfolding evaluate_all
all-Answers t ts kwargs (true, e) (b, f) = (b, rw (e, f))
all-Answers t ts kwargs (false, e) rest = (false, rw e)

any-Answers :
    (t : Targeting) (ts : Nodes) (kwargs : Kwargs)
    → Answers (evaluate t kwargs)
    → Answers (evaluate_any ts kwargs)
    → Answers (evaluate_any (node t ts) kwargs)
unfolding evaluate_any
any-Answers t ts kwargs (true, e) rest = (true, rw e)
any-Answers t ts kwargs (false, e) (b, f) = (b, rw (e, f))

mutual
  unfolding evaluate IsUnordered

  evaluate_tree-Answers :
      (t : Targeting) (kwargs : Kwargs) → IsUnordered t → Answers (evaluate t kwargs)
  evaluate_tree-Answers (equal_node key vs) kwargs h =
      caught-Answers (contains (get_kwarg key kwargs) vs)
  evaluate_tree-Answers (all_node ts) kwargs h = evaluate_all-Answers ts kwargs h
  evaluate_tree-Answers (any_node ts) kwargs h = evaluate_any-Answers ts kwargs h
  evaluate_tree-Answers (not_node t) kwargs h =
      negated-Answers (evaluate t kwargs) (evaluate_tree-Answers t kwargs h)
  evaluate_tree-Answers (override_node b) kwargs h = (b, refl)
  evaluate_tree-Answers (comparison_node key v c) kwargs h =
      subst (λ x. Answers (compare_kwarg x (get_kwarg key kwargs) v)) (sym h)
        (compare_kwarg-Answers (get_kwarg key kwargs) v)

  evaluate_all-Answers :
      (ts : Nodes) (kwargs : Kwargs) → AreUnordered ts → Answers (evaluate_all ts kwargs)
  evaluate_all-Answers leaf kwargs h = (true, refl)
  evaluate_all-Answers (node t ts) kwargs (h, hs) =
      all-Answers t ts kwargs (evaluate_tree-Answers t kwargs h) (evaluate_all-Answers ts kwargs hs)

  evaluate_any-Answers :
      (ts : Nodes) (kwargs : Kwargs) → AreUnordered ts → Answers (evaluate_any ts kwargs)
  evaluate_any-Answers leaf kwargs h = (false, refl)
  evaluate_any-Answers (node t ts) kwargs (h, hs) =
      any-Answers t ts kwargs (evaluate_tree-Answers t kwargs h) (evaluate_any-Answers ts kwargs hs)

-- Evaluating a tree without GT, GE, LT and LE never raises: every EqualNode, inequality and
-- combination of them answers with a Boolean, whatever the keyword arguments and the accepted
-- values are.
pub evaluate-Answers :
    (t : Targeting) (kwargs : Kwargs) → IsUnordered t → Answers (evaluate t kwargs)
evaluate-Answers t kwargs h = evaluate_tree-Answers t kwargs h
