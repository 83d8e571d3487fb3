-- ===== src/Graph/Cycles/Depth.antt =====
-- The invariant of the depth-first search: the queue is a path, the nodes that were visited are
-- in the queue or were left in topological order, and the size of the visited set is known.
use cyclebite.Base.{
  ℕ, suc, ◌+◌, true, false, not, ◌||◌, List, ◌∷◌, ltb, length, ◌≡◌, inl, inr, arith, count,
  Bool-cases,
}
use cyclebite.Base.StdSet
use cyclebite.Base.StdSet.Laws.{IsSorted-insert}
use cyclebite.Base.NatSet.{
  contains, contains_iff, contains-insert, length-insert_old, length-insert_new, count-ext,
  count-remove, NatSet-IsOrder, contains-same,
}
use cyclebite.Graph.{Graph, GraphNode, find_node, node_count}
use cyclebite.Graph.Cycles.Arcs.{Arc}
use cyclebite.Graph.Cycles.Reach.{IsPath, IsPath-tail, IsTopological}

abbrev pub unseen : Graph → List ℕ → ℕ
unseen g visited = count (λ x. not (contains visited x)) g.node_set

-- The nodes that are neither visited nor in the queue.
abbrev pub idle : Graph → List ℕ → List ℕ → ℕ
idle g visited q = count (λ x. not (contains visited x || contains q x)) g.node_set

pub record IsState (heap : ℕ → GraphNode) (g : Graph) (visited q left : List ℕ) : Type 0 where
  pub sorted : StdSet.IsSorted ltb visited
  pub path : IsPath (Arc heap g) q
  pub inside : (v : ℕ) → contains q v ≡ true → find_node g v ≡ true
  pub topological : IsTopological (Arc heap g) left
  pub known : (v : ℕ) → contains visited v ≡ true → (contains left v || contains q v) ≡ true
  pub size : length visited + unseen g visited ≡ node_count g

module _ (heap : ℕ → GraphNode) (g : Graph) (s : StdSet.IsSorted ltb g.node_set) where
  pub unseen-insert_old :
      (visited : List ℕ) (n : ℕ)
      → contains visited n ≡ true
      → unseen g (StdSet.insert ltb visited n) ≡ unseen g visited
  unseen-insert_old visited n h =
      count-ext _ _ g.node_set
        λ x. ground (arith, contains-insert visited n x, contains-same visited n x, h)

  unseen-insert_new :
      (visited : List ℕ) (n : ℕ)
      → contains visited n ≡ false
      → find_node g n ≡ true
      → unseen g visited ≡ suc (unseen g (StdSet.insert ltb visited n))
  unseen-insert_new visited n h m =
      count-remove (λ x. not (contains visited x)) _ g.node_set n
        (λ z. ground (arith, contains-insert visited n z)) s m (ground (arith, h))

  enter-size :
      (visited : List ℕ) (n : ℕ)
      → StdSet.IsSorted ltb visited
      → find_node g n ≡ true
      → length visited + unseen g visited ≡ node_count g
      → length (StdSet.insert ltb visited n) + unseen g (StdSet.insert ltb visited n) ≡ node_count g
  enter-size visited n o m e = elim (Bool-cases (contains visited n)) [
    | inl old ↦ omega (arith, e, length-insert_old visited n o old, unseen-insert_old visited n old)
    | inr new ↦ omega (arith, e, length-insert_new visited n new, unseen-insert_new visited n new m)
  ]

  pub enter :
      (visited q left : List ℕ) (n : ℕ)
      → IsState heap g visited (n ∷ q) left
      → IsState heap g (StdSet.insert ltb visited n) (n ∷ q) left
  unfolding contains
  enter visited q left n h = record {
    sorted = IsSorted-insert ltb NatSet-IsOrder visited n h.sorted;
    path = h.path;
    inside = h.inside;
    topological = h.topological;
    known = λ v c. ground (arith, c, contains-insert visited n v, h.known v);
    size = enter-size visited n h.sorted (h.inside n (ground arith)) h.size;
  }

  pub push :
      (visited q left : List ℕ) (n m : ℕ)
      → Arc heap g n m
      → find_node g m ≡ true
      → IsState heap g visited (n ∷ q) left
      → IsState heap g visited (m ∷ n ∷ q) left
  unfolding contains
  push visited q left n m a i h = record {
    sorted = h.sorted;
    path = (a, h.path);
    inside = λ v c. ground (arith, contains-same g.node_set m v, i, h.inside v);
    topological = h.topological;
    known = λ v c. ground (arith, h.known v c);
    size = h.size;
  }

  pub finish :
      (visited q left : List ℕ) (n : ℕ)
      → ((v : ℕ) → Arc heap g n v → (contains visited v ≡ true) × (contains (n ∷ q) v ≡ false))
      → IsState heap g visited (n ∷ q) left
      → IsState heap g visited q (n ∷ left)
  unfolding contains
  finish visited q left n f h = record {
    sorted = h.sorted;
    path = IsPath-tail (Arc heap g) n q h.path;
    inside = λ v c. h.inside v (ground (arith, c));
    topological =
        (λ v a. (contains_iff left v).0 (ground (arith, f v a, h.known v)), h.topological);
    known = λ v c. ground (arith, h.known v c);
    size = h.size;
  }
