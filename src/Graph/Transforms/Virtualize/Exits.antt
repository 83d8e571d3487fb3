-- ===== src/Graph/Transforms/Virtualize/Exits.antt =====
-- Two exits of a subgraph to the same node (VirtualizeSubgraph, Graph/Transforms.cpp).
use cyclebite.Base.{ℕ, ◌<◌, true, false, List, [], ◌∷◌, ◌==◌, All, ◌≡◌, ◌∙◌, arith}
use cyclebite.Base.StdSet
use cyclebite.Base.StdSet.Laws.{IsSorted-erase}
use cyclebite.Base.NatSet.{contains}
use cyclebite.Graph.{
  GraphEdge, ge_compare, has_edge, add_successor, add_predecessor, remove_predecessor,
}
use cyclebite.Graph.Containers.{has_edge-erase}
use cyclebite.Graph.Transforms.Virtualize.{Space, virtualize_exit}

below :
    (x e : GraphEdge) (xs : List GraphEdge)
    → All (λ y. ge_compare x y ≡ true) xs
    → has_edge xs e ≡ true
    → ge_compare x e ≡ true
unfolding has_edge ge_compare
below x e [] a h = cc
below x e (y ∷ ys) a h = ground (arith, a.0, h, below x e ys a.1)

-- An edge with the ends of one that is there is not inserted.
insert_old :
    (es : List GraphEdge) (e : GraphEdge)
    → StdSet.IsSorted ge_compare es
    → has_edge es e ≡ true
    → StdSet.insert ge_compare es e ≡ es
unfolding has_edge ge_compare StdSet.insert
insert_old [] e s h = cc
insert_old (x ∷ xs) e s h = ground (arith, h, below x e xs s.0, insert_old xs e s.1)

-- An exit of the subgraph to a node which already has an edge from the virtual node, as a second
-- exit to the same node has: the exit is removed from the predecessors of its sink, and the new edge
-- that has its frequency enters neither the successors of the virtual node nor the predecessors of the
-- sink. The other edges of both stay, and so does the frequency of any edge there was. It says nothing
-- of the set of edges of the graph and of EdgeToVE.
pub virtualize_exit-loses :
    (sub : List ℕ) (vn i : ℕ) (s : Space) (ex : GraphEdge)
    → contains sub ex.snk ≡ false
    → ¬ (ex.snk ≡ vn)
    → ¬ (ex.src ≡ vn)
    → StdSet.IsSorted ge_compare (s.heap vn).successors
    → StdSet.IsSorted ge_compare (s.heap ex.snk).predecessors
    → has_edge (s.heap vn).successors (record { eid = s.next_eid; src = vn; snk = ex.snk }) ≡ true
    → has_edge (s.heap ex.snk).predecessors (record { eid = s.next_eid; src = vn; snk = ex.snk })
      ≡ true
    → i < s.next_eid
    → (((virtualize_exit sub vn s ex).heap vn).successors ≡ (s.heap vn).successors)
      × (((virtualize_exit sub vn s ex).heap ex.snk).predecessors
          ≡ StdSet.erase ge_compare (s.heap ex.snk).predecessors ex)
      × ((virtualize_exit sub vn s ex).frequency i ≡ s.frequency i)
unfolding virtualize_exit add_successor add_predecessor remove_predecessor
virtualize_exit-loses sub vn i s ex off other real sorted_succ sorted_pred has_succ has_pred l =
    let new_edge : GraphEdge = record { eid = s.next_eid; src = vn; snk = ex.snk } in
    let preds = (s.heap ex.snk).predecessors in
    let still : has_edge (StdSet.erase ge_compare preds ex) new_edge ≡ true =
      has_edge-erase preds ex new_edge ∙ ground (arith, has_pred, real) in
    let kept_succ = insert_old (s.heap vn).successors new_edge sorted_succ has_succ in
    let kept_pred =
      insert_old (StdSet.erase ge_compare preds ex) new_edge
        (IsSorted-erase ge_compare preds ex sorted_pred) still in
    let apart : (vn == ex.snk) ≡ false = ground (arith, other) in
    let here : (ex.snk == ex.snk) ≡ true = ground arith in
    let apart' : (ex.snk == vn) ≡ false = ground (arith, other) in
    (
      ground (arith, off, apart, kept_succ),
      ground (arith, off, here, apart', kept_pred),
      ground (arith, off, l),
    )
