-- ===== src/Graph/Cycles/Answer.antt =====
-- FindCycles as a whole: it returns, and it answers whether the subgraph has a cycle.
use cyclebite.Base.{
  ℕ, zero, suc, ◌+◌, ◌*◌, ◌<◌, ◌≤◌, Bool, true, false, not, ◌||◌, List, [], ◌∷◌, some, ltb, length,
  ◌≡◌, ◌↔◌, inl, inr, refl, arith, count, count-le-length, Any, Bool-cases,
}
use cyclebite.Base.StdSet
use cyclebite.Base.NatSet.{contains, contains_iff, contains-same, length-insert_new}
use cyclebite.Graph.{Graph, GraphEdge, GraphNode, find_node, node_count}
use cyclebite.Graph.Cycles.{cycle, visits, explore, first_unvisited, search_all, find_cycles}
use cyclebite.Graph.Cycles.Arcs.{Arc, Ends}
use cyclebite.Graph.Cycles.Reach.{Reach, one, more, IsTopological-acyclic}
use cyclebite.Graph.Cycles.Depth.{IsState, unseen}
use cyclebite.Graph.Cycles.Verdict.{Found, explore-Found}

-- A subgraph with a cycle of edges of the subgraph between nodes of the subgraph.
abbrev pub HasCycle : (ℕ → GraphNode) → Graph → Type 0
HasCycle heap g = (v : ℕ) × Reach (Arc heap g) v v

lt-zero : {n : ℕ} → n < 0 → ⊥
lt-zero l = omega arith

first :
    (visited ns : List ℕ)
    → 0 < count (λ x. not (contains visited x)) ns
    → (n : ℕ) × (first_unvisited visited ns ≡ n ∷ [])
      × (contains visited n ≡ false)
      × (contains ns n ≡ true)
unfolding first_unvisited contains
first visited [] l = absurd (lt-zero l)
first visited (n ∷ ns) l = elim (Bool-cases (contains visited n)) [
  | inl old ↦
      let (m, e, new, i) = first visited ns (ground (arith, l, old)) in
      (m, rw old e, new, ground (arith, i))
  | inr new ↦ (n, rw new refl, new, ground arith)
]

none_unseen :
    (visited ns : List ℕ) (v : ℕ)
    → count (λ x. not (contains visited x)) ns ≤ 0
    → contains ns v ≡ true
    → contains visited v ≡ true
unfolding contains
none_unseen visited [] v l i = ground arith
none_unseen visited (n ∷ ns) v l i =
    ground (arith, none_unseen visited ns v, contains-same visited n v)

Ends-find_node :
    (g : Graph) (v : ℕ) (es : List GraphEdge) → Any (Ends g v) es → find_node g v ≡ true
Ends-find_node g v [] a = absurd a
Ends-find_node g v (e ∷ es) (inl h) = h.1
Ends-find_node g v (e ∷ es) (inr h) = Ends-find_node g v es h

count-all : (ns : List ℕ) → count (λ x. not (contains [] x)) ns ≡ length ns
unfolding contains
count-all [] = refl
count-all (n ∷ ns) = ground (arith, count-all ns)

abbrev pub Answers : (ℕ → GraphNode) → Graph → ℕ → List ℕ → Type 0
Answers heap g f visited =
    (b : Bool) × (search_all heap g f visited ≡ some b) × ((b ≡ true) ↔ HasCycle heap g)

module _ (heap : ℕ → GraphNode) (g : Graph) (f : ℕ) (visited q : List ℕ) where
  search_all-full :
      ltb (length visited) (node_count g) ≡ false → search_all heap g (suc f) visited ≡ some false
  unfolding search_all
  search_all-full e = rw (e, search_all) refl

  search_all-cycle :
      ltb (length visited) (node_count g) ≡ true
      → first_unvisited visited g.node_set ≡ q
      → explore heap g (2 * node_count g + 2) visited q ≡ some cycle
      → search_all heap g (suc f) visited ≡ some true
  unfolding search_all
  search_all-cycle e i h = rw (e, i, h, search_all) refl

  search_all-visits :
      (visited' : List ℕ)
      → ltb (length visited) (node_count g) ≡ true
      → first_unvisited visited g.node_set ≡ q
      → explore heap g (2 * node_count g + 2) visited q ≡ some (visits visited')
      → search_all heap g (suc f) visited ≡ search_all heap g f visited'
  unfolding search_all
  search_all-visits visited' e i h = rw (e, i, h, search_all) refl

module _ (heap : ℕ → GraphNode) (g : Graph) (s : StdSet.IsSorted ltb g.node_set) where
  Reach-find_node : (u v : ℕ) → Reach (Arc heap g) u v → find_node g v ≡ true
  Reach-find_node u v (one _ _ a) = Ends-find_node g v (heap u).successors a
  Reach-find_node u w (more _ v _ a r) = Reach-find_node v w r

  all_visited :
      (visited left : List ℕ)
      → IsState heap g visited [] left
      → node_count g ≤ length visited
      → ¬ HasCycle heap g
  unfolding contains
  all_visited visited left h l c =
      let v = c.0 in
      let seen =
        none_unseen visited g.node_set v (omega (arith, l, h.size)) (Reach-find_node v v c.1) in
      IsTopological-acyclic (Arc heap g) left v h.topological
        ((contains_iff left v).0 (ground (arith, h.known v seen))) c.1

  start :
      (visited left : List ℕ) (n : ℕ)
      → find_node g n ≡ true
      → IsState heap g visited [] left
      → IsState heap g visited (n ∷ []) left
  unfolding contains
  start visited left n i h = record {
    sorted = h.sorted;
    path = tt;
    inside = λ v c. ground (arith, i, c, contains-same g.node_set n v);
    topological = h.topological;
    known = λ v c. ground (arith, h.known v c);
    size = h.size;
  }

  search_all-Answers :
      (f : ℕ) (visited left : List ℕ)
      → IsState heap g visited [] left
      → unseen g visited < f
      → Answers heap g f visited
  search_all-Answers zero visited left h l = absurd (lt-zero l)
  search_all-Answers (suc f) visited left h l =
      elim (Bool-cases (ltb (length visited) (node_count g))) [
        | inr full ↦ (
          false,
          search_all-full heap g f visited [] full,
          (λ e. cc, λ c. absurd (all_visited visited left h (ground (arith, full)) c)),
        )
        | inl todo ↦
            let (n, starts, new, i) = first visited g.node_set (ground (arith, todo, h.size)) in
            let (r, ends, f') =
              explore-Found heap g s (2 * node_count g + 2) visited (n ∷ []) left
                (start visited left n i h)
                (omega (
                  arith,
                  count-le-length (λ x. not (contains visited x || contains (n ∷ []) x)) g.node_set,
                )) in
            elim r
                as (λ r.
                  explore heap g (2 * node_count g + 2) visited (n ∷ []) ≡ some r
                  → Found heap g (length (StdSet.insert ltb visited n)) r
                  → Answers heap g (suc f) visited) [
                    | cycle ↦ λ ends c. (
                      true,
                      search_all-cycle heap g f visited (n ∷ []) todo starts ends,
                      (λ e. c, λ c'. refl),
                    )
                    | visits visited' ↦ λ ends d.
                        let (b, rest, right) = search_all-Answers f visited' d.0 d.1 (
                          omega
                            (arith, l, d.2, h.size, (d.1).size, length-insert_new visited n new)) in
                        (
                          b,
                          rw (search_all-visits heap g f visited (n ∷ []) visited' todo starts ends)
                              rest,
                          right,
                        )
                  ]
              ends f'
      ]

  -- FindCycles returns, and it returns true exactly when some node of the subgraph is reachable
  -- from itself along edges of the subgraph whose sinks are nodes of the subgraph.
  pub find_cycles_iff : (b : Bool) × (find_cycles heap g ≡ some b) × ((b ≡ true) ↔ HasCycle heap g)
  unfolding find_cycles contains
  find_cycles_iff =
      search_all-Answers (suc (node_count g)) [] []
        (record {
          sorted = tt;
          path = tt;
          inside = λ v c. cc;
          topological = tt;
          known = λ v c. cc;
          size = omega (arith, count-all g.node_set);
        })
        (omega (arith, count-all g.node_set))
