-- ===== src/Graph/BuildCfg/Between.antt =====
-- Whether the graph of BuildCFG (Graph/IO.cpp) has an edge between two blocks, by its set of edges and
-- by the predecessors of its nodes.
use cyclebite.Base.{
  ℕ, ◌<◌, Bool, true, false, List, Option, none, some, ◌>>=◌, if◌then◌else◌, ◌≡◌, refl, sym, ◌∙◌,
  inl, inr, Option-cases,
}
use cyclebite.Graph.{has_edge, is_predecessor_in}
use cyclebite.Graph.BuildCfg.{Cfg, find_nid}
use cyclebite.Graph.BuildCfg.Nodes.{IsCfg, successors_of, weight}
use cyclebite.Graph.BuildCfg.Listed.{IsListed, link, is_made, predecessors_of, is_made-has_edge}

-- Whether the graph has an edge from the node of the one list of blocks to that of the other, by its
-- set of edges and by the predecessors of the latter.
abbrev pub between : Cfg → (ℕ → ℕ → Bool) → List ℕ → List ℕ → Bool
between c test xs ys = is_made (
    find_nid c.nid_map xs >>= λ n. find_nid c.nid_map ys >>= λ k. if test n k then some n else none)

abbrev pub listed : Cfg → List ℕ → List ℕ → Bool
listed c xs ys = between c (λ n k. has_edge (c.graph).edge_set (link n k)) xs ys

abbrev pub mirrored_in : Cfg → List ℕ → List ℕ → Bool
mirrored_in c xs ys = between c (λ n k. has_edge (predecessors_of c k) (link n k)) xs ys

made_then : {A : Type 0} (o : Option A) (f : A → ℕ) → is_made (o >>= λ a. some (f a)) ≡ is_made o
made_then none f = refl
made_then (some a) f = refl

made_if : (b : Bool) (n : ℕ) → is_made (if b then some n else none) ≡ b
made_if true n = refl
made_if false n = refl

between-weight :
    (c : Cfg) (test : ℕ → ℕ → Bool) (xs ys : List ℕ)
    → IsCfg c
    → ((n k : ℕ)
        → n < c.next_nid
        → k < c.next_nid
        → test n k ≡ has_edge (successors_of c n) (link n k))
    → between c test xs ys ≡ is_made (weight c xs ys)
between-weight c test xs ys h same = elim (Option-cases (find_nid c.nid_map xs)) [
  | inl z ↦ rw z refl
  | inr (n, e) ↦ elim (Option-cases (find_nid c.nid_map ys)) [
    | inl z ↦ rw e (rw z refl)
    | inr (k, z) ↦ rw e (
        rw z (
          made_if (test n k) n
          ∙ same n k (h.old_node xs n e) (h.old_node ys k z)
          ∙ is_made-has_edge n k (successors_of c n) (h.sources n (h.old_node xs n e))
          ∙ sym (made_then (is_predecessor_in (successors_of c n) k) (λ x. c.frequency x.eid))))
  ]
]

pub listed-weight :
    (c : Cfg) (xs ys : List ℕ)
    → IsCfg c
    → IsListed c
    → (listed c xs ys ≡ is_made (weight c xs ys)) × (mirrored_in c xs ys ≡ is_made (weight c xs ys))
listed-weight c xs ys h l = (
  between-weight c (λ n k. has_edge (c.graph).edge_set (link n k)) xs ys h l.in_graph,
  between-weight c (λ n k. has_edge (predecessors_of c k) (link n k)) xs ys h l.mirrored,
)
