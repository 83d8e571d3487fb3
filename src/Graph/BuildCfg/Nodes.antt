-- ===== src/Graph/BuildCfg/Nodes.antt =====
-- The nodes that BuildCFG (Graph/IO.cpp) makes for the blocks, and the successors of a node.
pub mod Fresh
use cyclebite.Base.{
  ℕ, zero, suc, ◌+◌, ◌≤◌, ◌<◌, Bool, true, false, List, [], ◌∷◌, ◌++◌, Option, none, some, ◌==◌,
  ◌>>=◌, ◌⊎◌, if◌then◌else◌, All, ◌≡◌, refl, sym, ap, ◌∙◌, subst, arith, inl, inr, Bool-cases,
  Option-cases, ltb,
}
use cyclebite.Base.StdSet
use cyclebite.Graph.{GraphEdge, GraphNode, ge_compare, is_predecessor_in}
use cyclebite.Graph.BuildCfg.{Cfg, same_list, find_nid, make_node, node_of}

pub is_predecessor_in-insert :
    (es : List GraphEdge) (e : GraphEdge) (k : ℕ)
    → All (λ x. x.src ≡ e.src) es
    → is_predecessor_in es e.snk ≡ none
    → is_predecessor_in (StdSet.insert ge_compare es e) k
      ≡ (if e.snk == k then some e else is_predecessor_in es k)
unfolding is_predecessor_in StdSet.insert ge_compare
is_predecessor_in-insert [] e k a new = refl
is_predecessor_in-insert (x ∷ xs) e k a new =
    ground (arith, a.0, new, is_predecessor_in-insert xs e k a.1)

pub All-insert :
    (P : GraphEdge → Type 0) (es : List GraphEdge) (e : GraphEdge)
    → All P es
    → P e
    → All P (StdSet.insert ge_compare es e)
unfolding StdSet.insert
All-insert P [] e a p = (p, tt)
All-insert P (x ∷ xs) e a p = elim (Bool-cases (ge_compare x e)) [
  | inl later ↦ rw later (a.0, All-insert P xs e a.1 p)
  | inr here ↦
      rw here
        (elim (Bool-cases (ge_compare e x)) [ inl first ↦ rw first (p, a) | inr same ↦ rw same a ])
]

pub same_list_iff : (xs ys : List ℕ) → same_list xs ys ≡ true → xs ≡ ys
same_list_iff [] [] h = refl
same_list_iff (x ∷ xs) (y ∷ ys) h =
    let heads : x ≡ y = ground (arith, h) in
    let tails : same_list xs ys ≡ true = ground (arith, h) in
    rw heads (rw (same_list_iff xs ys tails) refl)
same_list_iff [] (y ∷ ys) h = cc
same_list_iff (x ∷ xs) [] h = cc

pub same_list_refl : (xs : List ℕ) → same_list xs xs ≡ true
same_list_refl [] = refl
same_list_refl (x ∷ xs) = ground (arith, same_list_refl xs)

pub none_some : {A : Type 0} {a : A} → none ≡ some a → ⊥
none_some h = cc

pub some_back : {A : Type 0} {a b : A} → some a ≡ some b → a ≡ b
some_back {a} h = ap (λ o. elim o [ none ↦ a | some x ↦ x ]) h

pub lt_irrefl : {n : ℕ} → n < n → ⊥
lt_irrefl l = omega arith

abbrev pub successors_of : Cfg → ℕ → List GraphEdge
successors_of c n = (c.heap n).successors

-- The state keeps the nodes of the blocks apart, and knows no node or edge but those it made.
pub record IsCfg (c : Cfg) : Type 0 where
  pub old_node : (ids : List ℕ) (n : ℕ) → find_nid c.nid_map ids ≡ some n → n < c.next_nid
  pub apart :
      (ids jds : List ℕ) (n : ℕ)
      → find_nid c.nid_map ids ≡ some n
      → find_nid c.nid_map jds ≡ some n
      → ids ≡ jds
  pub sources : (n : ℕ) → n < c.next_nid → All (λ e. e.src ≡ n) (successors_of c n)
  pub old_edge :
      (n k : ℕ) (e : GraphEdge)
      → n < c.next_nid
      → is_predecessor_in (successors_of c n) k ≡ some e
      → (e.eid < c.next_eid) × (k < c.next_nid)

-- The frequency of the edge between two nodes, and between the nodes of two states.
abbrev pub arc_in : (ℕ → ℕ) → GraphNode → ℕ → Option ℕ
arc_in freq node k = is_predecessor_in node.successors k >>= λ e. some (freq e.eid)

abbrev pub arc : Cfg → ℕ → ℕ → Option ℕ
arc c n k = arc_in c.frequency (c.heap n) k

abbrev pub weight : Cfg → List ℕ → List ℕ → Option ℕ
weight c ids jds = find_nid c.nid_map ids >>= λ n. find_nid c.nid_map jds >>= λ k. arc c n k

pub weight_nowhere :
    (c : Cfg) (xs ys : List ℕ) → find_nid c.nid_map xs ≡ none → weight c xs ys ≡ none
weight_nowhere c xs ys e = rw (e, weight) refl

pub known_weight :
    (c : Cfg) (xs ys : List ℕ) (n k : ℕ)
    → find_nid c.nid_map xs ≡ some n
    → find_nid c.nid_map ys ≡ some k
    → weight c xs ys ≡ arc c n k
known_weight c xs ys n k e z = rw (e, weight) (rw z refl)

pub weight_half :
    (c : Cfg) (xs ys : List ℕ) (n : ℕ)
    → find_nid c.nid_map xs ≡ some n
    → find_nid c.nid_map ys ≡ none
    → weight c xs ys ≡ none
weight_half c xs ys n e z = rw (e, weight) (rw z refl)

pub weight_at :
    (c : Cfg) (xs ys : List ℕ) (n : ℕ)
    → find_nid c.nid_map xs ≡ some n
    → ((k : ℕ) → arc c n k ≡ none)
    → weight c xs ys ≡ none
weight_at c xs ys n e h = elim (Option-cases (find_nid c.nid_map ys)) [
  | inl z ↦ weight_half c xs ys n e z
  | inr (k, z) ↦ known_weight c xs ys n k e z ∙ h k
]
