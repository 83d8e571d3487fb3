-- ===== src/Graph/BuildCfg/Enter.antt =====
-- The body of the loop of BuildCFG (Graph/IO.cpp), for an edge that the graph does not have yet.
use cyclebite.Base.{
  ℕ, ◌&&◌, List, [], ◌∷◌, none, some, ◌>>=◌, if◌then◌else◌, ◌≡◌, refl, sym, ap, ◌∙◌, subst, inl,
  inr, Bool-cases, Option-cases,
}
use cyclebite.Graph.{is_predecessor_in, is_predecessor}
use cyclebite.Graph.BuildCfg.{Cfg, builds, same_list, find_nid, node_of, make_edge, enter_edge}
use cyclebite.Graph.BuildCfg.Nodes.{
  IsCfg, successors_of, arc, weight, known_weight, same_list_iff, same_list_refl, none_some,
}
use cyclebite.Graph.BuildCfg.Nodes.Fresh.{weight-make_node, make_node-IsCfg, find-here, find-there}
use cyclebite.Graph.BuildCfg.Listed.{IsListed, make_node-IsListed}
use cyclebite.Graph.BuildCfg.Listed.WithEdge.{make_edge-IsListed}
use cyclebite.Graph.BuildCfg.Weights.{weight-make_edge, make_edge-IsCfg}

-- What node_of does to the state.
record Located (c : Cfg) (ids : List ℕ) (c' : Cfg) (n : ℕ) : Type 0 where
  good : IsCfg c'
  listed : IsListed c'
  found : find_nid c'.nid_map ids ≡ some n
  kept : (jds : List ℕ) (k : ℕ) → find_nid c.nid_map jds ≡ some k → find_nid c'.nid_map jds ≡ some k
  weights : (xs ys : List ℕ) → weight c' xs ys ≡ weight c xs ys

node_of-Located :
    (c : Cfg) (ids : List ℕ)
    → IsCfg c
    → IsListed c
    → Located c ids (node_of c ids).0 (node_of c ids).1
unfolding node_of
node_of-Located c ids h l = elim (Option-cases (find_nid c.nid_map ids)) [
  | inr (n, e) ↦
      rw (e, node_of)
        (record { good = h; listed = l; found = e; kept = λ jds k z. z; weights = λ xs ys. refl })
  | inl new ↦
      rw (new, node_of)
        (record {
          good = make_node-IsCfg c h ids new;
          listed = make_node-IsListed c h l ids new;
          found = find-here c h ids new ids (same_list_refl ids);
          kept = λ jds k z. elim (Bool-cases (same_list ids jds)) [
            | inl same ↦ absurd (
                none_some (
                  sym (subst (λ x. find_nid c.nid_map x ≡ none) (same_list_iff ids jds same) new)
                  ∙ z))
            | inr there ↦ find-there c h ids new jds there ∙ z
          ];
          weights = weight-make_node c h ids new;
        })
]

-- An edge that the graph does not have yet.
abbrev pub Entered : Cfg → ℕ → ℕ → ℕ → Type 0
Entered c a b freq =
    (c' : Cfg) × (enter_edge c (a ∷ []) b freq ≡ builds c')
    × IsCfg c'
    × IsListed c'
    × ((xs ys : List ℕ)
        → weight c' xs ys
          ≡ (if same_list (a ∷ []) xs && same_list (b ∷ []) ys then some freq else weight c xs ys))

no_edge : (c : Cfg) (n k : ℕ) → arc c n k ≡ none → is_predecessor_in (successors_of c n) k ≡ none
no_edge c n k h = elim (Option-cases (is_predecessor_in (successors_of c n) k)) [
  | inl z ↦ z
  | inr (e, z) ↦ absurd (none_some (sym h ∙ ap (λ o. o >>= λ e. some (c.frequency e.eid)) z))
]

pub enter_edge-Entered :
    (c : Cfg) (a b freq : ℕ)
    → IsCfg c
    → IsListed c
    → weight c (a ∷ []) (b ∷ []) ≡ none
    → Entered c a b freq
unfolding enter_edge is_predecessor
enter_edge-Entered c a b freq h l absent =
    let from = node_of-Located c (a ∷ []) h l in
    let (c₁, n) = node_of c (a ∷ []) in
    let to = node_of-Located c₁ (b ∷ []) from.good from.listed in
    let (c₂, k) = node_of c₁ (b ∷ []) in
    let at_n = to.kept (a ∷ []) n from.found in
    let new = no_edge c₂ n k (
      sym (known_weight c₂ (a ∷ []) (b ∷ []) n k at_n to.found)
      ∙ to.weights (a ∷ []) (b ∷ [])
      ∙ from.weights (a ∷ []) (b ∷ [])
      ∙ absent) in
    (
      make_edge c₂ n k freq,
      rw (new, enter_edge) refl,
      make_edge-IsCfg c₂ to.good (a ∷ []) (b ∷ []) n k freq at_n to.found new,
      make_edge-IsListed c₂ to.good to.listed (a ∷ []) (b ∷ []) n k freq at_n to.found new,
      λ xs ys.
          weight-make_edge c₂ to.good (a ∷ []) (b ∷ []) n k freq at_n to.found new xs ys
          ∙ rw (to.weights xs ys ∙ from.weights xs ys) refl,
    )
