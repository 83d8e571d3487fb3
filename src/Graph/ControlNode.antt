-- ===== src/Graph/ControlNode.antt =====
-- ControlNode::mergeSuccessor (Graph/ControlNode.cpp): a node takes the blocks of its successor. The
-- list of the original blocks, in the order of their execution, gets those that it lacks.
use cyclebite.Base.{
  ℕ, false, ◌||◌, List, [], ◌∷◌, ◌++◌, if◌then◌else◌, ◌≡◌, refl, arith, ◌∙◌, sym, Bool-cases, inl,
  inr,
}
use mathlib.Core.List.{append_assoc, append-nil}
use cyclebite.Base.NatSet.{contains, contains-same}
use cyclebite.Graph.Kernels.{insert_blocks}
use cyclebite.Graph.Kernels.Blocks.{contains-insert_blocks}
use cyclebite.Graph.Kernels.Flood.{contains-append}

pub record ControlNode : Type 0 where
  pub blocks : List ℕ
  pub original_blocks : List ℕ

-- The two loops over the original blocks.
unfoldable pub append_missing : List ℕ → List ℕ → List ℕ
append_missing bs [] = bs
append_missing bs (block ∷ rest) =
    append_missing (if contains bs block then bs else bs ++ block ∷ []) rest

unfoldable pub merge_successor : ControlNode → ControlNode → ControlNode
unfolding append_missing
merge_successor n succ = record {
  blocks = insert_blocks n.blocks succ.blocks;
  original_blocks = append_missing n.original_blocks succ.original_blocks;
}

abbrev pub IsDistinct : List ℕ → Type 0
IsDistinct [] = Unit
IsDistinct (x ∷ xs) = (contains xs x ≡ false) × IsDistinct xs

IsDistinct-append :
    (xs : List ℕ) (x : ℕ) → IsDistinct xs → contains xs x ≡ false → IsDistinct (xs ++ x ∷ [])
unfolding contains
IsDistinct-append [] x d h = (refl, tt)
IsDistinct-append (y ∷ ys) x d h =
    (ground (arith, d, h, contains-append ys x y), IsDistinct-append ys x d.1 (ground (arith, h)))

-- What a list of blocks becomes.
abbrev Extends : List ℕ → List ℕ → List ℕ → Type 0
Extends bs succ r =
    (IsDistinct bs → IsDistinct r)
    × ((added : List ℕ) × (r ≡ bs ++ added))
    × ((v : ℕ) → contains r v ≡ (contains bs v || contains succ v))

append_missing-Extends : (succ bs : List ℕ) → Extends bs succ (append_missing bs succ)
unfolding append_missing contains
append_missing-Extends [] bs = (λ d. d, ([], sym (append-nil bs)), λ v. ground arith)
append_missing-Extends (b ∷ rest) bs = elim (Bool-cases (contains bs b)) [
  | inl old ↦
      let (d, p, c) = append_missing-Extends rest bs in
      rw old (d, p, λ v. ground (arith, c v, contains-same bs b v, old))
  | inr new ↦
      let (d, (added, p), c) = append_missing-Extends rest (bs ++ b ∷ []) in
      rw new (
        λ h. d (IsDistinct-append bs b h new),
        (b ∷ added, p ∙ append_assoc bs (b ∷ []) added),
        λ v. ground (arith, c v, contains-append bs b v),
      )
]

-- mergeSuccessor gives the node the blocks of both nodes. Its original blocks come first and in
-- their order, those of the successor are among them, nothing else is, and blocks that were
-- distinct still are.
pub merge_successor-Extends :
    (n succ : ControlNode)
    → ((v : ℕ)
        → contains (merge_successor n succ).blocks v
          ≡ (contains n.blocks v || contains succ.blocks v))
      × (IsDistinct n.original_blocks → IsDistinct (merge_successor n succ).original_blocks)
      × ((added : List ℕ) × ((merge_successor n succ).original_blocks ≡ n.original_blocks ++ added))
      × ((v : ℕ)
          → contains (merge_successor n succ).original_blocks v
            ≡ (contains n.original_blocks v || contains succ.original_blocks v))
unfolding merge_successor
merge_successor-Extends n succ =
    let (d, p, c) = append_missing-Extends succ.original_blocks n.original_blocks in
    (λ v. contains-insert_blocks n.blocks succ.blocks v, d, p, c)
