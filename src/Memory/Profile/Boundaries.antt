-- ===== src/Memory/Profile/Boundaries.antt =====
-- FindEpochBoundaries (Profile/Backend/Memory/Processing.cpp): the edges that enter or leave a
-- kernel of the highest level. The set of kernels at an edge is left out: the profiler only asks
-- whether the edge is there.
use cyclebite.Base.{
  ℕ, ◌≡◌, ◌↔◌, ◌⊎◌, refl, Bool, true, false, ◌||◌, List, [], ◌∷◌, ◌++◌, arith, if◌then◌else◌, Any,
}
use cyclebite.Memory.Profile.{is_boundary}

-- A map from source blocks to sets of sink blocks.
abbrev pub Edges : Type 0
Edges = List (ℕ × List ℕ)

pub record Kernel : Type 0 where
  pub has_parents : Bool
  pub entrances : Edges
  pub exits : Edges

unfoldable pub edges_from : ℕ → List ℕ → List (ℕ × ℕ)
edges_from src [] = []
edges_from src (snk ∷ rest) = (src, snk) ∷ edges_from src rest

unfoldable pub edge_list : Edges → List (ℕ × ℕ)
unfolding edges_from
edge_list [] = []
edge_list ((src, snks) ∷ rest) = edges_from src snks ++ edge_list rest

unfoldable pub find_epoch_boundaries : List Kernel → List (ℕ × ℕ)
unfolding edge_list
find_epoch_boundaries [] = []
find_epoch_boundaries (k ∷ ks) =
    let rest = find_epoch_boundaries ks in
    if k.has_parents then rest else edge_list k.entrances ++ (edge_list k.exits ++ rest)

-- The map holds the edge.
abbrev pub HasEdge : ℕ → ℕ → Edges → Type 0
HasEdge src snk es = Any (λ e. (e.0 ≡ src) × Any (λ b. b ≡ snk) e.1) es

is_boundary-append :
    (xs ys : List (ℕ × ℕ)) (src snk : ℕ)
    → is_boundary (xs ++ ys) src snk ≡ is_boundary xs src snk || is_boundary ys src snk
unfolding is_boundary
is_boundary-append [] ys src snk = refl
is_boundary-append (e ∷ xs) ys src snk = ground (arith, is_boundary-append xs ys src snk)

is_boundary-edges_from :
    (a : ℕ) (bs : List ℕ) (src snk : ℕ)
    → (is_boundary (edges_from a bs) src snk ≡ true) ↔ ((a ≡ src) × Any (λ b. b ≡ snk) bs)
unfolding is_boundary edges_from
is_boundary-edges_from a [] src snk = ground arith
is_boundary-edges_from a (b ∷ bs) src snk = ground (arith, is_boundary-edges_from a bs src snk)

is_boundary-edge_list :
    (es : Edges) (src snk : ℕ) → (is_boundary (edge_list es) src snk ≡ true) ↔ HasEdge src snk es
unfolding is_boundary edge_list
is_boundary-edge_list [] src snk = ground arith
is_boundary-edge_list ((a, bs) ∷ es) src snk = ground (
  arith,
  is_boundary-append (edges_from a bs) (edge_list es) src snk,
  is_boundary-edges_from a bs src snk,
  is_boundary-edge_list es src snk,
)

-- An edge of the program is an epoch boundary exactly when it is an entrance or an exit of a kernel
-- that has no parents.
pub find_epoch_boundaries_iff :
    (ks : List Kernel) (src snk : ℕ)
    → (is_boundary (find_epoch_boundaries ks) src snk ≡ true)
      ↔ Any
          (λ k. (k.has_parents ≡ false) × (HasEdge src snk k.entrances ⊎ HasEdge src snk k.exits))
          ks
unfolding is_boundary find_epoch_boundaries
find_epoch_boundaries_iff [] src snk = ground arith
find_epoch_boundaries_iff (k ∷ ks) src snk = ground (
  arith,
  is_boundary-append (edge_list k.entrances) (edge_list k.exits ++ find_epoch_boundaries ks) src
      snk,
  is_boundary-append (edge_list k.exits) (find_epoch_boundaries ks) src snk,
  is_boundary-edge_list k.entrances src snk,
  is_boundary-edge_list k.exits src snk,
  find_epoch_boundaries_iff ks src snk,
)
