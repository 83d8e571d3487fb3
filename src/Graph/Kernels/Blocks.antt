-- ===== src/Graph/Kernels/Blocks.antt =====
-- The blocks of a kernel: setDiff keeps what it got for the first child, so only the blocks of that
-- child are taken out.
use cyclebite.Base.{ℕ, Bool, false, not, ◌&&◌, ◌||◌, List, [], ◌∷◌, ltb, ◌≡◌, refl, arith}
use cyclebite.Base.StdSet
use cyclebite.Base.NatSet.{contains, contains-insert, contains-same}
use cyclebite.Graph.Kernels.{set_difference, insert_blocks, gather_blocks, take_out, kernel_blocks}

pub contains-insert_blocks :
    (xs ys : List ℕ) (v : ℕ) → contains (insert_blocks xs ys) v ≡ (contains xs v || contains ys v)
unfolding insert_blocks contains
contains-insert_blocks xs [] v = ground arith
contains-insert_blocks xs (y ∷ ys) v =
    ground (arith, contains-insert xs y v, contains-insert_blocks (StdSet.insert ltb xs y) ys v)

contains-set_difference :
    (xs ys : List ℕ) (v : ℕ)
    → contains (set_difference xs ys) v ≡ (contains xs v && not (contains ys v))
unfolding set_difference contains
contains-set_difference [] ys v = refl
contains-set_difference (x ∷ xs) ys v =
    ground (arith, contains-set_difference xs ys v, contains-same ys x v)

-- With what setDiff already holds the later children change nothing.
take_out_later :
    (children : List (List ℕ)) (blocks : List ℕ) (v : ℕ)
    → contains (take_out blocks blocks children) v ≡ contains blocks v
unfolding take_out
take_out_later [] blocks v = refl
take_out_later (c ∷ cs) blocks v = ground (
  arith,
  take_out_later cs (insert_blocks blocks (set_difference blocks c)) v,
  contains-insert_blocks blocks (set_difference blocks c) v,
  contains-set_difference blocks c v,
)

-- The blocks that a node of the kernel has.
pub in_some : List (List ℕ) → ℕ → Bool
in_some [] v = false
in_some (node ∷ nodes) v = contains node v || in_some nodes v

contains-gather_blocks :
    (nodes : List (List ℕ)) (blocks : List ℕ) (v : ℕ)
    → contains (gather_blocks blocks nodes) v ≡ (contains blocks v || in_some nodes v)
unfolding gather_blocks in_some
contains-gather_blocks [] blocks v = ground arith
contains-gather_blocks (n ∷ ns) blocks v =
    ground (
      arith,
      contains-gather_blocks ns (insert_blocks blocks n) v,
      contains-insert_blocks blocks n v,
    )

-- A kernel that has child kernels keeps, of the blocks of its nodes, exactly those that the first
-- child does not have, so also those that a later child has; one without children keeps them all.
pub kernel_blocks-first_child :
    (nodes children : List (List ℕ)) (child : List ℕ) (v : ℕ)
    → (contains (kernel_blocks nodes (child ∷ children)) v
        ≡ (in_some nodes v && not (contains child v)))
      × (contains (kernel_blocks nodes []) v ≡ in_some nodes v)
unfolding kernel_blocks take_out contains
kernel_blocks-first_child nodes children child v =
    let blocks = gather_blocks [] nodes in
    let diff = insert_blocks [] (set_difference blocks child) in
    (
      ground (
        arith,
        take_out_later children diff v,
        contains-insert_blocks [] (set_difference blocks child) v,
        contains-set_difference blocks child v,
        contains-gather_blocks nodes [] v,
      ),
      ground (arith, contains-gather_blocks nodes [] v),
    )
