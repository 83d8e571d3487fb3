-- ===== src/Graph/Cycles/Verdict.antt =====
-- The loops of FindCycles: the fuel is enough, and what they answer is right.
use cyclebite.Base.{
  ℕ, zero, suc, ◌+◌, ◌*◌, ◌<◌, ◌≤◌, true, false, not, ◌||◌, List, [], ◌∷◌, some, ltb, length, ◌≡◌,
  ◌⊎◌, inl, inr, refl, arith, subst,
}
use cyclebite.Base.StdSet
use cyclebite.Base.NatSet.{
  contains, contains_iff, contains-insert, length-insert_le, count-ext, count-remove, contains-same,
}
use cyclebite.Graph.{Graph, GraphEdge, GraphNode, find_node}
use cyclebite.Graph.Cycles.{Scan, scan, found, pushes, finishes, Search, cycle, visits, explore}
use cyclebite.Graph.Cycles.Arcs.{Arc, Says, scan-Says}
use cyclebite.Graph.Cycles.Reach.{Reach, IsPath-cycle}
use cyclebite.Graph.Cycles.Depth.{IsState, idle, enter, push, finish}

-- The set that the next pass of the inner loop works on.
abbrev pub entered : List ℕ → List ℕ → List ℕ
entered visited [] = visited
entered visited (n ∷ q) = StdSet.insert ltb visited n

entered-length : (visited q : List ℕ) → length visited ≤ length (entered visited q)
entered-length visited [] = omega arith
entered-length visited (n ∷ q) = length-insert_le visited n

-- What the result of the search from a queue says.
abbrev pub Found : (ℕ → GraphNode) → Graph → ℕ → Search → Type 0
Found heap g size cycle = (v : ℕ) × Reach (Arc heap g) v v
Found heap g size (visits visited) =
    (left : List ℕ) × IsState heap g visited [] left × (size ≤ length visited)

Found-le :
    (heap : ℕ → GraphNode) (g : Graph) (a b : ℕ) (r : Search)
    → a ≤ b
    → Found heap g b r
    → Found heap g a r
Found-le heap g a b cycle l f = f
Found-le heap g a b (visits visited) l f = (f.0, f.1, omega (arith, l, f.2))

Scan-cases : (r : Scan) → (r ≡ found) ⊎ ((m : ℕ) × (r ≡ pushes m)) ⊎ (r ≡ finishes)
Scan-cases found = inl refl
Scan-cases (pushes m) = inr (inl (m, refl))
Scan-cases finishes = inr (inr refl)

scan-at :
    (g : Graph) (visited q : List ℕ) (es : List GraphEdge) (r : Scan)
    → scan g visited q es ≡ r
    → Says g visited q es r
scan-at g visited q es r e = subst (Says g visited q es) (e) (scan-Says g visited q es)

module _ (heap : ℕ → GraphNode) (g : Graph) where
  explore-found :
      (f : ℕ) (visited q : List ℕ) (n : ℕ)
      → scan g (StdSet.insert ltb visited n) (n ∷ q) (heap n).successors ≡ found
      → explore heap g (suc f) visited (n ∷ q) ≡ some cycle
  unfolding explore
  explore-found f visited q n e = rw (e, explore) refl

  explore-pushes :
      (f : ℕ) (visited q : List ℕ) (n m : ℕ)
      → scan g (StdSet.insert ltb visited n) (n ∷ q) (heap n).successors ≡ pushes m
      → explore heap g (suc f) visited (n ∷ q)
        ≡ explore heap g f (StdSet.insert ltb visited n) (m ∷ n ∷ q)
  unfolding explore
  explore-pushes f visited q n m e = rw (e, explore) refl

  explore-finishes :
      (f : ℕ) (visited q : List ℕ) (n : ℕ)
      → scan g (StdSet.insert ltb visited n) (n ∷ q) (heap n).successors ≡ finishes
      → explore heap g (suc f) visited (n ∷ q) ≡ explore heap g f (StdSet.insert ltb visited n) q
  unfolding explore
  explore-finishes f visited q n e = rw (e, explore) refl

  idle-enter :
      (visited q : List ℕ) (n : ℕ)
      → idle g (StdSet.insert ltb visited n) (n ∷ q) ≡ idle g visited (n ∷ q)
  unfolding contains
  idle-enter visited q n = count-ext _ _ g.node_set λ x. ground (arith, contains-insert visited n x)

  idle-finish :
      (visited q : List ℕ) (n : ℕ)
      → contains visited n ≡ true
      → idle g visited q ≡ idle g visited (n ∷ q)
  unfolding contains
  idle-finish visited q n h =
      count-ext _ _ g.node_set λ x. ground (arith, contains-same visited n x, h)

  in_next : (visited : List ℕ) (n : ℕ) → contains (StdSet.insert ltb visited n) n ≡ true
  in_next visited n = ground (arith, contains-insert visited n n)

  lt-zero : {n : ℕ} → n < 0 → ⊥
  lt-zero l = omega arith

  module _ (s : StdSet.IsSorted ltb g.node_set) where
    idle-push :
        (visited q : List ℕ) (m : ℕ)
        → contains q m ≡ false
        → contains visited m ≡ false
        → find_node g m ≡ true
        → idle g visited q ≡ suc (idle g visited (m ∷ q))
    unfolding contains
    idle-push visited q m h k i =
        count-remove (λ x. not (contains visited x || contains q x)) _ g.node_set m
          (λ z. ground arith) s i (ground (arith, h, k))

    pub explore-Found :
        (f : ℕ) (visited q left : List ℕ)
        → IsState heap g visited q left
        → 2 * idle g visited q + length q < f
        → (r : Search) × (explore heap g f visited q ≡ some r)
          × Found heap g (length (entered visited q)) r
    explore-Found zero visited q left h l = absurd (lt-zero l)
    explore-Found (suc f) visited [] left h l =
        (visits visited, unfold explore in refl, (left, h, omega arith))
    explore-Found (suc f) visited (n ∷ q) left h l =
        let next = StdSet.insert ltb visited n in
        let st = enter heap g s visited q left n h in
        elim (Scan-cases (scan g next (n ∷ q) (heap n).successors)) [
          | inl e ↦
              let (v, a, c) = scan-at g next (n ∷ q) (heap n).successors found e in
              (
                cycle,
                explore-found f visited q n e,
                (v, IsPath-cycle (Arc heap g) q n v st.path ((contains_iff (n ∷ q) v).0 c) a),
              )
          | inr (inl (m, e)) ↦
              let (a, out, fresh, i) = scan-at g next (n ∷ q) (heap n).successors (pushes m) e in
              let (r, ends, f') =
                explore-Found f next (m ∷ n ∷ q) left (push heap g s next q left n m a i st) (
                  omega (arith, l, idle-enter visited q n, idle-push next (n ∷ q) m out fresh i)) in
              (
                r,
                rw (explore-pushes f visited q n m e) ends,
                Found-le heap g (length next) (length (StdSet.insert ltb next m)) r
                    (length-insert_le next m) f',
              )
          | inr (inr e) ↦
              let says = scan-at g next (n ∷ q) (heap n).successors finishes e in
              let (r, ends, f') =
                explore-Found f next q (n ∷ left) (finish heap g s next q left n says st) (
                  omega
                    (arith, l, idle-enter visited q n, idle-finish next q n (in_next visited n))) in
              (
                r,
                rw (explore-finishes f visited q n e) ends,
                Found-le heap g (length next) (length (entered next q)) r (entered-length next q)
                    f',
              )
        ]
