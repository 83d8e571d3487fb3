-- ===== src/Memory/Communication/Explain.antt =====
-- removeExplainedProducers: what is left of the consumer was written by no producer.
use Prim.Native.Nat.{max, min}
use cyclebite.Base.{
  ℕ, ◌+◌, ◌<◌, ◌≡◌, ◌↔◌, ◌⊎◌, inl, inr, refl, true, false, List, [], ◌∷◌, some, arith, All, Any,
  Any-map, Bool-cases, if◌then◌else◌, ltb,
}
use cyclebite.Memory.Tuple.{MemTuple, mem_tuple_overlap, end_address, Owns, Fits, Before}
use cyclebite.Memory.Tuple.Ranges.{Before-cases, overlap-range, overlap-none}
use cyclebite.Memory.Tuple.Order.{end_address-eq}
use cyclebite.Memory.TupleSet.{TupleSet, Covers}
use cyclebite.Memory.TupleSet.Remove.{IsOrdered, remove_tuple_set-IsRemoved, IsRemoved-Covers}
use cyclebite.Memory.Communication.{
  Explained, internal, explain_overlap, explain_pair, explain_consumers, explain_producers,
  remove_explained_producers,
}

-- Two tuples that are not both internal share more than 33 consecutive bytes.
abbrev pub Flags : MemTuple → MemTuple → Type 0
Flags p c =
    (internal p c ≡ false) × (max p.base c.base + 32 < min (p.base + p.offset) (c.base + c.offset))

-- From `s` to `s'` nothing is added, the bytes of `Gone` are lost, and the flag goes up by `Flag`.
record Shrinks (Gone : ℕ → Type 0) (Flag : Type 0) (s s' : Explained) : Type 0 where
  is_set : IsOrdered s'.unexplained
  shrinks : (a : ℕ) → Covers s'.unexplained a → Covers s.unexplained a × (¬ Gone a)
  flagged : (s'.changes ≡ true) ↔ ((s.changes ≡ true) ⊎ Flag)

module _ (p c : MemTuple) (f : Fits p) (g : Fits c) (s : Explained)
    (v : IsOrdered s.unexplained) where
  explain_internal :
      internal p c ≡ true
      → (s' : Explained) × (explain_pair p c s ≡ some s')
        × Shrinks (λ a. Owns p a × Owns c a) (Flags p c) s s'
  unfolding explain_pair
  explain_internal i =
      let (r, ends, removed) = remove_tuple_set-IsRemoved c g s.unexplained v in
      (
        record s { unexplained = r },
        rw (i, ends) refl,
        record {
          is_set = removed.is_set;
          shrinks = λ a h. let k = IsRemoved-Covers a removed h in (k.0, λ owns. k.1 owns.1);
          flagged = (inl, λ h. ground (arith, i));
        },
      )

  explain_apart :
      internal p c ≡ false
      → Before p c ⊎ Before c p
      → (s' : Explained) × (explain_pair p c s ≡ some s')
        × Shrinks (λ a. Owns p a × Owns c a) (Flags p c) s s'
  unfolding explain_pair explain_overlap end_address
  explain_apart i d =
      let none_shared = overlap-none p c f g d in
      (
        s,
        ground (arith, none_shared, i),
        record {
          is_set = v;
          shrinks = λ a h. (h, λ owns. omega arith);
          flagged = (inl, λ h. ground (arith, d));
        },
      )

  explain_meet :
      internal p c ≡ false
      → ¬ Before p c
      → ¬ Before c p
      → (s' : Explained) × (explain_pair p c s ≡ some s')
        × Shrinks (λ a. Owns p a × Owns c a) (Flags p c) s s'
  unfolding explain_pair explain_overlap
  explain_meet i h k =
      let o = mem_tuple_overlap p c in
      let range = overlap-range p c f g h k in
      let fits : Fits o = omega (arith, range) in
      let (r, ends, removed) = remove_tuple_set-IsRemoved o fits s.unexplained v in
      (
        record { unexplained = r; changes = if ltb 32 o.offset then true else s.changes },
        ground (arith, i, range, ends, end_address-eq o fits),
        record {
          is_set = removed.is_set;
          shrinks = λ a m.
              let kept = IsRemoved-Covers a removed m in
              (kept.0, λ owns. kept.1 (omega (arith, range)));
          flagged = ground (arith, range, i);
        },
      )

  explain_pair-Shrinks :
      (s' : Explained) × (explain_pair p c s ≡ some s')
      × Shrinks (λ a. Owns p a × Owns c a) (Flags p c) s s'
  explain_pair-Shrinks = elim (Bool-cases (internal p c)) [
    | inl i ↦ explain_internal i
    | inr i ↦ elim (Before-cases p c) [ inl d ↦ explain_apart i d | inr d ↦ explain_meet i d.0 d.1 ]
  ]

Shrinks-trans :
    {G G' : ℕ → Type 0} {F F' : Type 0} {s t u : Explained}
    → Shrinks G F s t
    → Shrinks G' F' t u
    → Shrinks (λ a. G a ⊎ G' a) (F ⊎ F') s u
Shrinks-trans h k = record {
  is_set = k.is_set;
  shrinks = λ a m.
      let (before, not_later) = k.shrinks a m in
      let (first, not_now) = h.shrinks a before in
      (first, λ gone. elim gone [ inl x ↦ not_now x | inr y ↦ not_later y ]);
  flagged = ground (arith, h.flagged, k.flagged);
}

Shrinks-refl : {s : Explained} → IsOrdered s.unexplained → Shrinks (λ _. ⊥) ⊥ s s
Shrinks-refl v = record {
  is_set = v;
  shrinks = λ a m. (m, λ h. h);
  flagged = (inl, λ h. elim h [ inl x ↦ x | inr y ↦ absurd y ]);
}

explain_consumers-Shrinks :
    (p : MemTuple) (cs : List MemTuple) (s : Explained)
    → Fits p
    → All Fits cs
    → IsOrdered s.unexplained
    → (s' : Explained) × (explain_consumers p cs s ≡ some s')
      × Shrinks (λ a. Any (λ c. Owns p a × Owns c a) cs) (Any (Flags p) cs) s s'
unfolding explain_consumers
explain_consumers-Shrinks p [] s f g v = (s, refl, Shrinks-refl v)
explain_consumers-Shrinks p (c ∷ cs) s f g v =
    let (t, first, h) = explain_pair-Shrinks p c f g.0 s v in
    let (u, rest, k) = explain_consumers-Shrinks p cs t f g.1 h.is_set in
    (u, rw first rest, Shrinks-trans h k)

explain_producers-Shrinks :
    (ps cs : List MemTuple) (s : Explained)
    → All Fits ps
    → All Fits cs
    → IsOrdered s.unexplained
    → (s' : Explained) × (explain_producers ps cs s ≡ some s')
      × Shrinks
          (λ a. Any (λ p. Any (λ c. Owns p a × Owns c a) cs) ps)
          (Any (λ p. Any (Flags p) cs) ps)
          s
          s'
unfolding explain_producers
explain_producers-Shrinks [] cs s f g v = (s, refl, Shrinks-refl v)
explain_producers-Shrinks (p ∷ ps) cs s f g v =
    let (t, first, h) = explain_consumers-Shrinks p cs s f.0 g v in
    let (u, rest, k) = explain_producers-Shrinks ps cs t f.1 g h.is_set in
    (u, rw first rest, Shrinks-trans h k)

Any-both :
    (a : ℕ) (ps cs : List MemTuple)
    → Covers ps a
    → Covers cs a
    → Any (λ p. Any (λ c. Owns p a × Owns c a) cs) ps
Any-both a [] cs m k = absurd m
Any-both a (p ∷ ps) cs (inl o) k = inl (Any-map _ _ (λ c h. (o, h)) cs k)
Any-both a (p ∷ ps) cs (inr m) k = inr (Any-both a ps cs m k)

-- What removeExplainedProducers returns.
pub record IsExplained (producer consumer : TupleSet) (e : Explained) : Type 0 where
  pub is_set : IsOrdered e.unexplained
  pub unwritten : (a : ℕ) → Covers e.unexplained a → Covers consumer a × (¬ Covers producer a)
  pub changed : (e.changes ≡ true) ↔ Any (λ p. Any (Flags p) consumer) producer

-- On sets of tuples of the machine removeExplainedProducers returns. Its set is a set of the
-- machine whose bytes were in the consumer and were written by no tuple of the producer. Its flag
-- is up exactly when a tuple of the producer and one of the consumer, not both write-then-read,
-- share more than 33 bytes. So it is not up exactly when the set differs from the consumer, as the
-- comment in the source says: bytes of an overlap of up to 33 bytes, or of two write-then-read
-- tuples, are removed with the flag down.
pub remove_explained_producers-IsExplained :
    (producer consumer : TupleSet)
    → All Fits producer
    → IsOrdered consumer
    → (e : Explained) × (remove_explained_producers producer consumer ≡ some e)
      × IsExplained producer consumer e
unfolding remove_explained_producers
remove_explained_producers-IsExplained producer consumer f v =
    let (e, ends, h) =
      explain_producers-Shrinks producer consumer
        (record { unexplained = consumer; changes = false }) f v.fits v in
    (
      e,
      ends,
      record {
        is_set = h.is_set;
        unwritten = λ a m.
            let (before, kept) = h.shrinks a m in
            (before, λ written. kept (Any-both a producer consumer written before));
        changed = ground (arith, h.flagged);
      },
    )
