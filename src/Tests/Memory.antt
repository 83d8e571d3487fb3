-- ===== src/Tests/Memory.antt =====
-- Memory tuples and their sets at concrete inputs.
use cyclebite.Base.{ℕ, ◌≡◌, ◌↔◌, ◌⊎◌, refl, false, [], ◌∷◌, some, arith, Any}
use cyclebite.Memory.Tuple.{
  MemType, MemTuple, na, read_then_write, mt_compare, merge_tuples, mem_tuple_overlap,
  mem_tuple_exclusion, end_address, Owns,
}
use cyclebite.Memory.Tuple.Order.{Share, equivalent_iff_Share}
use cyclebite.Memory.Tuple.Ranges.{merge_tuples-Owns, mem_tuple_overlap-Owns}
use cyclebite.Memory.Tuple.Exclusion.{Keeps, mem_tuple_exclusion-Keeps, mem_tuple_exclusion_loses}
use cyclebite.Memory.Tuple.{Fits}
use cyclebite.Memory.TupleSet.{
  TupleSet, merge_tuple_set, merge_loop, remove_tuple_set, absorb, observe,
}
use cyclebite.Base.StdSet
use cyclebite.Memory.TupleSet.Merge.{
  IsTupleSet, IsMerged, merge_tuple_set_returns, merge_tuple_set-IsMerged,
}
use cyclebite.Memory.TupleSet.Remove.{IsOrdered, IsRemoved, remove_tuple_set-IsRemoved}

-- Bytes 100 to 163, and 200 to 263.
abbrev pub early : MemTuple
early = record { type = MemType.reader; access = na; base = 100; offset = 63; ref_count = 0 }

abbrev pub late : MemTuple
late = record { type = MemType.reader; access = na; base = 200; offset = 63; ref_count = 0 }

-- Bytes 150 to 249: it joins the two.
abbrev pub bridge : MemTuple
bridge = record { type = MemType.writer; access = na; base = 150; offset = 99; ref_count = 0 }

-- Bytes 120 to 129, within the first one.
abbrev pub hole : MemTuple
hole = record { type = MemType.malloc; access = na; base = 120; offset = 9; ref_count = 0 }

abbrev pub two_ranges : TupleSet
two_ranges = early ∷ late ∷ []

pub two_ranges-IsTupleSet : IsTupleSet 64 two_ranges
unfolding mt_compare end_address
two_ranges-IsTupleSet = record { sorted = ((refl, tt), (tt, tt)); window = omega arith }

pub two_ranges-IsOrdered : IsOrdered two_ranges
unfolding mt_compare end_address
two_ranges-IsOrdered = record { sorted = ((refl, tt), (tt, tt)); fits = omega arith }

-- The bridge connects both ranges at once.
merge_connects :
    merge_tuple_set two_ranges bridge
    ≡ some (
        record {
          type = MemType.reader;
          access = read_then_write;
          base = 100;
          offset = 163;
          ref_count = 2;
        }
        ∷ [])
unfolding merge_tuple_set merge_loop absorb observe merge_tuples mt_compare end_address StdSet.find
    StdSet.insert StdSet.erase
merge_connects = refl

-- A hole in a range takes its right part away too.
removal_of_a_hole : mem_tuple_exclusion early hole ≡ record early { offset = 19 } ∷ []
unfolding mem_tuple_exclusion mem_tuple_overlap end_address
removal_of_a_hole = refl

merge_tuple_set-IsMerged_example :
    (r : TupleSet) × (merge_tuple_set two_ranges bridge ≡ some r) × IsMerged 64 two_ranges bridge r
merge_tuple_set-IsMerged_example =
    merge_tuple_set-IsMerged 64 two_ranges bridge two_ranges-IsTupleSet (omega arith)

merge_tuple_set_returns_example : (r : TupleSet) × (merge_tuple_set two_ranges bridge ≡ some r)
merge_tuple_set_returns_example = merge_tuple_set_returns two_ranges bridge

remove_tuple_set-IsRemoved_example :
    (r : TupleSet) × (remove_tuple_set two_ranges bridge ≡ some r) × IsRemoved two_ranges bridge r
remove_tuple_set-IsRemoved_example =
    remove_tuple_set-IsRemoved bridge (omega arith) two_ranges two_ranges-IsOrdered

mem_tuple_exclusion-Keeps_example :
    Any (λ t. Owns t 110) (mem_tuple_exclusion early hole) ↔ Keeps hole early 110
mem_tuple_exclusion-Keeps_example =
    mem_tuple_exclusion-Keeps early hole (omega arith) (omega arith) 110

mem_tuple_exclusion_loses_example :
    Owns early 140 × (¬ Owns hole 140) × (¬ Any (λ t. Owns t 140) (mem_tuple_exclusion early hole))
mem_tuple_exclusion_loses_example =
    mem_tuple_exclusion_loses early hole (omega arith) (omega arith) (omega arith) 140 (omega arith)
      (omega arith)

mem_tuple_overlap-Owns_example :
    Owns (mem_tuple_overlap early bridge) 155 ↔ (Owns early 155 × Owns bridge 155)
mem_tuple_overlap-Owns_example =
    mem_tuple_overlap-Owns early bridge (omega arith) (omega arith) 155 (omega arith)

merge_tuples-Owns_example :
    Fits (merge_tuples early bridge)
    × ((a : ℕ) → Owns (merge_tuples early bridge) a ↔ (Owns early a ⊎ Owns bridge a))
merge_tuples-Owns_example =
    merge_tuples-Owns early bridge (omega arith) (omega arith) (omega arith) (omega arith)
      (omega arith)

equivalent_iff_Share_example :
    ((mt_compare early bridge ≡ false) × (mt_compare bridge early ≡ false)) ↔ Share early bridge
equivalent_iff_Share_example = equivalent_iff_Share early bridge (omega arith) (omega arith)
