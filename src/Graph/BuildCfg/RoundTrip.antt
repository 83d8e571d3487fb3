-- ===== src/Graph/BuildCfg/RoundTrip.antt =====
-- The file that the backend writes (WriteEdgeHashTable, Profile/Backend/HashTable), read by BuildCFG
-- (Graph/IO.cpp).
use cyclebite.Base.{
  ℕ, ◌+◌, ◌*◌, ◌/◌, ◌≤◌, ◌<◌, ◌%◌, ◌^◌, Bool, true, ◌&&◌, List, [], ◌∷◌, ◌++◌, Option, none, some,
  if◌then◌else◌, length, count, ◌≡◌, refl, sym, ap, ◌∙◌, subst, arith, count-append,
}
use mathlib.Core.List.{append_assoc, append-nil}
use cyclebite.HashTable.{Element, Table, full_size, elements, same_blocks, tuple_lookup, read}
use cyclebite.HashTable.Bucket.{
  tuple_lookup-append, tuple_lookup-absent, tuple_lookup-same, same_blocks_refl,
}
use cyclebite.HashTable.Placement.{read-IsTable}
use cyclebite.HashTable.Resolve.{count-elements_full, tuple_lookup-elements_full}
use cyclebite.HashTable.Calls.{IsWellFormed}
use cyclebite.HashTable.File.{edge_words, write_edge_file}
use cyclebite.Graph.{has_edge}
use cyclebite.Graph.BuildCfg.{
  Cfg, builds, enter_edge, enter_edges, build_cfg, start_cfg, same_list, find_nid,
}
use cyclebite.Graph.BuildCfg.Nodes.{IsCfg, weight, none_some}
use cyclebite.Graph.BuildCfg.Listed.{IsListed, is_made, not_both}
use cyclebite.Graph.BuildCfg.Between.{listed, mirrored_in, listed-weight}
use cyclebite.Graph.BuildCfg.Enter.{enter_edge-Entered}

abbrev pub frequency_of : Option Element → Option ℕ
frequency_of none = none
frequency_of (some e) = some e.frequency

-- The graph has the edges of the list, with their frequencies.
record Holds (c : Cfg) (ds : List Element) : Type 0 where
  good : IsCfg c
  lists : IsListed c
  holds : (q : Element) → weight c (q.source ∷ []) (q.sink ∷ []) ≡ frequency_of (tuple_lookup ds q)

abbrev Read : ℕ → ℕ → ℕ → List Element → List Element → Cfg → Type 0
Read source sink freq ds es c =
    (c' : Cfg) × (enter_edges (length es) (source ∷ []) sink freq (edge_words es) c ≡ builds c')
    × Holds c' (ds ++ es)

not_below : (n : ℕ) → n < 0 → ⊥
not_below n l = omega arith

two_words : (f : ℕ) → f % 2 ^ 32 + f / 2 ^ 32 * 2 ^ 32 ≡ f
two_words f = omega arith

enter_edges_step :
    (source sink freq : ℕ) (e : Element) (es : List Element) (c c₁ : Cfg)
    → enter_edge c (e.source ∷ []) e.sink e.frequency ≡ builds c₁
    → enter_edges (length (e ∷ es)) (source ∷ []) sink freq (edge_words (e ∷ es)) c
      ≡ enter_edges (length es) (e.source ∷ []) e.sink e.frequency (edge_words es) c₁
unfolding enter_edges edge_words
enter_edges_step source sink freq e es c c₁ h = rw (two_words e.frequency) (rw h refl)

alike :
    (o : Option Element) (e q : Element)
    → (same_blocks e q ≡ true → o ≡ none)
    → (if same_list (e.source ∷ []) (q.source ∷ []) && same_list (e.sink ∷ []) (q.sink ∷ [])
        then some e.frequency
        else frequency_of o)
      ≡ frequency_of (elim o [ none ↦ tuple_lookup (e ∷ []) q | some x ↦ some x ])
unfolding tuple_lookup same_blocks
alike none e q h = ground arith
alike (some x) e q h = ground (arith, h)

one_more :
    (c : Cfg) (ds : List Element) (e q : Element)
    → Holds c ds
    → tuple_lookup ds e ≡ none
    → (if same_list (e.source ∷ []) (q.source ∷ []) && same_list (e.sink ∷ []) (q.sink ∷ [])
        then some e.frequency
        else weight c (q.source ∷ []) (q.sink ∷ []))
      ≡ frequency_of (tuple_lookup (ds ++ e ∷ []) q)
unfolding tuple_lookup
one_more c ds e q h absent =
    ap
      (λ w.
        if same_list (e.source ∷ []) (q.source ∷ []) && same_list (e.sink ∷ []) (q.sink ∷ [])
        then some e.frequency
        else w)
      (h.holds q)
    ∙ alike (tuple_lookup ds q) e q (λ s. tuple_lookup-same ds e q s ∙ absent)
    ∙ ap frequency_of (sym (tuple_lookup-append ds (e ∷ []) q))

enter_edges-Holds :
    (es ds : List Element) (source sink freq : ℕ) (c : Cfg)
    → Holds c ds
    → ((k : Element) → count (same_blocks k) (ds ++ es) ≤ 1)
    → Read source sink freq ds es c
unfolding enter_edges
enter_edges-Holds [] ds source sink freq c h distinct =
    (c, refl, subst (Holds c) (sym (append-nil ds)) h)
enter_edges-Holds (e ∷ es) ds source sink freq c h distinct =
    let absent : tuple_lookup ds e ≡ none =
      tuple_lookup-absent ds e (
        ground (arith, distinct e, count-append (same_blocks e) ds (e ∷ es), same_blocks_refl e)) in
    let (c₁, built, good, lists, weights) =
      enter_edge-Entered c e.source e.sink e.frequency h.good h.lists
        (h.holds e ∙ ap frequency_of absent) in
    let bracket = append_assoc ds (e ∷ []) es in
    let (c', r, h') =
      enter_edges-Holds es (ds ++ e ∷ []) e.source e.sink e.frequency c₁
        (record {
          good = good;
          lists = lists;
          holds = λ q. weights (q.source ∷ []) (q.sink ∷ []) ∙ one_more c ds e q h absent;
        })
        (λ k. subst (λ l. count (same_blocks k) l ≤ 1) (sym bracket) (distinct k)) in
    (c', enter_edges_step source sink freq e es c c₁ built ∙ r, subst (Holds c') (bracket) h')

start-Holds : Holds start_cfg []
unfolding find_nid tuple_lookup has_edge
start-Holds = record {
  good = record {
    old_node = λ ids n e. absurd (none_some e);
    apart = λ ids jds n e z. absurd (none_some e);
    sources = λ n l. tt;
    old_edge = λ n k e l p. absurd (not_below n l);
  };
  lists = record {
    in_graph = λ n k l m. absurd (not_below n l);
    mirrored = λ n k l m. absurd (not_below n l);
    old_ends = λ n k t. absurd (not_both (sym t));
    old_source = λ n k l t. absurd (not_below k l);
  };
  holds = λ q. refl;
}

build_cfg_edges :
    (hot : Bool) (block_count : ℕ) (es : List Element) (c : Cfg)
    → length es < 2 ^ 32
    → build_cfg c (some (1 ∷ block_count ∷ length es % 2 ^ 32 ∷ edge_words es)) hot
      ≡ enter_edges (length es) (0 ∷ []) 0 0 (edge_words es) c
unfolding build_cfg
build_cfg_edges hot block_count es c l =
    let n : length es % 2 ^ 32 ≡ length es = omega (arith, l) in
    ground (arith, ap (λ k. enter_edges k (0 ∷ []) 0 0 (edge_words es) c) n)

is_made-frequency_of : (o : Option Element) → is_made (frequency_of o) ≡ is_made o
is_made-frequency_of none = refl
is_made-frequency_of (some e) = refl

-- The graph says of the blocks of the element what the table reads of it, by the successors of its
-- nodes, by its set of edges and by their predecessors.
abbrev pub Agrees : Cfg → Table → Element → Type 0
Agrees c t q =
    (weight c (q.source ∷ []) (q.sink ∷ []) ≡ frequency_of (read t q))
    × (listed c (q.source ∷ []) (q.sink ∷ []) ≡ is_made (read t q))
    × (mirrored_in c (q.source ∷ []) (q.sink ∷ []) ≡ is_made (read t q))

agrees :
    (c : Cfg) (ds : List Element) (t : Table) (q : Element)
    → Holds c ds
    → tuple_lookup ds q ≡ read t q
    → Agrees c t q
agrees c ds t q h same =
    let w = h.holds q ∙ ap frequency_of same in
    let said = ap is_made w ∙ is_made-frequency_of (read t q) in
    let (a, b) = listed-weight c (q.source ∷ []) (q.sink ∷ []) h.good h.lists in
    (w, a ∙ said, b ∙ said)

-- The graph agrees with the table: the file of a well-formed table, of at most 2 ^ 31 buckets and
-- with less than 2 ^ 32 elements,
-- is read by BuildCFG at the start of the process without an exception and for any kind of
-- detection; the graph then has an edge between the nodes of two blocks exactly if the table has an
-- element of these blocks, in its set of edges as in the successors of the one node and in the
-- predecessors of the other, and its frequency is that of the element.
pub build_cfg-reads :
    (t : Table) (block_count : ℕ) (hot : Bool)
    → IsWellFormed t
    → length (elements (full_size t) t.array) < 2 ^ 32
    → (c : Cfg) × (build_cfg start_cfg (some (write_edge_file t block_count)) hot ≡ builds c)
      × ((q : Element) → Agrees c t q)
unfolding write_edge_file
build_cfg-reads t block_count hot (es, h) l =
    let all = elements (full_size t) t.array in
    let (c, r, holds) =
      enter_edges-Holds all [] 0 0 0 start_cfg start-Holds (λ k.
        subst (λ n. n ≤ 1) (sym (count-elements_full t es h (same_blocks k))) (h.distinct k)) in
    (
      c,
      build_cfg_edges hot (block_count % 2 ^ 32) all start_cfg l ∙ r,
      λ q.
          agrees c all t q holds
            (tuple_lookup-elements_full t es h q ∙ sym (read-IsTable t es q h)),
    )
