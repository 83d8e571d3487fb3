-- ===== src/Tests/HashTable.antt =====
-- The hash table, the tables of a profile, their file and the graph that is built from it, at
-- concrete inputs.
use cyclebite.Base.{
  ℕ, zero, suc, ◌%◌, ◌^◌, ◌+◌, ◌<◌, true, [], ◌∷◌, some, none, ◌>>=◌, ◌≡◌, refl, arith,
  count-le-length, length, count,
}
use cyclebite.HashTable.{
  Element, Table, empty_table, same_blocks, read, write, increment, increment_label, resolve_clash,
  more_frequent, tuple_lookup, change, store, enter, hash, hash_loop, hash_source, index, elements,
  full_size, move_all,
}
use cyclebite.HashTable.Bucket.{home}
use cyclebite.HashTable.Placement.{IsTable}
use cyclebite.HashTable.Calls.{IsWellFormed, Updates, made_or, calls-Updates, resolve_clash-reads}
use cyclebite.HashTable.File.{write_edge_file, edge_words, read_edges}
use cyclebite.HashTable.Push.{push}
use cyclebite.HashTable.Tally.{distinct}
use cyclebite.Markov.Handlers.{Markov, markov_init}
use cyclebite.Markov.Handlers.Reader.{finish}
use cyclebite.Markov.Handlers.Run.{act_all, history}
use cyclebite.Markov.Tables.{
  Tables, push_edge_inc, push_tasks, empty_tables, edge_keys, call_keys, label_keys, pair_key,
  Counts, Spread, profile-tallies,
}
use cyclebite.Graph.BuildCfg.{Cfg, builds, build_cfg, start_cfg}
use cyclebite.Graph.BuildCfg.Nodes.{weight}
use cyclebite.Graph.BuildCfg.RoundTrip.{Agrees, build_cfg-reads}
use cyclebite.Pipeline.{or_zero, profile-graph}
use cyclebite.Tests.Markov.{some_bin, actions, keeps_up-actions}

abbrev edge_of : ℕ → ℕ → ℕ → Element
edge_of a b f = record { source = a; sink = b; frequency = f; label = 0 }

abbrev an_edge : Element
an_edge = edge_of 3 5 7

-- A table of four buckets with one edge.
abbrev one_edge : Table
one_edge = store (empty_table 2) (index 2 an_edge) (an_edge ∷ [])

one_edge-IsTable : IsTable one_edge (an_edge ∷ [])
unfolding store same_blocks
one_edge-IsTable = record {
  small = omega arith;
  placed = λ i. ground arith;
  distinct = λ k. ground arith;
  fits = λ i. ground arith;
}

calls-Updates_example :
    Updates one_edge (edge_of 3 5 2) (edge_of 3 5 2) (write one_edge (edge_of 3 5 2))
    × Updates one_edge
        (edge_of 3 5 2)
        (made_or more_frequent (edge_of 3 5 1) (read one_edge (edge_of 3 5 2)))
        (increment one_edge (edge_of 3 5 2))
    × Updates one_edge
        (edge_of 3 5 2)
        (made_or more_frequent (edge_of 3 5 1) (read one_edge (edge_of 3 5 2)))
        (increment_label one_edge (edge_of 3 5 2))
calls-Updates_example = calls-Updates one_edge (edge_of 3 5 2) (an_edge ∷ [], one_edge-IsTable)

resolve_clash-reads_example :
    (t : Table) × (resolve_clash one_edge (one_edge.size + 1) ≡ some t)
    × (t.size ≡ one_edge.size + 1)
    × IsWellFormed t
    × ((q : Element) → read t q ≡ read one_edge q)
unfolding store
resolve_clash-reads_example =
    resolve_clash-reads one_edge (an_edge ∷ [], one_edge-IsTable) (omega arith)

-- A table with one bucket: the sixteenth edge makes it grow until there is room.
abbrev fill : ℕ → Table
fill zero = empty_table 0
fill (suc n) = elim (push_edge_inc (fill n) n 7) [ none ↦ empty_table 0 | some t ↦ t ]

fill-size : ((fill 15).size ≡ 0) × ((fill 16).size ≡ 1)
unfolding push_edge_inc push resolve_clash elements move_all write increment enter store change
    tuple_lookup same_blocks index hash_source hash hash_loop
fill-size = (refl, refl)

-- What ReadEdgeHashTable makes of a file with two edges: it skips two words that are not written,
-- and takes the frequency of the second edge for its blocks.
misread :
    (edge_words (edge_of 1 2 10 ∷ edge_of 3 4 20 ∷ []) ≡ 1 ∷ 2 ∷ 10 ∷ 0 ∷ 3 ∷ 4 ∷ 20 ∷ 0 ∷ [])
    × ((read_edges 2
            (edge_of 0 0 0)
            (edge_words (edge_of 1 2 10 ∷ edge_of 3 4 20 ∷ []))
            (empty_table 0)
          >>= λ t. some (elements 1 t.array))
        ≡ some (edge_of 1 2 10 ∷ edge_of 20 0 10 ∷ []))
unfolding read_edges edge_words elements push write enter store change tuple_lookup same_blocks
    index hash_source hash hash_loop
misread = (refl, refl)

Spread-actions : Spread (history 0 [] actions)
unfolding same_blocks
Spread-actions = (
  λ i. omega (arith, count-le-length (home 31 i) (distinct (edge_keys (history 0 [] actions)))),
  λ i. omega (arith, count-le-length (home 31 i) (distinct (call_keys (history 0 [] actions)))),
  λ i. omega (arith, count-le-length (home 31 i) (distinct (label_keys (history 0 [] actions)))),
)

profile-tallies_example :
    (s : Markov) × ((act_all (markov_init some_bin 5 0) actions >>= finish) ≡ some s)
    × ((ts : Tables) × (push_tasks (empty_tables 3) s.delivered ≡ some ts)
        × Counts ts.edges (edge_keys (history 0 [] actions))
        × Counts ts.calls (call_keys (history 0 [] actions))
        × Counts ts.labels (label_keys (history 0 [] actions)))
profile-tallies_example =
    profile-tallies some_bin 5 0 3 actions (omega arith) (omega arith, tt) keeps_up-actions
      (omega arith) Spread-actions

one_edge-small : length (elements (full_size one_edge) one_edge.array) < 2 ^ 32
unfolding elements store index hash_source hash hash_loop
one_edge-small = omega arith

build_cfg-reads_example :
    (c : Cfg) × (build_cfg start_cfg (some (write_edge_file one_edge 9)) true ≡ builds c)
    × ((q : Element) → Agrees c one_edge q)
build_cfg-reads_example =
    build_cfg-reads one_edge 9 true (an_edge ∷ [], one_edge-IsTable) one_edge-small

few-edges : length (distinct (edge_keys (history 0 [] actions))) < 2 ^ 32
unfolding same_blocks
few-edges = omega arith

profile-graph_example :
    (s : Markov) × ((act_all (markov_init some_bin 5 0) actions >>= finish) ≡ some s)
    × ((ts : Tables) × (push_tasks (empty_tables 3) s.delivered ≡ some ts)
        × ((c : Cfg) × (build_cfg start_cfg (some (write_edge_file ts.edges 4)) true ≡ builds c)
            × ((a b : ℕ)
                → or_zero (weight c (a % 2 ^ 32 ∷ []) (b % 2 ^ 32 ∷ []))
                  ≡ count (same_blocks (pair_key a b)) (edge_keys (history 0 [] actions))
                    % 2 ^ 64)))
profile-graph_example =
    profile-graph some_bin 5 0 3 4 true actions (omega arith) (omega arith, tt) keeps_up-actions
      (omega arith) Spread-actions few-edges
