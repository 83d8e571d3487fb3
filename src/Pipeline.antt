-- ===== src/Pipeline.antt =====
-- From the calls of the program under test to the graph that the tool builds: the backend
-- (Profile/Backend/Markov), its hash table and its file (Profile/Backend/HashTable), and BuildCFG
-- (Graph/IO.cpp).
use cyclebite.Base.{
  ℕ, ◌%◌, ◌^◌, ◌≤◌, ◌<◌, Bool, true, List, [], ◌∷◌, Option, none, some, ◌>>=◌, count, length, ◌≡◌,
  refl, ap, ◌∙◌, arith,
}
use cyclebite.HashTable.{Element, same_blocks, read}
use cyclebite.HashTable.File.{write_edge_file}
use cyclebite.HashTable.Tally.{frequency, distinct}
use cyclebite.Markov.Task.{long_max}
use cyclebite.Markov.Handlers.{TaskBin, Markov, markov_init}
use cyclebite.Markov.Handlers.Reader.{finish}
use cyclebite.Markov.Handlers.Run.{Action, act_all, history, IsNested, keeps_up}
use cyclebite.Markov.Tables.{
  Tables, pair_key, push_tasks, empty_tables, edge_keys, Spread, profile-tallies,
}
use cyclebite.Graph.BuildCfg.{Cfg, builds, build_cfg, start_cfg}
use cyclebite.Graph.BuildCfg.Nodes.{weight}
use cyclebite.Graph.BuildCfg.RoundTrip.{frequency_of, build_cfg-reads}

abbrev pub or_zero : Option ℕ → ℕ
or_zero none = 0
or_zero (some f) = f

or_zero-frequency_of : (o : Option Element) → or_zero (frequency_of o) ≡ frequency o
or_zero-frequency_of none = refl
or_zero-frequency_of (some e) = refl

-- The backend, its tables, the file and BuildCFG together: under the conditions of profile-
-- tallies, so in the schedules in which each round of the reader is one step between two calls of
-- the program and no pop runs into a push, and with less than 2 ^ 32 different edges in the
-- history, the file of the edge table is read without an error, and the edge of the graph between
-- the nodes of any two blocks has as its frequency the number of times that the program went from
-- the one to the other, modulo 2 ^ 64, where an edge that is missing counts as 0, and blocks are
-- taken modulo 2 ^ 32.
pub profile-graph :
    (bin : TaskBin) (id block n block_count : ℕ) (hot : Bool) (xs : List Action)
    → id < long_max
    → IsNested [] xs
    → keeps_up (markov_init bin id block) xs ≡ true
    → n ≤ 31
    → Spread (history block [] xs)
    → length (distinct (edge_keys (history block [] xs))) < 2 ^ 32
    → (s : Markov) × ((act_all (markov_init bin id block) xs >>= finish) ≡ some s)
      × ((ts : Tables) × (push_tasks (empty_tables n) s.delivered ≡ some ts)
          × ((c : Cfg) × (build_cfg start_cfg (some (write_edge_file ts.edges block_count)) hot
                ≡ builds c)
              × ((a b : ℕ)
                  → or_zero (weight c (a % 2 ^ 32 ∷ []) (b % 2 ^ 32 ∷ []))
                    ≡ count (same_blocks (pair_key a b)) (edge_keys (history block [] xs))
                      % 2 ^ 64)))
profile-graph bin id block n block_count hot xs l nested k small spread few =
    let (s, e, (ts, p, (good, size, counts), calls, labels)) =
      profile-tallies bin id block n xs l nested k small spread in
    let (c, r, reads) = build_cfg-reads ts.edges block_count hot good (omega (arith, size, few)) in
    (
      s,
      e,
      (
        ts,
        p,
        (
          c,
          r,
          λ a b.
              ap or_zero (reads (pair_key a b)).0
              ∙ or_zero-frequency_of (read ts.edges (pair_key a b))
              ∙ counts (pair_key a b),
        ),
      ),
    )
