-- ===== src/Markov/Tables.antt =====
-- The events that the reader of the queue delivers go to the hash tables: Task::pushTasks and its
-- helpers (Profile/Backend/ThreadSafe/Task.cpp). The tables are those that MarkovInit makes.
use cyclebite.Base.{
  ℕ, ◌-◌, ◌%◌, ◌^◌, ◌≤◌, ◌<◌, true, List, [], ◌∷◌, Option, none, some, ◌>>=◌, count, length, ◌≡◌,
  refl, sym, ap, ◌∙◌, arith,
}
use cyclebite.HashTable.{
  Element, Table, full_size, elements, empty_table, same_blocks, increment, increment_label, read,
}
use cyclebite.HashTable.Bucket.{same_blocks_refl}
use cyclebite.HashTable.Placement.{read-IsTable}
use cyclebite.HashTable.Resolve.{Fits, count-elements_full}
use cyclebite.HashTable.Calls.{IsWellFormed}
use cyclebite.HashTable.Push.{push}
use cyclebite.HashTable.Tally.{any, frequency, distinct, push_each, push_each-first}
use cyclebite.HashTable.Tally.Sequence.{push_each-counts}
use cyclebite.Markov.Task.{long_max}
use cyclebite.Markov.Handlers.{Event, edge_inc, call_inc, label_event, TaskBin, Markov, markov_init}
use cyclebite.Markov.Handlers.Reader.{finish}
use cyclebite.Markov.Handlers.Run.{Action, act_all, history, IsNested, keeps_up, profile-delivers}

pub record Tables : Type 0 where
  pub edges : Table
  pub calls : Table
  pub labels : Table

-- The blocks of an edge or of a call, cast to 32 bits.
abbrev pub pair_key : ℕ → ℕ → Element
pair_key src snk = record { source = src % 2 ^ 32; sink = snk % 2 ^ 32; frequency = 0; label = 0 }

abbrev pub label_key : ℕ → ℕ → Element
label_key snk l = record { source = snk % 2 ^ 32; sink = 0; frequency = 1; label = l }

unfoldable pub push_edge_inc : Table → ℕ → ℕ → Option Table
unfolding push increment
push_edge_inc t src snk = push (32 - t.size) (λ t. increment t (pair_key src snk)) t

unfoldable pub push_call_inc : Table → ℕ → ℕ → Option Table
unfolding push increment
push_call_inc t src snk = push (32 - t.size) (λ t. increment t (pair_key src snk)) t

unfoldable pub push_label_event : Table → ℕ → ℕ → Option Table
unfolding push increment_label
push_label_event t snk l = push (32 - t.size) (λ t. increment_label t (label_key snk l)) t

unfoldable pub push_event : Tables → Event → Option Tables
push_event ts (edge_inc src snk) =
    push_edge_inc ts.edges src snk >>= λ t. some (record ts { edges = t })
push_event ts (call_inc src snk position) =
    push_call_inc ts.calls src snk >>= λ t. some (record ts { calls = t })
push_event ts (label_event snk l) =
    push_label_event ts.labels snk l >>= λ t. some (record ts { labels = t })

-- The loop of pushTasks, over the events of the tasks that the reader takes, one after the other.
unfoldable pub push_tasks : Tables → List Event → Option Tables
unfolding push_event
push_tasks ts [] = some ts
push_tasks ts (e ∷ es) = push_event ts e >>= λ ts'. push_tasks ts' es

abbrev pub empty_tables : ℕ → Tables
empty_tables n = record { edges = empty_table n; calls = empty_table n; labels = empty_table n }

-- The keys that each table gets.
abbrev pub edge_keys : List Event → List Element
edge_keys [] = []
edge_keys (edge_inc src snk ∷ es) = pair_key src snk ∷ edge_keys es
edge_keys (call_inc src snk position ∷ es) = edge_keys es
edge_keys (label_event snk l ∷ es) = edge_keys es

abbrev pub call_keys : List Event → List Element
call_keys [] = []
call_keys (edge_inc src snk ∷ es) = call_keys es
call_keys (call_inc src snk position ∷ es) = pair_key src snk ∷ call_keys es
call_keys (label_event snk l ∷ es) = call_keys es

abbrev pub label_keys : List Event → List Element
label_keys [] = []
label_keys (edge_inc src snk ∷ es) = label_keys es
label_keys (call_inc src snk position ∷ es) = label_keys es
label_keys (label_event snk l ∷ es) = label_key snk l ∷ label_keys es

abbrev fresh_pair : Element → Element
fresh_pair k = record { source = k.source; sink = k.sink; frequency = 1; label = 0 }

abbrev fresh_label : Element → Element
fresh_label k = record { source = k.source; sink = k.sink; frequency = 1; label = k.label }

fresh_pair_same : (k : Element) → same_blocks k (fresh_pair k) ≡ true
unfolding same_blocks
fresh_pair_same k = same_blocks_refl k

fresh_label_same : (k : Element) → same_blocks k (fresh_label k) ≡ true
unfolding same_blocks
fresh_label_same k = same_blocks_refl k

some_back : {A : Type 0} {a b : A} → some a ≡ some b → a ≡ b
some_back {a} h = ap (λ o. elim o [ none ↦ a | some x ↦ x ]) h

push_tasks-each :
    (es : List Event) (ts ts' : Tables)
    → push_each fresh_pair ts.edges (edge_keys es) ≡ some ts'.edges
    → push_each fresh_pair ts.calls (call_keys es) ≡ some ts'.calls
    → push_each fresh_label ts.labels (label_keys es) ≡ some ts'.labels
    → push_tasks ts es ≡ some ts'
unfolding push_tasks push_event push_edge_inc push_call_inc push_label_event push_each increment
    increment_label
push_tasks-each [] ts ts' e c l =
    λ i. some (record { edges = some_back e i; calls = some_back c i; labels = some_back l i })
push_tasks-each (edge_inc src snk ∷ es) ts ts' e c l =
    let (t, p, r) =
      push_each-first fresh_pair ts.edges ts'.edges (pair_key src snk) (edge_keys es) e in
    rw p (push_tasks-each es (record ts { edges = t }) ts' r c l)
push_tasks-each (call_inc src snk position ∷ es) ts ts' e c l =
    let (t, p, r) =
      push_each-first fresh_pair ts.calls ts'.calls (pair_key src snk) (call_keys es) c in
    rw p (push_tasks-each es (record ts { calls = t }) ts' e r l)
push_tasks-each (label_event snk lab ∷ es) ts ts' e c l =
    let (t, p, r) =
      push_each-first fresh_label ts.labels ts'.labels (label_key snk lab) (label_keys es) l in
    rw p (push_tasks-each es (record ts { labels = t }) ts' e c r)

-- For each table, at most 15 of the different pairs of blocks have the same lower 31 bits of their
-- hash.
abbrev pub Spread : List Event → Type 0
Spread es =
    Fits 31 (distinct (edge_keys es))
    × Fits 31 (distinct (call_keys es))
    × Fits 31 (distinct (label_keys es))

abbrev pub Counts : Table → List Element → Type 0
Counts t ks =
    IsWellFormed t
    × (length (elements (full_size t) t.array) ≡ length (distinct ks))
    × ((q : Element) → frequency (read t q) ≡ count (same_blocks q) ks % 2 ^ 64)

count-any : (es : List Element) → count any es ≡ length es
count-any [] = refl
count-any (e ∷ es) = ground (arith, count-any es)

push_each-Counts :
    (fresh : Element → Element) (n : ℕ) (ks : List Element)
    → ((k : Element) → same_blocks k (fresh k) ≡ true)
    → ((k : Element) → (fresh k).frequency ≡ 1)
    → n ≤ 31
    → Fits 31 (distinct ks)
    → (t : Table) × (push_each fresh (empty_table n) ks ≡ some t) × Counts t ks
push_each-Counts fresh n ks same one l fits =
    let (t, e, (ds, h, total, c)) = push_each-counts fresh same one n ks l fits in
    let size =
      sym (count-any (elements (full_size t) t.array))
      ∙ count-elements_full t ds h any
      ∙ total
      ∙ count-any (distinct ks) in
    (t, e, ((ds, h), size, λ q. ap frequency (read-IsTable t ds q h) ∙ c q))

abbrev Tallied : ℕ → List Event → Type 0
Tallied n es =
    (ts : Tables) × (push_tasks (empty_tables n) es ≡ some ts)
    × Counts ts.edges (edge_keys es)
    × Counts ts.calls (call_keys es)
    × Counts ts.labels (label_keys es)

push_tasks-counts : (n : ℕ) (es : List Event) → n ≤ 31 → Spread es → Tallied n es
push_tasks-counts n es l (fe, fc, fl) =
    let (edges, e, ce) =
      push_each-Counts fresh_pair n (edge_keys es) fresh_pair_same (λ k. refl) l fe in
    let (calls, c, cc) =
      push_each-Counts fresh_pair n (call_keys es) fresh_pair_same (λ k. refl) l fc in
    let (labels, b, cb) =
      push_each-Counts fresh_label n (label_keys es) fresh_label_same (λ k. refl) l fl in
    let ts : Tables = record { edges = edges; calls = calls; labels = labels } in
    (ts, push_tasks-each es (empty_tables n) ts e c b, ce, cc, cb)

-- The profile of a program, from its calls to the tables: under the conditions of profile-
-- delivers, so in the schedules in which each round of the reader is one step between two calls of
-- the program and no pop runs into a push, with tables of at most 2 ^ 31 buckets at the start and
-- the pairs of blocks of the history spread (at most 15 different ones of a table share the lower
-- 31 bits of their hash), the profile ends, no push of an event exits or goes on, and each table
-- is well formed, has an element for each different pair of the history, and gives for every pair
-- of blocks the number of times that the pair is in the history, modulo 2 ^ 64.
pub profile-tallies :
    (bin : TaskBin) (id block n : ℕ) (xs : List Action)
    → id < long_max
    → IsNested [] xs
    → keeps_up (markov_init bin id block) xs ≡ true
    → n ≤ 31
    → Spread (history block [] xs)
    → (s : Markov) × ((act_all (markov_init bin id block) xs >>= finish) ≡ some s)
      × ((ts : Tables) × (push_tasks (empty_tables n) s.delivered ≡ some ts)
          × Counts ts.edges (edge_keys (history block [] xs))
          × Counts ts.calls (call_keys (history block [] xs))
          × Counts ts.labels (label_keys (history block [] xs)))
profile-tallies bin id block n xs l nested k small spread =
    let (s, e, d) = profile-delivers bin id block xs l nested k in
    let (ts, p, ce, cc, cb) = push_tasks-counts n (history block [] xs) small spread in
    (s, e, (ts, ap (push_tasks (empty_tables n)) d ∙ p, ce, cc, cb))
