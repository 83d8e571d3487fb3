-- ===== src/HashTable/File.antt =====
-- The file of a table of edges (WriteEdgeHashTable and ReadEdgeHashTable of
-- Profile/Backend/HashTable/DashHashTable.c), as its words of 32 bits. The statistics that are
-- printed and the time are left out.
use cyclebite.Base.{
  ℕ, zero, suc, ◌+◌, ◌-◌, ◌*◌, ◌/◌, ◌%◌, ◌^◌, List, [], ◌∷◌, Option, none, some, ◌>>=◌, length,
}
use cyclebite.HashTable.{Element, Table, full_size, elements, write}
use cyclebite.HashTable.Push.{push}

-- The blocks and the frequency, whose lower word comes first.
unfoldable pub edge_words : List Element → List ℕ
edge_words [] = []
edge_words (e ∷ es) =
    e.source ∷ e.sink ∷ e.frequency % 2 ^ 32 ∷ e.frequency / 2 ^ 32 ∷ edge_words es

-- The Markov order, the number of blocks, that of the edges, and the edges.
unfoldable pub write_edge_file : Table → ℕ → List ℕ
unfolding edge_words elements
write_edge_file t block_count =
    let es = elements (full_size t) t.array in
    1 ∷ block_count % 2 ^ 32 ∷ length es % 2 ^ 32 ∷ edge_words es

-- fread: at the end of the file the variable keeps its value. Half a number of 64 bits at the end,
-- whose result is not determined, is read as none.
abbrev pub fread_32 : ℕ → List ℕ → ℕ × List ℕ
fread_32 old [] = (old, [])
fread_32 old (w ∷ ws) = (w, ws)

abbrev pub fread_64 : ℕ → List ℕ → ℕ × List ℕ
fread_64 old (lo ∷ hi ∷ ws) = (lo + hi * 2 ^ 32, ws)
fread_64 old ws = (old, [])

abbrev read_element : Element → List ℕ → Element × List ℕ
read_element old ws =
    let (source, ws₁) = fread_32 old.source ws in
    let (sink, ws₂) = fread_32 old.sink ws₁ in
    let (frequency, ws₃) = fread_64 old.frequency ws₂ in
    let (garbage, ws₄) = fread_64 0 ws₃ in
    (record old { source = source; sink = sink; frequency = frequency }, ws₄)

-- The loop of ReadEdgeHashTable.
unfoldable pub read_edges : ℕ → Element → List ℕ → Table → Option Table
unfolding push write
read_edges zero new_entry ws t = some t
read_edges (suc n) new_entry ws t =
    let r = read_element new_entry ws in
    push (32 - t.size) (λ t. write t r.0) t >>= λ t'. read_edges n r.0 r.1 t'

-- The size is computed from the number of edges. The array is what malloc gives, and newEntry is
-- not set at first. `none` is also what is not determined, when the file has no three words.
unfoldable pub read_edge_file : (ℕ → ℕ) → (ℕ → List Element) → Element → List ℕ → Option Table
unfolding read_edges
read_edge_file size_of memory new_entry (markov_order ∷ blocks ∷ edges ∷ ws) =
    read_edges edges new_entry ws (record { size = size_of edges; array = memory })
read_edge_file size_of memory new_entry ws = none
