-- ===== src/Graph/Transforms.antt =====
-- Transformations of the control flow graph (Graph/Transforms.cpp). The nodes are in a heap, a
-- subgraph is its sets of nodes and edges.
pub mod FanInFanOut
pub mod Virtualize
pub mod Trivial
pub mod Subgraph
