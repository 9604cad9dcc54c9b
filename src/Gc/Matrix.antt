-- ===== src/Gc/Matrix.antt =====
-- coordinator.rs: the matrix clock of a collector, row by row.
use experimental_crdt.Base.{
  max, ◌≡◌, refl, inl, inr, true, false, not, ◌&&◌, none, some, List, [], ◌∷◌, arith, if◌then◌else◌,
  Option-cases, ◌==◌, nat_eq, string_eq,
}
use experimental_crdt.Map.{get, insert, remove as erase, IsMap, is_some}
use experimental_crdt.Map.Laws.{get-insert, get-remove}
use experimental_crdt.Map.Sets.{contains}
use experimental_crdt.Clock.{NodeId, CausalContext, count_at}
use experimental_crdt.Clock.VersionVector.{vv_join, count_at-vv_join, vv_join-IsMap}
use experimental_crdt.Registry.{PeerRegistry, get_all_non_gc_replicas}
use experimental_crdt.Dissemination.{MatrixClock, map_option}
use experimental_crdt.Gc.{
  GcCoordinator, merge_row, merge_rows, drop_column, write_matrix, select_rows,
  get_knowledge_matrix,
}

-- A collector has a matrix.
abbrev pub IsReady : GcCoordinator → Type 0
IsReady gc = (gc.config.gc_replica && not (is_some gc.matrix_clock)) ≡ false

-- the row of a node, empty if there is none
abbrev pub row_at : MatrixClock → NodeId → CausalContext
row_at mc p = elim (get mc p) [ none ↦ [] | some row ↦ row ]

-- every row is a map
abbrev pub IsMatrix : MatrixClock → Type 0
IsMatrix mc = (p : NodeId) → IsMap (row_at mc p)

row_at-merge_row :
    (mc : MatrixClock) (k p n : NodeId) (incoming : CausalContext)
    → IsMatrix mc
    → count_at (row_at (merge_row mc k incoming) p) n ≡ (
        if k == p
        then max (count_at (row_at mc p) n) (count_at incoming n)
        else count_at (row_at mc p) n)
unfolding merge_row get
row_at-merge_row mc k p n incoming h = elim (Option-cases (get mc k)) [
  | inl miss ↦ ground (arith, string_eq.beq_iff k p, get-insert mc k p incoming)
  | inr (row, hit) ↦ ground (
    arith,
    h k,
    string_eq.beq_iff k p,
    get-insert mc k p (vv_join incoming row),
    count_at-vv_join incoming row n,
  )
]

merge_row-IsMatrix :
    (mc : MatrixClock) (k : NodeId) (incoming : CausalContext)
    → IsMatrix mc
    → IsMap incoming
    → IsMatrix (merge_row mc k incoming)
unfolding merge_row
merge_row-IsMatrix mc k incoming h m p = elim (Option-cases (get mc k)) [
  | inl miss ↦ ground (arith, h p, get-insert mc k p incoming)
  | inr (row, hit) ↦
      ground (arith, h p, get-insert mc k p (vv_join incoming row), vv_join-IsMap incoming row m)
]

-- every row that stands in the list is a map
abbrev pub AllMaps : MatrixClock → Type 0
AllMaps [] = Unit
AllMaps ((_, row) ∷ mc) = IsMap row × AllMaps mc

-- After rows arrive, every counter in the row of every node is the greater of what was there and
-- what came; the matrix and the rows are maps of maps.
pub row_at-merge_rows :
    (mc rows : MatrixClock) (p n : NodeId)
    → IsMatrix mc
    → IsMap rows
    → AllMaps rows
    → count_at (row_at (merge_rows mc rows) p) n
      ≡ max (count_at (row_at mc p) n) (count_at (row_at rows p) n)
unfolding merge_rows get
row_at-merge_rows mc [] p n h u a = ground arith
row_at-merge_rows mc ((k, incoming) ∷ rows) p n h u a = ground (
  arith,
  u.0,
  string_eq.beq_iff k p,
  row_at-merge_row mc k p n incoming h,
  row_at-merge_rows (merge_row mc k incoming) rows p n (merge_row-IsMatrix mc k incoming h a.0) u.1
      a.1,
)

-- A write to the matrix of a ready coordinator does not panic and leaves it ready.
pub write_matrix-IsReady :
    (gc : GcCoordinator) (f : MatrixClock → MatrixClock)
    → IsReady gc
    → (gc' : GcCoordinator) × (write_matrix gc f ≡ some gc') × IsReady gc'
write_matrix-IsReady gc f h = elim (Option-cases gc.matrix_clock) [
  | inl bare ↦ (gc, ground arith, h)
  | inr (mc, there) ↦ (
    (if gc.config.gc_replica then record gc { matrix_clock = some (f mc) } else gc),
    ground arith,
    ground arith,
  )
]

get-drop_column :
    (mc : MatrixClock) (p q : NodeId)
    → get (drop_column mc p) q ≡ elim (get mc q) [ none ↦ none | some row ↦ some (erase row p) ]
unfolding drop_column get
get-drop_column [] p q = refl
get-drop_column ((k, row) ∷ mc) p q = ground (arith, get-drop_column mc p q)

-- A node that is forgotten has no row in the matrix, and no other row counts its events; the
-- other counters stay.
pub row_at-forgotten :
    (mc : MatrixClock) (p q n : NodeId)
    → count_at (row_at (drop_column (erase mc p) p) q) n
      ≡ (if p == q then 0 else (if p == n then 0 else count_at (row_at mc q) n))
unfolding get
row_at-forgotten mc p q n = elim (Option-cases (get mc q)) [
  | inl miss ↦ ground (arith, get-drop_column (erase mc p) p q, get-remove mc p q)
  | inr (row, hit) ↦
      ground (arith, get-drop_column (erase mc p) p q, get-remove mc p q, get-remove row p n)
]

get-select_rows :
    (mc out : MatrixClock) (nodes : List NodeId) (p : NodeId)
    → get (select_rows mc out nodes) p ≡ elim (get mc p) [
      | none ↦ get out p
      | some row ↦ elim (contains nodes p) [ true ↦ some row | false ↦ get out p ]
    ]
unfolding select_rows contains
get-select_rows mc out [] p = ground arith
get-select_rows mc out (q ∷ nodes) p = elim (Option-cases (get mc q)) [
  | inl miss ↦ ground (arith, string_eq.beq_iff q p, get-select_rows mc out nodes p)
  | inr (row, hit) ↦ ground (
    arith,
    string_eq.beq_iff q p,
    get-select_rows mc (insert out q row) nodes p,
    get-insert out q p row,
  )
]

-- The matrix that a collector gives away holds the rows of the peers that are no collectors, as it
-- has them, and no other row; the collector has its matrix.
pub get-get_knowledge_matrix :
    {H : Type 0} (gc : GcCoordinator) (peers : PeerRegistry H) (mc : MatrixClock) (p : NodeId)
    → gc.config.gc_replica ≡ true
    → gc.matrix_clock ≡ some mc
    → map_option (λ m. get m p) (get_knowledge_matrix gc peers)
      ≡ some (if contains (get_all_non_gc_replicas peers) p then get mc p else none)
unfolding get_knowledge_matrix get
get-get_knowledge_matrix gc peers mc p collector there =
    ground (arith, get-select_rows mc [] (get_all_non_gc_replicas peers) p)
