-- ===== src/Diverge.antt =====
-- crates/acp-diverge/src/lib.rs: the alignment of two traces by a longest common subsequence. An
-- index out of range, which panics in the source, is `none`.
pub mod Cells
pub mod Table
pub mod Backtrack
pub mod Longest
pub mod Stats
pub mod Symmetric
pub mod Render
use acp_core.Base.{
  ℕ, zero, suc, ◌+◌, ◌*◌, ◌%◌, ◌^◌, max, Text, Bool, true, false, ◌&&◌, List, [], ◌∷◌, ◌++◌,
  reverse, Option, none, some, leb, if◌then◌else◌, ◌==◌, nat_eq, list_eq, length, get_elem?, set,
  replicate, map, ltb, for,
}
use acp_core.Base.Loops.{◌>>=◌, ◌>>◌}
use acp_core.Trace.Event.{Direction, direction_eq, EventRecord}
use acp_core.Trace.Reader.{TraceReader}

pub record Step : Type 0 where
  pub dir : Direction
  pub hash : Text
  pub method : Option Text
  pub seq : ℕ

pub data DiffOp : Type 0 where
  common : (a_seq b_seq : ℕ) (dir : Direction) (hash : Text) (method : Option Text) → DiffOp
  only_a : (a_seq : ℕ) (dir : Direction) (hash : Text) (method : Option Text) → DiffOp
  only_b : (b_seq : ℕ) (dir : Direction) (hash : Text) (method : Option Text) → DiffOp

-- `steps`, over the events of a trace
unfoldable pub steps : List EventRecord → List Step
steps events =
    map (λ e. record { dir = e.dir; hash = e.hash; method = e.method; seq = e.seq }) events

unfoldable pub step_eq : Step → Step → Bool
step_eq a b = a.dir == b.dir && a.hash == b.hash

-- `dp[k] = v`
unfoldable pub store : List ℕ → ℕ → ℕ → Option (List ℕ)
store dp k v = if ltb k (length dp) then some (set dp k v) else none

module _ (a b : List Step) where
  -- The closure `idx`, on `usize`.
  abbrev pub idx : ℕ → ℕ → ℕ
  idx i j = (i * (length b + 1) + j) % 2 ^ 64

  -- The body of the inner loop. The cells are `u32`.
  unfoldable pub fill_cell : ℕ → ℕ → List ℕ → Option (List ℕ)
  unfolding step_eq store
  fill_cell i j dp = do
    x ← get_elem? a i
    y ← get_elem? b j
    v ←
        (if step_eq x y then (do d ← get_elem? dp (idx i j); some ((d + 1) % 2 ^ 32)) else (do
          up ← get_elem? dp (idx i (j + 1))
          left ← get_elem? dp (idx (i + 1) j)
          some (max up left)))
    store dp (idx (i + 1) (j + 1)) v

  unfoldable pub fill_row : ℕ → List ℕ → Option (List ℕ)
  unfolding fill_cell
  fill_row i dp = for (length b) 0 (fill_cell i) dp

  -- The number of cells, and `vec![0u32; ..]`, which panics above `isize::MAX` bytes.
  abbrev pub cell_count : ℕ
  cell_count = (length a + 1) * (length b + 1) % 2 ^ 64

  unfoldable pub blank_table : Option (List ℕ)
  blank_table = if ltb (4 * cell_count) (2 ^ 63) then some (replicate cell_count 0) else none

  unfoldable pub fill_table : Option (List ℕ)
  unfolding fill_row blank_table
  fill_table = do dp ← blank_table; for (length a) 0 fill_row dp

abbrev pub common_op : Step → Step → DiffOp
common_op s t = common s.seq t.seq s.dir s.hash s.method

abbrev pub only_a_op : Step → DiffOp
only_a_op s = only_a s.seq s.dir s.hash s.method

abbrev pub only_b_op : Step → DiffOp
only_b_op s = only_b s.seq s.dir s.hash s.method

module _ (a b : List Step) (dp : List ℕ) where
  -- `while i > 0 && j > 0`. `ops.push` puts an item at the end.
  unfoldable pub backtrack : ℕ → ℕ → List DiffOp → Option (ℕ × ℕ × List DiffOp)
  backtrack zero j ops = some (0, j, ops)
  backtrack (suc i) zero ops = some (suc i, 0, ops)
  backtrack (suc i) (suc j) ops = get_elem? a i >>= λ s. get_elem? b j >>= λ t. elim (step_eq s t) [
    | true ↦ backtrack i j (ops ++ common_op s t ∷ [])
    | false ↦ get_elem? dp (idx a b i (suc j)) >>= λ up.
        get_elem? dp (idx a b (suc i) j) >>= λ left. elim (leb left up) [
          | true ↦ backtrack i (suc j) (ops ++ only_a_op s ∷ [])
          | false ↦ backtrack (suc i) j (ops ++ only_b_op t ∷ [])
        ]
  ]

-- `while i > 0` and `while j > 0`
unfoldable pub drain_a : List Step → ℕ → List DiffOp → Option (List DiffOp)
drain_a a zero ops = some ops
drain_a a (suc i) ops = get_elem? a i >>= λ s. drain_a a i (ops ++ only_a_op s ∷ [])

unfoldable pub drain_b : List Step → ℕ → List DiffOp → Option (List DiffOp)
drain_b b zero ops = some ops
drain_b b (suc j) ops = get_elem? b j >>= λ s. drain_b b j (ops ++ only_b_op s ∷ [])

unfoldable pub lcs_diff : List Step → List Step → Option (List DiffOp)
unfolding fill_table backtrack drain_a drain_b
lcs_diff a b = do
  dp ← fill_table a b
  (i, j, ops) ← backtrack a b dp (length a) (length b) []
  ops' ← drain_a a i ops
  ops'' ← drain_b b j ops'
  some (reverse ops'')

pub record DiffStats : Type 0 where
  pub common : ℕ
  pub only_a : ℕ
  pub only_b : ℕ
  pub first_divergence : Option ℕ

-- `if stats.first_divergence.is_none() { stats.first_divergence = Some(i) }`
abbrev pub first : Option ℕ → ℕ → Option ℕ
first none i = some i
first (some k) i = some k

-- The loop of `diff_steps`, from index `i`; it counts in `u64`.
unfoldable pub count_ops : ℕ → List DiffOp → DiffStats → DiffStats
count_ops i [] stats = stats
count_ops i (DiffOp.common _ _ _ _ _ ∷ ops) stats =
    count_ops (suc i) ops (record stats { common = (stats.common + 1) % 2 ^ 64 })
count_ops i (DiffOp.only_a _ _ _ _ ∷ ops) stats = count_ops (suc i) ops (record stats {
  only_a = (stats.only_a + 1) % 2 ^ 64;
  first_divergence = first stats.first_divergence i;
})
count_ops i (DiffOp.only_b _ _ _ _ ∷ ops) stats = count_ops (suc i) ops (record stats {
  only_b = (stats.only_b + 1) % 2 ^ 64;
  first_divergence = first stats.first_divergence i;
})

abbrev pub no_stats : DiffStats
no_stats = record { common = 0; only_a = 0; only_b = 0; first_divergence = none }

unfoldable pub diff_steps : List Step → List Step → Option (List DiffOp × DiffStats)
unfolding lcs_diff count_ops
diff_steps a b = do ops ← lcs_diff a b; some (ops, count_ops 0 ops no_stats)

pub record DiffReport : Type 0 where
  pub label_a : Text
  pub label_b : Text
  pub ops : List DiffOp
  pub stats : DiffStats

unfoldable pub diff_two : TraceReader → Text → TraceReader → Text → Option DiffReport
unfolding diff_steps steps
diff_two a label_a b label_b = do
  (ops, stats) ← diff_steps (steps a.events) (steps b.events)
  some (record { label_a = label_a; label_b = label_b; ops = ops; stats = stats })
