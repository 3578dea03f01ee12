-- ===== src/Pending/Level/Merge.antt =====
-- The rank of a merged level: `mergeBackpressureLevels` of
-- cdmp-mini/internal/pkg/usercache/pending_state_machine.go.
use cdmp_mini.Base.{ltb, if◌then◌else◌, ◌≢◌, ℕ, ◌≤◌, ◌≡◌, List, [], ◌∷◌, arith}
use cdmp_mini.Pending.Level.{Level, rank, merge_from, merge}

abbrev higher : ℕ → ℕ → ℕ
higher a b = if ltb a b then b else a

-- The highest rank in a list.
pub highest : List Level → ℕ
highest [] = 0
highest (level ∷ levels) = higher (rank level) (highest levels)

rank-le : (level : Level) → rank level ≤ 2
rank-le level = ground arith

highest-le : (levels : List Level) → highest levels ≤ 2
unfolding highest
highest-le [] = omega arith
highest-le (level ∷ levels) = ground (arith, rank-le level, highest-le levels)

rank-merge_from :
    (result : Level) (levels : List Level)
    → result ≢ Level.unset
    → rank (merge_from result levels) ≡ higher (rank result) (highest levels)
unfolding merge_from highest
rank-merge_from result [] known = ground arith
rank-merge_from result (Level.severe ∷ levels) known =
    ground (arith, rank-le result, highest-le levels)
rank-merge_from Level.none (Level.elevated ∷ levels) known =
    ground (arith, rank-merge_from Level.elevated levels (λ e. cc), highest-le levels)
rank-merge_from result (Level.elevated ∷ levels) known =
    ground (arith, rank-merge_from result levels known, highest-le levels)
rank-merge_from result (Level.none ∷ levels) known =
    ground (arith, rank-merge_from result levels known)
rank-merge_from result (Level.unset ∷ levels) known =
    ground (arith, rank-merge_from result levels known)

-- The merged level has the highest rank of the levels that are merged, an unset level counting as
-- none, and is none where there are no levels.
pub rank-merge : (levels : List Level) → rank (merge levels) ≡ highest levels
unfolding merge
rank-merge levels = ground (arith, rank-merge_from Level.none levels (λ e. cc))
