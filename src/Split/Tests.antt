-- ===== src/Split/Tests.antt =====
-- Runs and instances of the functions that cut strings.
use linux.Common.{ℕ, ◌≡◌, refl, List, [], ◌∷◌, ◌++◌, some, arith}
use linux.Split.Scan.{sh_strsplit, sh_loop, sh_round, rte_strsplit, rte_loop, rte_round}
use linux.Split.Fields.{Split, fields, keep_nonempty, drop_empty_last}
use linux.Split.Words.{sh_strsplit-Split}
use linux.Split.Every.{rte_strsplit-Split}

-- " ab  c " and what may stand behind its NUL.
abbrev line : List ℕ
line = 32 ∷ 97 ∷ 98 ∷ 32 ∷ 32 ∷ 99 ∷ 32 ∷ []

sh_strsplit_run :
    sh_strsplit (line ++ (0 ∷ 7 ∷ [])) 9 4 32
    ≡ some (32 ∷ 97 ∷ 98 ∷ 0 ∷ 32 ∷ 99 ∷ 0 ∷ 0 ∷ 7 ∷ [], 1 ∷ 5 ∷ [])
unfolding sh_strsplit sh_loop sh_round
sh_strsplit_run = refl

rte_strsplit_run :
    rte_strsplit (line ++ (0 ∷ 7 ∷ [])) 9 8 32
    ≡ some (0 ∷ 97 ∷ 98 ∷ 0 ∷ 0 ∷ 99 ∷ 0 ∷ 0 ∷ 7 ∷ [], 0 ∷ 1 ∷ 4 ∷ 5 ∷ [])
unfolding rte_strsplit rte_loop rte_round
rte_strsplit_run = refl

-- With room for two tokens, the second one is not ended.
rte_strsplit_full_run :
    rte_strsplit (line ++ (0 ∷ 7 ∷ [])) 9 2 32
    ≡ some (0 ∷ 97 ∷ 98 ∷ 32 ∷ 32 ∷ 99 ∷ 32 ∷ 0 ∷ 7 ∷ [], 0 ∷ 1 ∷ [])
unfolding rte_strsplit rte_loop rte_round
rte_strsplit_full_run = refl

sh_strsplit-Split_example :
    Split line (7 ∷ []) (keep_nonempty (fields 32 line)) (sh_strsplit (line ++ (0 ∷ 7 ∷ [])) 9 4 32)
sh_strsplit-Split_example =
    sh_strsplit-Split line (7 ∷ []) 32 9 4 (omega arith) (omega arith) (omega arith)

rte_strsplit-Split_example :
    Split line
      (7 ∷ [])
      (drop_empty_last (fields 32 line))
      (rte_strsplit (line ++ (0 ∷ 7 ∷ [])) 9 8 32)
rte_strsplit-Split_example =
    rte_strsplit-Split line (7 ∷ []) 32 9 8 (omega arith) (omega arith) (omega arith)
