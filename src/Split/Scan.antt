-- ===== src/Split/Scan.antt =====
-- sh_strsplit of inc/sh_strings_fns.h and rte_strsplit of inc/sh_unistd.h. A string is a list of
-- bytes, and a token the index of its first byte. A limit below 0 acts as 0.
use linux.Common.{
  ℕ, zero, suc, ◌+◌, Bool, true, false, ◌||◌, ◌&&◌, Option, some, List, [], ◌∷◌, ◌++◌, ◌>>=◌,
  length, get_elem?, set, leb, ◌==◌, if◌then◌else◌,
}

-- What a round of the loop does: it leaves the loop, or goes on with the string, the tokens stored
-- so far, and `tokstart`.
pub data Scan : Type 0 where
  break : Scan
  next : (string tokens : List ℕ) (tokstart : Bool) → Scan

-- A round of the loop of `sh_strsplit` at the byte `c` at index `i`.
unfoldable pub sh_round : (max delim i c : ℕ) → List ℕ → List ℕ → Bool → Scan
sh_round max delim i c string tokens tokstart =
    let tokens' = if tokstart then tokens ++ (i ∷ []) else tokens in
    if c == 0 || leb max (length tokens)
    then break
    else if tokstart && c == delim
    then next string tokens tokstart
    else if c == delim
    then next (set string i 0) tokens' true
    else next string tokens' false

-- The loop of `sh_strsplit`, with `left` bytes to look at from index `i` on. `none` is a read
-- outside the string's memory.
unfoldable pub sh_loop : (max delim left i : ℕ) → List ℕ → List ℕ → Bool → Option (List ℕ × List ℕ)
sh_loop max delim zero i string tokens tokstart = some (string, tokens)
sh_loop max delim (suc left) i string tokens tokstart = do
  c ← get_elem? string i
  elim (sh_round max delim i c string tokens tokstart) [
    | break ↦ some (string, tokens)
    | next string' tokens' tokstart' ↦ sh_loop max delim left (i + 1) string' tokens' tokstart'
  ]

-- `sh_strsplit` of a string and an array that are not NULL: the string's memory after the call and
-- the tokens, whose number it returns.
unfoldable pub sh_strsplit : List ℕ → (stringlen maxtokens delim : ℕ) → Option (List ℕ × List ℕ)
sh_strsplit string stringlen maxtokens delim = sh_loop maxtokens delim stringlen 0 string [] true

-- A round of the loop of `rte_strsplit`.
unfoldable pub rte_round : (max delim i c : ℕ) → List ℕ → List ℕ → Bool → Scan
rte_round max delim i c string tokens tokstart =
    let tokens' = if tokstart then tokens ++ (i ∷ []) else tokens in
    if c == 0 || leb max (length tokens)
    then break
    else if c == delim
    then next (set string i 0) tokens' true
    else next string tokens' false

-- The loop of `rte_strsplit`, as above.
unfoldable pub rte_loop : (max delim left i : ℕ) → List ℕ → List ℕ → Bool → Option (List ℕ × List ℕ)
rte_loop max delim zero i string tokens tokstart = some (string, tokens)
rte_loop max delim (suc left) i string tokens tokstart = do
  c ← get_elem? string i
  elim (rte_round max delim i c string tokens tokstart) [
    | break ↦ some (string, tokens)
    | next string' tokens' tokstart' ↦ rte_loop max delim left (i + 1) string' tokens' tokstart'
  ]

-- `rte_strsplit`, as above.
unfoldable pub rte_strsplit : List ℕ → (stringlen maxtokens delim : ℕ) → Option (List ℕ × List ℕ)
rte_strsplit string stringlen maxtokens delim = rte_loop maxtokens delim stringlen 0 string [] true
