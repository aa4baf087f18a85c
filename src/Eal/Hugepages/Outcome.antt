-- ===== src/Eal/Hugepages/Outcome.antt =====
-- `hugepage_info_init` as a whole: it comes to an end, and what its success means.
use linux.Common.{
  ℕ, zero, suc, ◌≤◌, ◌<◌, ◌≡◌, refl, ap, subst, ◌≢◌, ◌∙◌, sym, Bool, true, false, not, ◌&&◌, Option,
  some, List, [], ◌∷◌, ◌++◌, ◌==◌, ltb, length, get_elem?, get_or, take, drop, add32, arith,
  Bool-cases, Option-cases, inl, inr, ◌⊎◌, length-append, length-take, length-drop,
}
use linux.Eal.Cpu.{EalConfig}
use linux.Eal.Supply.{HugepageInfo}
use linux.Eal.Discovery.{System, max_hugepage_sizes}
use linux.Eal.Discovery.Mounts.{IsReadable}
use linux.Eal.Hugepages.{
  HugepageConf, Discovered, sum_pages, has_pages, init_from, hugepage_info_init,
}
use linux.Eal.Hugepages.Table.{CountAll, init_loop-returns, HasNodes}

sum_pages-positive :
    (ns : List ℕ) (acc : ℕ) → 0 < sum_pages ns acc → (0 < acc) ⊎ ((j : ℕ) × (0 < get_or ns j 0))
unfolding sum_pages
sum_pages-positive [] acc p = inl p
sum_pages-positive (n ∷ ns) acc p = elim (sum_pages-positive ns (add32 acc n) p) [
  | inl q ↦ elim (Bool-cases (ltb 0 acc)) [
    | inl a ↦ inl (ground (arith, a))
    | inr a ↦ inr (0, ground (arith, a, q))
  ]
  | inr (j, q) ↦ inr (suc j, q)
]

-- An entry that is mounted and has pages on a node.
pub record HasPages (conf : HugepageConf) : Type 0 where
  pub index : ℕ
  pub entry : HugepageInfo
  pub below : index < conf.num_hugepage_sizes
  pub stands : get_elem? conf.hugepage_info index ≡ some entry
  pub mounted : entry.hugedir ≢ []
  pub node : ℕ
  pub pages : 0 < get_or entry.num_pages node 0

has_pages-entry :
    (left : ℕ) (info : List HugepageInfo)
    → has_pages left info ≡ true
    → HasPages (record { num_hugepage_sizes = left; hugepage_info = info })
unfolding has_pages
has_pages-entry zero info e = absurd (ground (arith, e))
has_pages-entry (suc left) [] e = absurd (ground (arith, e))
has_pages-entry (suc left) (h ∷ hs) e =
    elim (Bool-cases (not (length h.hugedir == 0) && ltb 0 (sum_pages h.num_pages 0))) [
      | inl t ↦
          let p : 0 < sum_pages h.num_pages 0 = ground (arith, t) in
          let m : (length h.hugedir == 0) ≡ false = ground (arith, t) in
          elim (sum_pages-positive h.num_pages 0 p) [
            | inl z ↦ absurd (omega (arith, z))
            | inr (j, q) ↦ record {
              index = 0;
              entry = h;
              below = omega arith;
              stands = refl;
              mounted = λ n. ground (arith, m, ap (λ x. length x) n);
              node = j;
              pages = q;
            }
          ]
      | inr f ↦
          let r = has_pages-entry left hs (rw f at e) in
          record {
            index = suc r.index;
            entry = r.entry;
            below = omega (arith, r.below);
            stands = r.stands;
            mounted = r.mounted;
            node = r.node;
            pages = r.pages;
          }
    ]

-- The table after sorting.
sorted-length :
    (qsort : List HugepageInfo → List HugepageInfo)
    → ((xs : List HugepageInfo) → length (qsort xs) ≡ length xs)
    → (n : ℕ) (info : List HugepageInfo) → n ≤ length info
    → length (qsort (take n info) ++ drop n info) ≡ length info
sorted-length qsort same n info le = omega (
  arith,
  length-append (qsort (take n info)) (drop n info),
  same (take n info),
  length-take n info,
  length-drop n info,
  le,
)

-- What a call on a table for `MAX_HUGEPAGE_SIZES` sizes returns: 0 or -1, a table of the same length
-- with at most that many sizes in use, and with 0 an entry in use that is mounted and has pages.
pub record Outcome (out : Option (Bool × HugepageConf × ℕ)) : Type 0 where
  pub ok : Bool
  pub conf : HugepageConf
  pub size : ℕ
  pub returns : out ≡ some (ok, conf, size)
  pub table : length conf.hugepage_info ≡ max_hugepage_sizes
  pub few : conf.num_hugepage_sizes ≤ max_hugepage_sizes
  pub usable : ok ≡ true → HasPages conf

module _ (qsort : List HugepageInfo → List HugepageInfo)
    (same : (xs : List HugepageInfo) → length (qsort xs) ≡ length xs) (sys : System)
    (cfg : EalConfig) (nodes : HasNodes cfg) (readable : IsReadable sys) where
  init_from-Outcome :
      (names : List (List ℕ)) (default_size : ℕ) (conf : HugepageConf)
      → length conf.hugepage_info ≡ max_hugepage_sizes
      → CountAll conf.hugepage_info
      → conf.num_hugepage_sizes ≤ max_hugepage_sizes
      → Outcome (init_from qsort sys cfg names default_size conf)
  unfolding init_from
  init_from-Outcome names default_size conf three counts few =
      let start : Discovered = record {
        info = conf.hugepage_info;
        num_sizes = 0;
        default_size = default_size;
      } in
      let (r, e, w) =
        init_loop-returns sys cfg nodes readable names start
          (record { table = three; counts = counts; few = omega arith }) in
      let d = r.1 in
      let info = qsort (take d.num_sizes d.info) ++ drop d.num_sizes d.info in
      elim (Bool-cases r.0) [
        | inl t ↦ record {
          ok = has_pages d.num_sizes info;
          conf = record { num_hugepage_sizes = d.num_sizes; hugepage_info = info };
          size = d.default_size;
          returns = rw (e, t) refl;
          table =
              sorted-length qsort same d.num_sizes d.info (omega (arith, w.few, w.table)) ∙ w.table;
          few = w.few;
          usable = λ u. has_pages-entry d.num_sizes info u;
        }
        | inr f ↦ record {
          ok = false;
          conf = record conf { hugepage_info = d.info };
          size = d.default_size;
          returns = rw (e, f) refl;
          table = w.table;
          few = few;
          usable = λ u. absurd (ground (arith, u));
        }
      ]

  opened :
      (default_size : ℕ) (conf : HugepageConf) (names : List (List ℕ))
      → sys.sys_dir ≡ some names
      → hugepage_info_init qsort sys cfg default_size conf
        ≡ init_from qsort sys cfg names default_size conf
  unfolding hugepage_info_init
  opened default_size conf names s = rw s refl

  -- Where `qsort` returns as many entries as it is given, the configuration's nodes are below
  -- RTE_MAX_NUMA_NODES, /proc/meminfo gives a default size and /proc/mounts is read through buffers of
  -- BUFSIZ bytes: on a table of MAX_HUGEPAGE_SIZES entries that have a count for every node, with at
  -- most that many in use, `hugepage_info_init` returns, without an access outside an array, whatever
  -- the other files and directories hold. The table keeps its length and has at most
  -- MAX_HUGEPAGE_SIZES sizes in use; where it returns 0, one of those is mounted and has pages on a
  -- node.
  pub hugepage_info_init-Outcome :
      (default_size : ℕ) (conf : HugepageConf)
      → length conf.hugepage_info ≡ max_hugepage_sizes
      → CountAll conf.hugepage_info
      → conf.num_hugepage_sizes ≤ max_hugepage_sizes
      → Outcome (hugepage_info_init qsort sys cfg default_size conf)
  unfolding hugepage_info_init
  hugepage_info_init-Outcome default_size conf three counts few = elim (Option-cases sys.sys_dir) [
    | inl n ↦ record {
      ok = false;
      conf = conf;
      size = default_size;
      returns = rw n refl;
      table = three;
      few = few;
      usable = λ u. absurd (ground (arith, u));
    }
    | inr (names, s) ↦
        subst (λ out. Outcome out) (sym (opened default_size conf names s))
          (init_from-Outcome names default_size conf three counts few)
  ]
