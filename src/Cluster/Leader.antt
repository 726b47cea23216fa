-- ===== src/Cluster/Leader.antt =====
-- cluster/params.go: `LeaderNodeOfTerm`.
use native.Mathlib.Nat.{mod-add-mod, mod-eq_of_lt, mod-lt, add-zero, add-mod_right}
use mathlib.Core.Bool.{false≢true}
use ofgp_core.Base.{
  get_elem?, ◌>>=◌, ℕ, zero, suc, ◌+◌, ◌%◌, ◌<◌, ◌≡◌, Bool, true, false, Option, none, some, List,
  [], ◌∷◌, arith, Bool-cases, length, get_elem?_inside, ap, ◌∙◌, inl, inr, Option-cases, refl, sym,
  subst, leb, leb→le, ◌-◌,
}
use ofgp_core.Cluster.Defs.{Cluster, NodeInfo}

-- The loop from the index `idx`, for as many rounds as the fuel has.
unfoldable pub leader_loop : ℕ → Cluster → ℕ → Option ℕ
leader_loop zero c idx = none
leader_loop (suc fuel) c idx = do
  node ← get_elem? c.node_list idx
  elim node.is_normal [
    | true ↦ some idx
    | false ↦ leader_loop fuel c ((idx + 1) % c.total_node_count)
  ]

-- A round for each node is enough, where some node is normal. Without a node the division by zero
-- is a panic, as the index is.
unfoldable pub leader_node_of_term : Cluster → ℕ → Option ℕ
unfolding leader_loop
leader_node_of_term c term = leader_loop c.total_node_count c (term % c.total_node_count)

-- Whether the node at an index is there and normal.
abbrev pub normal_at : List NodeInfo → ℕ → Bool
normal_at [] i = false
normal_at (node ∷ nodes) zero = node.is_normal
normal_at (node ∷ nodes) (suc i) = normal_at nodes i

normal_at-get_elem? :
    (nodes : List NodeInfo) (i : ℕ) (node : NodeInfo)
    → get_elem? nodes i ≡ some node
    → normal_at nodes i ≡ node.is_normal
normal_at-get_elem? [] i node h = cc
normal_at-get_elem? (n ∷ nodes) zero node h = ground arith
normal_at-get_elem? (n ∷ nodes) (suc i) node h = normal_at-get_elem? nodes i node h

-- The node `j` places after `idx`, round the ring, is the first normal one.
abbrev pub FirstNormal : Cluster → ℕ → ℕ → ℕ → Type 0
FirstNormal c idx j r =
    (r ≡ (idx + j) % c.total_node_count)
    × (normal_at c.node_list r ≡ true)
    × ((i : ℕ) → i < j → normal_at c.node_list ((idx + i) % c.total_node_count) ≡ false)

mod_step : (idx i n : ℕ) → ((idx + 1) % n + i) % n ≡ (idx + suc i) % n
mod_step idx i n = mod-add-mod (idx + 1) n i ∙ ap (λ (x : ℕ). x % n) (omega arith)

normal_at-none :
    (nodes : List NodeInfo) (i : ℕ) → get_elem? nodes i ≡ none → normal_at nodes i ≡ false
normal_at-none [] i h = refl
normal_at-none (n ∷ nodes) zero h = cc
normal_at-none (n ∷ nodes) (suc i) h = normal_at-none nodes i h

leader_loop_hit :
    (f : ℕ) (c : Cluster) (idx : ℕ)
    → normal_at c.node_list idx ≡ true
    → leader_loop (suc f) c idx ≡ some idx
unfolding leader_loop
leader_loop_hit f c idx h = elim (Option-cases (get_elem? c.node_list idx)) [
  | inl e ↦ cc (normal_at-none c.node_list idx e)
  | inr (node, e) ↦ rw e (ground (arith, normal_at-get_elem? c.node_list idx node e))
]

leader_loop_miss :
    (f : ℕ) (c : Cluster) (idx : ℕ)
    → idx < length c.node_list
    → normal_at c.node_list idx ≡ false
    → leader_loop (suc f) c idx ≡ leader_loop f c ((idx + 1) % c.total_node_count)
unfolding leader_loop
leader_loop_miss f c idx l h =
    let (node, e) = get_elem?_inside c.node_list idx l in
    rw e (ground (arith, normal_at-get_elem? c.node_list idx node e))

module _ (c : Cluster) (full : c.total_node_count ≡ length c.node_list) where
  leader_loop-first :
      (f idx d : ℕ)
      → idx < c.total_node_count
      → d < f
      → normal_at c.node_list ((idx + d) % c.total_node_count) ≡ true
      → (r : ℕ) × (j : ℕ) × (leader_loop f c idx ≡ some r) × FirstNormal c idx j r
  leader_loop-first zero idx d h df nd = absurd (omega arith)
  leader_loop-first (suc f) idx d h df nd = elim (Bool-cases (normal_at c.node_list idx)) [
    | inl e ↦
        (idx, 0, leader_loop_hit f c idx e, (sym (here idx h), e, λ i l. absurd (omega arith)))
    | inr e ↦
        let (r, j, found, (place, normal, before)) =
          later (λ d' l. leader_loop-first f _ d' (mod-lt (idx + 1) some_node) l) d df nd e in
        (
          r,
          suc j,
          leader_loop_miss f c idx inside e ∙ found,
          (place ∙ mod_step idx j c.total_node_count, normal, first j before e),
        )
  ]
    where
      inside : idx < length c.node_list
      inside = omega arith

      some_node : 0 < c.total_node_count
      some_node = omega arith

      here : (i : ℕ) → i < c.total_node_count → (i + 0) % c.total_node_count ≡ i
      here i l = rw add-zero (mod-eq_of_lt l)

      later :
          ((d' : ℕ)
            → d' < f
            → normal_at c.node_list (((idx + 1) % c.total_node_count + d') % c.total_node_count)
              ≡ true
            → (r : ℕ) × (j : ℕ) × (leader_loop f c ((idx + 1) % c.total_node_count) ≡ some r)
              × FirstNormal c ((idx + 1) % c.total_node_count) j r)
          → (d : ℕ) → d < suc f
          → normal_at c.node_list ((idx + d) % c.total_node_count) ≡ true
          → normal_at c.node_list idx ≡ false
          → (r : ℕ) × (j : ℕ) × (leader_loop f c ((idx + 1) % c.total_node_count) ≡ some r)
            × FirstNormal c ((idx + 1) % c.total_node_count) j r
      later ih zero df nd e =
          absurd (false≢true (sym e ∙ subst (λ i. normal_at c.node_list i ≡ true) (here idx h) nd))
      later ih (suc d) df nd e = ih d (omega arith) (rw (mod_step idx d c.total_node_count) nd)

      first :
          (j : ℕ)
          → ((i : ℕ)
              → i < j
              → normal_at c.node_list (((idx + 1) % c.total_node_count + i) % c.total_node_count)
                ≡ false)
          → normal_at c.node_list idx ≡ false
          → (i : ℕ) → i < suc j
          → normal_at c.node_list ((idx + i) % c.total_node_count) ≡ false
      first j before e zero l = rw (here idx h) e
      first j before e (suc i) l = rw (← mod_step idx i c.total_node_count) (before i (omega arith))

-- Where the node list is as long as the count says and some node in it is normal, the loop ends,
-- without an index out of range: the leader is the first normal node at or after the place
-- `term % TotalNodeCount`, going round, and it is a node of the list.
pub leader_node_of_term-first :
    (c : Cluster) (term k : ℕ)
    → c.total_node_count ≡ length c.node_list
    → k < c.total_node_count
    → normal_at c.node_list k ≡ true
    → (r : ℕ) × (j : ℕ) × (leader_node_of_term c term ≡ some r)
      × (r < c.total_node_count)
      × FirstNormal c (term % c.total_node_count) j r
unfolding leader_node_of_term
leader_node_of_term-first c term k full inside normal =
    let start = term % c.total_node_count in
    let early : start < c.total_node_count = mod-lt term (omega arith) in
    let (d, small, reach) = distance start early in
    let (r, j, found, first) =
      leader_loop-first c full c.total_node_count start d early small (rw reach normal) in
    (r, j, found, rw (first.0) (mod-lt (start + j) (omega arith)), first)
  where
    distance :
        (start : ℕ)
        → start < c.total_node_count
        → (d : ℕ) × (d < c.total_node_count) × ((start + d) % c.total_node_count ≡ k)
    distance start early = elim (Bool-cases (leb start k)) [
      | inl e ↦ (
        k - start,
        omega (arith, leb→le start k e),
        ap (λ (x : ℕ). x % c.total_node_count) (omega (arith, leb→le start k e))
            ∙ mod-eq_of_lt inside,
      )
      | inr e ↦ (
        k + c.total_node_count - start,
        ground arith,
        ap (λ (x : ℕ). x % c.total_node_count) (omega arith)
            ∙ add-mod_right k c.total_node_count
            ∙ mod-eq_of_lt inside,
      )
    ]
