-- ===== src/BlockStore/Accuses.antt =====
-- primitives/blockstore.go: how accuses of the leader become a higher term.
use ofgp_core.Base.{
  ℕ_eq, bytes_Eq, beq_refl, length, All, Map, lookup, insert, delete, lookup-delete, ℕ, ◌+◌, ◌≤◌,
  ◌<◌, ◌≡◌, refl, ap, ◌⊎◌, inl, inr, none, some, List, [], ◌∷◌, arith, Option-cases, ◌∙◌,
}
use ofgp_core.Proto.Types.{WeakAccuse, StrongAccuse}
use ofgp_core.Proto.Blocks.{first_term, accuse_term}
use ofgp_core.Cluster.Defs.{Cluster}
use ofgp_core.Db.Defs.{set_node_term, get_weak_accuses, int64_limit}
use ofgp_core.BlockStore.Accuse.{drop_expired, handle_weak_accuse, handle_strong_accuse}
use ofgp_core.BlockStore.Defs.{
  BlockStore, Event, need_sync_up, new_strong_accuse, new_term, strong_accuse_processed,
}

-- Every accuse is of the term, and stands under the node that it is from.
abbrev pub OfTerm : ℕ → Map ℕ WeakAccuse → Type 0
OfTerm t = All (λ entry. (entry.1.term ≡ t) × (entry.1.node_id ≡ entry.0))

drop_expired-OfTerm :
    (t now : ℕ) (m : Map ℕ WeakAccuse) → OfTerm t m → OfTerm t (drop_expired now m)
unfolding drop_expired
drop_expired-OfTerm t now [] v = tt
drop_expired-OfTerm t now ((k, a) ∷ m) v = ground (arith, v.0, drop_expired-OfTerm t now m v.1)

insert-OfTerm :
    (t : ℕ) (msg : WeakAccuse) (m : Map ℕ WeakAccuse)
    → msg.term ≡ t
    → OfTerm t m
    → OfTerm t (insert msg.node_id msg m)
unfolding insert
insert-OfTerm t msg [] e v = ((e, refl), tt)
insert-OfTerm t msg ((k, a) ∷ m) e v = ground (arith, v.0, insert-OfTerm t msg m e v.1)

-- A strong accuse that a node raises: enough weak ones, which it stores, all of its own term, which so is
-- `Term()` whichever of them Go meets first.
abbrev pub RaisedByQuorum : Cluster → BlockStore → ℕ → Event → Type 0
RaisedByQuorum c bs t (new_strong_accuse sa) =
    (c.accuse_quorum_n ≤ length sa.weak_accuses)
    × OfTerm t sa.weak_accuses
    × (bs.db.weak_accuses ≡ some sa.weak_accuses)
RaisedByQuorum c bs t e = Unit

-- Where the stored accuses are of the node's term, they are after `handleWeakAccuse`, and a strong
-- accuse that it raises holds enough of them, all of that term, and is made of those stored.
pub handle_weak_accuse-quorum :
    (c : Cluster) (now t : ℕ) (bs bs' : BlockStore) (msg : WeakAccuse) (events : List Event)
    → bs.db.term ≡ some t
    → OfTerm t (get_weak_accuses bs.db)
    → handle_weak_accuse c now bs msg ≡ some (bs', events)
    → OfTerm t (get_weak_accuses bs'.db) × All (RaisedByQuorum c bs' t) events
unfolding handle_weak_accuse get_weak_accuses
handle_weak_accuse-quorum c now t bs bs' msg events e v run = by_cases (ground arith)
  where
    accuses' : Map ℕ WeakAccuse
    accuses' = insert msg.node_id msg (drop_expired now (get_weak_accuses bs.db))

    kept : msg.term ≡ t → OfTerm t accuses'
    kept s =
        insert-OfTerm t msg (drop_expired now (get_weak_accuses bs.db)) s
          (drop_expired-OfTerm t now (get_weak_accuses bs.db) v)

    by_cases :
        ((bs'.db.weak_accuses ≡ bs.db.weak_accuses)
            × (events ≡ [] ⊎ events ≡ need_sync_up msg.node_id ∷ []))
          ⊎ ((msg.term ≡ t)
              × (bs'.db.weak_accuses ≡ some accuses')
              × ((events ≡ [])
                  ⊎ ((events ≡ new_strong_accuse (record { weak_accuses = accuses' }) ∷ [])
                      × (c.accuse_quorum_n ≤ length accuses'))))
        → OfTerm t (get_weak_accuses bs'.db) × All (RaisedByQuorum c bs' t) events
    by_cases (inl (same, inl n)) = (rw same v, rw n tt)
    by_cases (inl (same, inr n)) = (rw same v, rw n (tt, tt))
    by_cases (inr (s, stored, inl n)) = (rw stored (kept s), rw n tt)
    by_cases (inr (s, stored, inr (n, q))) = (rw stored (kept s), rw n ((q, kept s, stored), tt))

accuse_term-OfTerm :
    (t : ℕ) (sa : StrongAccuse)
    → OfTerm t sa.weak_accuses
    → 0 < length sa.weak_accuses
    → accuse_term sa ≡ some t
unfolding accuse_term first_term
accuse_term-OfTerm t sa v n = by_cases sa.weak_accuses v n
  where
    by_cases : (m : Map ℕ WeakAccuse) → OfTerm t m → 0 < length m → first_term m ≡ some t
    by_cases [] w l = elim l [ ]
    by_cases ((k, a) ∷ m) w l = ap some w.0.0

-- Where a strong accuse has a term, the node has one, and the handler does not panic: an accuse of
-- at least the node's term takes it to the term above the accused one, without a block of the
-- round, a weak accuse or a cached message of the accused term, and changes nothing when it comes
-- again; one of a lower term changes nothing.
pub handle_strong_accuse-term :
    (bs bs' : BlockStore) (msg : StrongAccuse) (t node_term : ℕ) (events : List Event)
    → accuse_term msg ≡ some t
    → bs.db.term ≡ some node_term
    → handle_strong_accuse bs msg ≡ some (bs', events)
    → (node_term ≤ t
        → (bs'.db.term ≡ some (t + 1))
          × (bs'.db.fresh ≡ none)
          × (bs'.db.weak_accuses ≡ none)
          × (lookup t bs'.prepare_cache ≡ none)
          × (lookup t bs'.commit_cache ≡ none)
          × (handle_strong_accuse bs' msg ≡ some (bs', [])))
      × (t < node_term → (bs' ≡ bs) × (events ≡ []))
unfolding handle_strong_accuse set_node_term
handle_strong_accuse-term bs bs' msg t node_term events a n run = (
  λ l. (
    ground arith,
    ground arith,
    ground arith,
    rw (gone_prepares l, lookup-delete t t bs.prepare_cache, beq_refl t) refl,
    rw (gone_commits l, lookup-delete t t bs.commit_cache, beq_refl t) refl,
    ground arith,
  ),
  λ l. (ground arith, ground arith),
)
  where
    gone_prepares : node_term ≤ t → bs'.prepare_cache ≡ delete t bs.prepare_cache
    gone_prepares l = ground arith

    gone_commits : node_term ≤ t → bs'.commit_cache ≡ delete t bs.commit_cache
    gone_commits l = ground arith

-- Where the stored accuses are of the node's term and the accuse quorum is not 0, the weak accuse
-- that raises a strong one takes the node to the next term: the node itself takes that strong
-- accuse, if the next term is an int64.
pub handle_weak_accuse-next_term :
    (c : Cluster) (now t : ℕ) (bs bs' : BlockStore) (msg : WeakAccuse) (sa : StrongAccuse)
    → bs.db.term ≡ some t
    → OfTerm t (get_weak_accuses bs.db)
    → t + 1 < int64_limit
    → 0 < c.accuse_quorum_n
    → handle_weak_accuse c now bs msg ≡ some (bs', new_strong_accuse sa ∷ [])
    → (bs'' : BlockStore) × (handle_strong_accuse bs' sa
        ≡ some (bs'', new_term (t + 1) ∷ strong_accuse_processed sa ∷ []))
      × (bs''.db.term ≡ some (t + 1))
handle_weak_accuse-next_term c now t bs bs' msg sa e v fits some_quorum run =
    let raised =
      (handle_weak_accuse-quorum c now t bs bs' msg (new_strong_accuse sa ∷ []) e v run).1.0 in
    let of_term : accuse_term sa ≡ some t =
      accuse_term-OfTerm t sa raised.1 (omega (arith, raised.0, some_quorum)) in
    by_cases of_term (Option-cases (handle_strong_accuse bs' sa))
  where
    same_term : bs'.db.term ≡ some t
    same_term = unfold handle_weak_accuse in ground arith

    the_events :
        (bs'' : BlockStore) (events : List Event)
        → accuse_term sa ≡ some t
        → handle_strong_accuse bs' sa ≡ some (bs'', events)
        → events ≡ new_term (t + 1) ∷ strong_accuse_processed sa ∷ []
    the_events bs'' events of_term r =
        unfold handle_strong_accuse set_node_term in ground (arith, same_term)

    taken : accuse_term sa ≡ some t → handle_strong_accuse bs' sa ≡ none → ⊥
    taken of_term n = unfold handle_strong_accuse set_node_term in ground (arith, same_term)

    by_cases :
        accuse_term sa ≡ some t
        → (handle_strong_accuse bs' sa ≡ none)
          ⊎ ((r : BlockStore × List Event) × (handle_strong_accuse bs' sa ≡ some r))
        → (bs'' : BlockStore) × (handle_strong_accuse bs' sa
            ≡ some (bs'', new_term (t + 1) ∷ strong_accuse_processed sa ∷ []))
          × (bs''.db.term ≡ some (t + 1))
    by_cases of_term (inl n) = absurd (taken of_term n)
    by_cases of_term (inr ((bs'', events), r)) = (
      bs'',
      r ∙ ap (λ l. some (bs'', l)) (the_events bs'' events of_term r),
      unfold handle_strong_accuse set_node_term in ground (arith, same_term),
    )
