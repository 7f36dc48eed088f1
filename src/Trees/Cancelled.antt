-- ===== src/Trees/Cancelled.antt =====
-- The cancellation of nodes in a tree whose tasks and marks agree.
use dvk_claude.Common.{
  ℕ, String, ◌≡◌, refl, ap, ◌∙◌, subst, Bool, true, false, not, Option, none, some, List, [], ◌∷◌,
  inl, inr, ◌==◌, arith, any, keep, map, member, Bool-cases, if◌then◌else◌,
}
use dvk_claude.Common.All.{All-mono, All-keep}
use dvk_claude.Table.{update}
use dvk_claude.Trees.{
  SnapshotQueue, remove_if_present, Node, node_key, Tree, get_node, is_final, fail_node,
  set_node_error_sync, is_current_node, drain_queue,
}
use dvk_claude.Trees.Processor.{
  Task, Run, with_tree, has_number, is_live, cancel_number, cancel_current, cancel_node,
  cancel_tree, cancels,
}
use dvk_claude.Trees.Known.{Calm, Phase, Known, Sound, Grows-update, known_in, Kept, idle, busy}
use dvk_claude.Trees.Sound.{same-Kept}

-- `cancel_current` keeps the tree, and whether a task has begun.
pub number-tree : (o : Option ℕ) (r : Run) → (cancel_number o r).1.tree ≡ r.tree
number-tree none r = refl
number-tree (some n) r = elim (Bool-cases (is_live n r)) [ inl e ↦ rw e refl | inr e ↦ rw e refl ]

pub cancelled-tree : (r : Run) → (cancel_current r).1.tree ≡ r.tree
unfolding cancel_current
cancelled-tree r = number-tree r.tree.current_task r

abbrev pub SameBegun : List Task → List Task → Type 0
SameBegun ts us = map (λ t. t.begun) us ≡ map (λ t. t.begun) ts

pub set_task-SameBegun :
    (n : ℕ) (ts : List Task)
    → SameBegun ts (map (λ t. if has_number n t then record t { cancelled = true } else t) ts)
set_task-SameBegun n [] = refl
set_task-SameBegun n (t ∷ ts) = ground (arith, set_task-SameBegun n ts)

pub number-SameBegun : (o : Option ℕ) (r : Run) → SameBegun r.tasks (cancel_number o r).1.tasks
number-SameBegun none r = refl
number-SameBegun (some n) r = elim (Bool-cases (is_live n r)) [
  | inl e ↦ rw e (set_task-SameBegun n r.tasks)
  | inr e ↦ rw e refl
]

pub cancelled-SameBegun : (r : Run) → SameBegun r.tasks (cancel_current r).1.tasks
unfolding cancel_current
cancelled-SameBegun r = number-SameBegun r.tree.current_task r

pub begun_only : (t : Task) → any (λ u. not u.begun) (t ∷ []) ≡ false → t.begun ≡ true
unfolding any
begun_only t h = ground (arith, h)

pub one_begun :
    (us : List Task) (b : Bool)
    → map (λ t. t.begun) us ≡ b ∷ []
    → (u : Task) × (us ≡ u ∷ []) × (u.begun ≡ b)
one_begun [] b h = absurd cc
one_begun (u ∷ []) b h = (u, refl, cc)
one_begun (u ∷ v ∷ us) b h = absurd cc

pub none_begun : (us : List Task) → map (λ t. t.begun) us ≡ [] → us ≡ []
none_begun [] h = refl
none_begun (u ∷ us) h = absurd cc

pub removed-Known :
    (tree : Tree) (id : String) (q : SnapshotQueue)
    → Known tree q.items
    → Known tree (remove_if_present id q).1.items
unfolding remove_if_present
removed-Known tree id q k = elim (Bool-cases (member id q.index)) [
  | inl e ↦ rw e (All-mono _ _ _ (λ x h. h.0) (All-keep _ (λ x. not (x == id)) q.items k))
  | inr e ↦ rw e k
]

pub removed-empty :
    (id : String) (q : SnapshotQueue) → q.items ≡ [] → (remove_if_present id q).1.items ≡ []
unfolding remove_if_present keep
removed-empty id q h = elim (Bool-cases (member id q.index)) [
  | inl e ↦ rw (e, h) refl
  | inr e ↦ rw e h
]

-- What `cancel_node` makes of a run whose task was told, or not.
pub failed-Sound :
    (now : ℕ) (id : String) (r told : Run)
    → told.tree ≡ r.tree
    → Known r.tree r.tree.queue.items
    → Phase r.tree.is_processing (remove_if_present id r.tree.queue).1.items told.tasks
    → Sound (
        with_tree
          (λ t.
            set_node_error_sync now id "Cancelled by user"
              (record t { queue = (remove_if_present id t.queue).1 }))
          told)
unfolding set_node_error_sync
failed-Sound now id r told e k ph = rw e (record {
  known =
      known_in r.tree.nodes (update node_key id (fail_node now "Cancelled by user") r.tree.nodes) _
        (Grows-update id (fail_node now "Cancelled by user") r.tree.nodes (λ n. refl))
        (removed-Known r.tree id r.tree.queue k);
  phase = ph;
})

pub told-Phase :
    (id : String) (r : Run)
    → any (λ t. not t.begun) r.tasks ≡ false
    → Phase r.tree.is_processing r.tree.queue.items r.tasks
    → Phase r.tree.is_processing
        (remove_if_present id r.tree.queue).1.items
        (cancel_current r).1.tasks
unfolding any
told-Phase id r b (idle n p q) =
    idle (none_begun (cancel_current r).1.tasks (cancelled-SameBegun r ∙ ap (map (λ t. t.begun)) n))
      p (removed-empty id r.tree.queue q)
told-Phase id r b (busy t n p c) =
    let (u, e, f) =
      one_begun (cancel_current r).1.tasks t.begun
        (cancelled-SameBegun r ∙ ap (map (λ t. t.begun)) n) in
    let begun = begun_only t (subst (λ ts. any (λ u. not u.begun) ts ≡ false) n b) in
    busy u e p (λ x. absurd cc)

pub untold-Phase :
    (id : String) (r : Run)
    → Phase r.tree.is_processing r.tree.queue.items r.tasks
    → Phase r.tree.is_processing (remove_if_present id r.tree.queue).1.items r.tasks
untold-Phase id r (idle n p q) = idle n p (removed-empty id r.tree.queue q)
untold-Phase id r (busy t n p c) = busy t n p c

pub cancel_node-Kept :
    (now : ℕ) (id : String) (r : Run) → Calm (cancels now id) r → Kept r (cancel_node now id r)
unfolding cancel_node
cancel_node-Kept now id r calm k ph = by_node (get_node id r.tree)
  where
    told : Run
    told = if is_current_node id r.tree then (cancel_current r).1 else r

    told-Sound : Sound (
        with_tree
          (λ t.
            set_node_error_sync now id "Cancelled by user"
              (record t { queue = (remove_if_present id t.queue).1 }))
          told)
    told-Sound = elim (Bool-cases (is_current_node id r.tree)) [
      | inl e ↦ rw e (
          failed-Sound now id r (cancel_current r).1 (cancelled-tree r) k
            (told-Phase id r (calm e) ph))
      | inr e ↦ rw e (failed-Sound now id r r refl k (untold-Phase id r ph))
    ]

    by_node :
        (o : Option Node)
        → Sound (elim o [
          | none ↦ r
          | some n ↦
              if is_final n.state
              then r
              else with_tree
                  (λ t.
                    set_node_error_sync now id "Cancelled by user"
                      (record t { queue = (remove_if_present id t.queue).1 }))
                  told
        ])
    by_node none = same-Kept r k ph
    by_node (some n) = elim (Bool-cases (is_final n.state)) [
      | inl e ↦ rw e (same-Kept r k ph)
      | inr e ↦ rw e told-Sound
    ]

pub cancel_tree-Sound : (now : ℕ) (r : Run) → r.tasks ≡ [] → Sound (cancel_tree now r).1
unfolding cancel_tree drain_queue
cancel_tree-Sound now r n = record {
  known = tt;
  phase =
      idle
        (none_begun (cancel_current r).1.tasks (cancelled-SameBegun r ∙ ap (map (λ t. t.begun)) n))
        refl refl;
}
