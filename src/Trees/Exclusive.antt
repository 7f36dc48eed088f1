-- ===== src/Trees/Exclusive.antt =====
-- At most one task of a tree is live.
use dvk_claude.Common.{
  ℕ, ◌≤◌, ◌≡◌, refl, ap, ◌∙◌, not, none, some, List, [], ◌∷◌, ◌⊎◌, inl, inr, ◌=?◌, arith, length,
  Bool-cases,
}
use dvk_claude.Trees.{Node, new_tree}
use dvk_claude.Trees.Processor.{
  Task, Run, new_run, has_number, find_task, begin_task, Ending, end_task, Event, adds, enqueues,
  begins, ends, marks, cancels, cancels_tree, step, steps,
}
use dvk_claude.Trees.Known.{Calm, AllCalm, Phase, Sound, Kept, enqueue-Kept, tree-Kept, idle, busy}
use dvk_claude.Trees.Sound.{
  add_node-Kept, update_state-Same, same-Kept, end_found-Kept, begin_found-Sound,
}
use dvk_claude.Trees.Cancelled.{cancel_node-Kept, cancel_tree-Sound}

pub find_only : (n : ℕ) (t : Task) → (find_task n (t ∷ []) ≡ none) ⊎ (find_task n (t ∷ []) ≡ some t)
find_only n t = elim (Bool-cases (has_number n t)) [
  | inl e ↦ inr (rw e refl)
  | inr e ↦ inl (rw e refl)
]

begin_task-Kept : (n : ℕ) (r : Run) → Kept r (begin_task (find_task n r.tasks) r)
begin_task-Kept n r k (idle e p q) = rw (ap (find_task n) e) (same-Kept r k (idle e p q))
begin_task-Kept n r k (busy t e p c) = elim (find_only n t) [
  | inl f ↦ rw (ap (find_task n) e ∙ f) (same-Kept r k (busy t e p c))
  | inr f ↦ rw (ap (find_task n) e ∙ f) (begin_found-Sound t r e p c k)
]

end_task-Kept :
    (now n : ℕ) (ending : Ending) (r : Run) → Kept r (end_task now ending (find_task n r.tasks) r)
end_task-Kept now n ending r k (idle e p q) = rw (ap (find_task n) e) (same-Kept r k (idle e p q))
end_task-Kept now n ending r k (busy t e p c) = elim (find_only n t) [
  | inl f ↦ rw (ap (find_task n) e ∙ f) (same-Kept r k (busy t e p c))
  | inr f ↦ rw (ap (find_task n) e ∙ f) (end_found-Kept now ending t r e k (busy t e p c))
]

pub step-Sound : (e : Event) (r : Run) → Calm e r → Sound r → Sound (step e r)
unfolding step
step-Sound (adds now id incoming status parent) r calm s =
    add_node-Kept now id incoming status parent r s.known s.phase
step-Sound (enqueues id) r calm s = enqueue-Kept id r calm s.known s.phase
step-Sound (begins n) r calm s = begin_task-Kept n r s.known s.phase
step-Sound (ends n now ending) r calm s = end_task-Kept now n ending r s.known s.phase
step-Sound (marks now id state session message) r calm s =
    tree-Kept r _ (update_state-Same now id state session message r.tree) s.known s.phase
step-Sound (cancels now id) r calm s = cancel_node-Kept now id r calm s.known s.phase
step-Sound (cancels_tree now) r calm s = cancel_tree-Sound now r calm

pub new_run-Sound : (root : Node) → Sound (new_run (new_tree root))
new_run-Sound root = record { known = tt; phase = idle refl refl refl }

pub steps-Sound : (es : List Event) (r : Run) → AllCalm es r → Sound r → Sound (steps es r)
unfolding steps
steps-Sound [] r calm s = s
steps-Sound (e ∷ es) r calm s = steps-Sound es (step e r) calm.1 (step-Sound e r calm.0 s)

at_most_one :
    (r : Run) → Sound r → (length r.tasks ≤ 1) × (r.tree.is_processing ≡ not (length r.tasks =? 0))
at_most_one r s = by_phase s.phase
  where
    by_phase :
        Phase r.tree.is_processing r.tree.queue.items r.tasks
        → (length r.tasks ≤ 1) × (r.tree.is_processing ≡ not (length r.tasks =? 0))
    by_phase (idle n p q) = rw (n, p) (omega arith, refl)
    by_phase (busy t n p c) = rw (n, p) (omega arith, refl)

-- After any calm history of a new tree, one task is live at most, and the tree is marked as processing
-- exactly if one is. In a calm history a node that is enqueued is there, the task of a node that is
-- cancelled has taken its first step, and a tree is cancelled when no task is live.
pub steps-exclusive :
    (es : List Event) (root : Node)
    → AllCalm es (new_run (new_tree root))
    → let r = steps es (new_run (new_tree root)) in
      (length r.tasks ≤ 1) × (r.tree.is_processing ≡ not (length r.tasks =? 0))
steps-exclusive es root calm =
    at_most_one _ (steps-Sound es (new_run (new_tree root)) calm (new_run-Sound root))
