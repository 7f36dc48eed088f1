-- ===== src/Trees/Ordered.antt =====
-- The nodes of a tree are started in the order in which they were enqueued.
use mathlib.Core.List.{append_assoc, append-nil}
use dvk_claude.Common.{
  ℕ, String, ◌≡◌, refl, sym, ap, ◌∙◌, subst, Bool, true, false, not, some, List, [], ◌∷◌, ◌++◌, inl,
  inr, keep, Bool-cases,
}
use dvk_claude.Trees.{
  put, Incoming, Node, Tree, new_tree, has_node, add_node, set_processing_state, clear_current_node,
  update_state,
}
use dvk_claude.Trees.Processor.{
  Task, Run, new_run, with_tree, has_number, start, process_next, enqueue_and_start, drop_task,
  find_task, begin_task, Ending, note_failure, end_task, Event, adds, enqueues, begins, ends, marks,
  cancels, cancels_tree, added, step, steps,
}
use dvk_claude.Trees.Known.{
  Known, known_in, Phase, idle, busy, Sound, Calm, AllCalm, SameQueue, drop_only,
}
use dvk_claude.Trees.Sound.{note-Same}
use dvk_claude.Trees.Exclusive.{find_only, step-Sound, new_run-Sound}
use dvk_claude.Trees.Drained.{order, process_next-Nearer, first-Nearer, find_self}

abbrev pub cancels_nothing : Event → Bool
cancels_nothing (cancels now id) = false
cancels_nothing (cancels_tree now) = false
cancels_nothing _ = true

abbrev pub enqueued_by : Event → List String
enqueued_by (enqueues id) = id ∷ []
enqueued_by _ = []

abbrev pub enqueued : List Event → List String
enqueued [] = []
enqueued (e ∷ es) = enqueued_by e ++ enqueued es

abbrev pub NothingCancelled : List Event → Type 0
NothingCancelled [] = Unit {0}
NothingCancelled (e ∷ es) = (cancels_nothing e ≡ true) × NothingCancelled es

start-order :
    (id : String) (r : Run)
    → has_node id r.tree ≡ true
    → order (start id r) ≡ r.started ++ id ∷ r.tree.queue.items
unfolding start
start-order id r h = rw h (append_assoc r.started (id ∷ []) r.tree.queue.items)

enqueue-order :
    (id : String) (r : Run)
    → has_node id r.tree ≡ true
    → Phase r.tree.is_processing r.tree.queue.items r.tasks
    → order (enqueue_and_start id r).1 ≡ order r ++ id ∷ []
unfolding enqueue_and_start put
enqueue-order id r h (idle n p q) = rw p (
    start-order id (with_tree (set_processing_state (some id) true) r) h
    ∙ rw q (ap (λ xs. xs ++ id ∷ []) (sym (append-nil r.started))))
enqueue-order id r h (busy t n p c) =
    rw p (sym (append_assoc r.started r.tree.queue.items (id ∷ [])))

begin-order :
    (n : ℕ) (r : Run)
    → Known r.tree r.tree.queue.items
    → Phase r.tree.is_processing r.tree.queue.items r.tasks
    → order (begin_task (find_task n r.tasks) r) ≡ order r
unfolding step
begin-order n r k (idle e p q) = ap (λ ts. order (begin_task (find_task n ts) r)) e
begin-order n r k (busy t e p c) =
    ap (λ ts. order (begin_task (find_task n ts) r)) e ∙ elim (find_only n t) [
      | inl f ↦ ap (λ o. order (begin_task o r)) f
      | inr f ↦ ap (λ o. order (begin_task o r)) f ∙ first
    ]
  where
    unbegun : t.begun ≡ false → order (begin_task (some t) r) ≡ order r
    unbegun b =
        ap (λ o. order (begin_task o r)) (sym (ap (find_task t.number) e ∙ find_self t))
        ∙ (first-Nearer t r e b (c b) k).same_order

    first : order (begin_task (some t) r) ≡ order r
    first = elim (Bool-cases t.begun) [ inl b ↦ rw b refl | inr b ↦ unbegun b ]

ended-order :
    (now : ℕ) (ending : Ending) (t : Task) (r : Run)
    → r.tasks ≡ t ∷ []
    → Known r.tree r.tree.queue.items
    → order (end_task now ending (some t) r) ≡ order r
ended-order now ending t r e k = elim (Bool-cases t.begun) [ inl b ↦ rw b ends | inr b ↦ rw b refl ]
  where
    new : Tree
    new = clear_current_node (note_failure now ending t.node_id r.tree)

    same : SameQueue r.tree new
    same = note-Same now ending t.node_id r.tree

    known : Known new new.queue.items
    known =
        subst (λ q. Known new q.items) (sym same.same_queue)
          (known_in r.tree.nodes new.nodes r.tree.queue.items same.grows k)

    ends : order (process_next (drop_task t.number (record r { tree = new }))) ≡ order r
    ends =
        (process_next-Nearer (drop_task t.number (record r { tree = new }))
          (ap (keep (λ u. not (has_number t.number u))) e ∙ drop_only t) known).same_order
        ∙ ap (λ q. r.started ++ q.items) same.same_queue

end-order :
    (now n : ℕ) (ending : Ending) (r : Run)
    → Known r.tree r.tree.queue.items
    → Phase r.tree.is_processing r.tree.queue.items r.tasks
    → order (end_task now ending (find_task n r.tasks) r) ≡ order r
end-order now n ending r k (idle e p q) =
    ap (λ ts. order (end_task now ending (find_task n ts) r)) e
end-order now n ending r k (busy t e p c) =
    ap (λ ts. order (end_task now ending (find_task n ts) r)) e ∙ elim (find_only n t) [
      | inl f ↦ ap (λ o. order (end_task now ending o r)) f
      | inr f ↦ ap (λ o. order (end_task now ending o r)) f ∙ ended-order now ending t r e k
    ]

added-order :
    (r : Run) (now : ℕ) (id : String) (incoming : Incoming) (status parent : String)
    → order (added r (add_node now id incoming status parent r.tree)) ≡ order r
unfolding add_node
added-order r now id incoming status parent = elim (Bool-cases (has_node parent r.tree)) [
  | inl e ↦ rw e refl
  | inr e ↦ rw e refl
]

step-order :
    (e : Event) (r : Run)
    → Calm e r
    → Sound r
    → cancels_nothing e ≡ true
    → order (step e r) ≡ order r ++ enqueued_by e
unfolding step update_state
step-order (adds now id incoming status parent) r calm s q =
    added-order r now id incoming status parent ∙ sym (append-nil (order r))
step-order (enqueues id) r calm s q = enqueue-order id r calm.0 s.phase
step-order (begins n) r calm s q = begin-order n r s.known s.phase ∙ sym (append-nil (order r))
step-order (ends n now ending) r calm s q =
    end-order now n ending r s.known s.phase ∙ sym (append-nil (order r))
step-order (marks now id state session message) r calm s q = sym (append-nil (order r))
step-order (cancels now id) r calm s q = absurd cc
step-order (cancels_tree now) r calm s q = absurd cc

steps-order :
    (es : List Event) (r : Run)
    → AllCalm es r
    → NothingCancelled es
    → Sound r
    → order (steps es r) ≡ order r ++ enqueued es
unfolding steps
steps-order [] r calm q s = sym (append-nil (order r))
steps-order (e ∷ es) r calm q s =
    steps-order es (step e r) calm.1 q.1 (step-Sound e r calm.0 s)
    ∙ ap (λ xs. xs ++ enqueued es) (step-order e r calm.0 s q.0)
    ∙ append_assoc (order r) (enqueued_by e) (enqueued es)

-- In a calm history of a new tree that cancels nothing, the nodes that were started and then those that
-- are queued are the nodes that were enqueued, in this order and each as often.
pub steps-FirstInFirstOut :
    (es : List Event) (root : Node)
    → AllCalm es (new_run (new_tree root))
    → NothingCancelled es
    → let r = steps es (new_run (new_tree root)) in r.started ++ r.tree.queue.items ≡ enqueued es
steps-FirstInFirstOut es root calm q =
    steps-order es (new_run (new_tree root)) calm q (new_run-Sound root)
