-- ===== src/Trees/Drained.antt =====
-- A tree that is left alone works off its queue, in the order of the queue.
use mathlib.Core.List.{append_assoc, append-nil}
use dvk_claude.Common.{
  ℕ, zero, suc, ◌+◌, ◌*◌, ◌≤◌, String, ◌≡◌, refl, sym, ap, ◌∙◌, subst, true, false, not, some, List,
  [], ◌∷◌, ◌++◌, inl, inr, arith, length, keep, Bool-cases, if◌then◌else◌,
}
use dvk_claude.Trees.{
  get_nowait, discard_from, Node, new_tree, get_node, has_node, set_processing_state,
  clear_current_node,
}
use dvk_claude.Trees.Processor.{
  Task, Run, new_run, with_tree, has_number, start, after_get, process_next, drop_task, find_task,
  is_error, returns, Event, begins, ends, step, steps,
}
use dvk_claude.Trees.Known.{Known, Phase, idle, busy, Sound, Calm, AllCalm, number_self, drop_only}
use dvk_claude.Trees.Sound.{begun_of}
use dvk_claude.Trees.Exclusive.{step-Sound, steps-Sound, new_run-Sound}

-- The next step of the live task: its first one, or the end of its processor.
abbrev pub next_step : Task → Event
next_step t = if t.begun then ends t.number 0 returns else begins t.number

abbrev pub advance : List Task → Run → Run
advance [] r = r
advance (t ∷ ts) r = step (next_step t) r

-- Steps of the live tasks, while no other call comes.
unfoldable pub work : ℕ → Run → Run
unfolding step
work zero r = r
work (suc n) r = work n (advance r.tasks r)

abbrev pub task_steps : List Task → ℕ
task_steps [] = 0
task_steps (t ∷ ts) = if t.begun then 1 else 2

-- Two steps for each node that is queued, and those of the live task.
abbrev pub steps_left : Run → ℕ
steps_left r = 2 * length r.tree.queue.items + task_steps r.tasks

-- What a run has started and will start.
abbrev pub order : Run → List String
order r = r.started ++ r.tree.queue.items

pub record Nearer (n : ℕ) (o : List String) (new : Run) : Type 0 where
  pub fewer : steps_left new ≤ n
  pub same_order : order new ≡ o

start-Nearer :
    (id : String) (r : Run)
    → r.tasks ≡ []
    → has_node id r.tree ≡ true
    → Nearer (2 + 2 * length r.tree.queue.items) (r.started ++ id ∷ r.tree.queue.items) (start id r)
unfolding start
start-Nearer id r n h =
    rw (h, n)
      (record {
        fewer = omega arith;
        same_order = append_assoc r.started (id ∷ []) r.tree.queue.items;
      })

after_get-Nearer :
    (index items : List String) (r : Run)
    → r.tasks ≡ []
    → Known r.tree items
    → r.tree.queue.items ≡ items
    → Nearer (2 * length items) (r.started ++ items) (after_get r (get_nowait index items))
after_get-Nearer index [] r n k q = rw (n, q) (record { fewer = omega arith; same_order = refl })
after_get-Nearer index (id ∷ rest) r n k q =
    let s =
      start-Nearer id
        (with_tree
          (λ t.
            set_processing_state (some id) true
              (record t { queue = record { items = rest; index = discard_from id index } }))
          r)
        n k.0.0 in
    rw k.0.1 (record { fewer = omega (arith, s.fewer); same_order = s.same_order })

pub process_next-Nearer :
    (r : Run)
    → r.tasks ≡ []
    → Known r.tree r.tree.queue.items
    → Nearer (2 * length r.tree.queue.items) (order r) (process_next r)
unfolding process_next
process_next-Nearer r n k = after_get-Nearer r.tree.queue.index r.tree.queue.items r n k refl

pub find_self : (t : Task) → find_task t.number (t ∷ []) ≡ some t
find_self t = rw (number_self t) refl

begun-Nearer :
    (t : Task) (r : Run)
    → r.tasks ≡ t ∷ []
    → t.begun ≡ true
    → Known r.tree r.tree.queue.items
    → Nearer (2 * length r.tree.queue.items) (order r) (step (ends t.number 0 returns) r)
unfolding step
begun-Nearer t r e b k =
    let s =
      process_next-Nearer (drop_task t.number (with_tree clear_current_node r))
        (ap (keep (λ u. not (has_number t.number u))) e ∙ drop_only t) k in
    rw (ap (find_task t.number) e ∙ find_self t, b)
      (record { fewer = omega (arith, s.fewer); same_order = s.same_order })

pub first-Nearer :
    (t : Task) (r : Run)
    → r.tasks ≡ t ∷ []
    → t.begun ≡ false
    → t.cancelled ≡ false
    → Known r.tree r.tree.queue.items
    → Nearer (2 * length r.tree.queue.items + 1) (order r) (step (begins t.number) r)
unfolding step
first-Nearer t r e b c k =
    rw (ap (find_task t.number) e ∙ find_self t, b, c)
      (elim (Bool-cases (is_error (get_node t.node_id r.tree))) [
        | inl x ↦
            let s =
              process_next-Nearer (drop_task t.number r)
                (ap (keep (λ u. not (has_number t.number u))) e ∙ drop_only t) k in
            rw x (record { fewer = omega (arith, s.fewer); same_order = s.same_order })
        | inr x ↦ rw x (record { fewer = rw (begun_of t r e) (omega arith); same_order = refl })
      ])

Nearer-weaken : (n m : ℕ) (o : List String) (new : Run) → n ≤ m → Nearer n o new → Nearer m o new
Nearer-weaken n m o new h s = record {
  fewer = omega (arith, h, s.fewer);
  same_order = s.same_order;
}

next_step-Nearer :
    (n : ℕ) (t : Task) (r : Run)
    → r.tasks ≡ t ∷ []
    → (t.begun ≡ false → t.cancelled ≡ false)
    → Known r.tree r.tree.queue.items
    → 2 * length r.tree.queue.items + task_steps (t ∷ []) ≤ suc n
    → Nearer n (order r) (step (next_step t) r)
next_step-Nearer n t r e c k h = elim (Bool-cases t.begun) [
  | inl b ↦
      let fits = subst (λ x. 2 * length r.tree.queue.items + (if x then 1 else 2) ≤ suc n) b h in
      subst
        (λ x. Nearer n (order r) (step (if x then ends t.number 0 returns else begins t.number) r))
        (sym b) (Nearer-weaken _ n (order r) _ (omega (arith, fits)) (begun-Nearer t r e b k))
  | inr b ↦
      let fits = subst (λ x. 2 * length r.tree.queue.items + (if x then 1 else 2) ≤ suc n) b h in
      subst
        (λ x. Nearer n (order r) (step (if x then ends t.number 0 returns else begins t.number) r))
        (sym b) (Nearer-weaken _ n (order r) _ (omega (arith, fits)) (first-Nearer t r e b (c b) k))
]

-- A tree at rest has started what it was to start.
pub record AtRest (o : List String) (r : Run) : Type 0 where
  pub tasks : r.tasks ≡ []
  pub queue : r.tree.queue.items ≡ []
  pub free : r.tree.is_processing ≡ false
  pub order : r.started ≡ o

next_step-Calm : (t : Task) (r : Run) → Calm (next_step t) r
next_step-Calm t r = elim (Bool-cases t.begun) [ inl b ↦ rw b tt | inr b ↦ rw b tt ]

work-idle : (n : ℕ) (r : Run) → r.tasks ≡ [] → work n r ≡ r
unfolding work
work-idle zero r e = refl
work-idle (suc n) r e = ap (λ ts. work n (advance ts r)) e ∙ work-idle n r e

one_step_at_least : (t : Task) → 1 ≤ task_steps (t ∷ [])
one_step_at_least t = ground arith

idle-AtRest :
    (n : ℕ) (r : Run)
    → r.tasks ≡ []
    → r.tree.is_processing ≡ false
    → r.tree.queue.items ≡ []
    → AtRest (order r) (work n r)
idle-AtRest n r e p q = subst (AtRest (order r)) (sym (work-idle n r e)) (record {
  tasks = e;
  queue = q;
  free = p;
  order = sym (ap (λ items. r.started ++ items) q ∙ append-nil r.started);
})

fits :
    (r : Run) (n : ℕ) (t : Task)
    → r.tasks ≡ t ∷ []
    → steps_left r ≤ n
    → 2 * length r.tree.queue.items + task_steps (t ∷ []) ≤ n
fits r n t e h = subst (λ ts. 2 * length r.tree.queue.items + task_steps ts ≤ n) e h

-- The rest of the work, behind a step.
abbrev Rests : ℕ → Type 0
Rests n = (r : Run) → Sound r → steps_left r ≤ n → AtRest (order r) (work n r)

rest_zero :
    (r : Run)
    → Phase r.tree.is_processing r.tree.queue.items r.tasks
    → steps_left r ≤ 0
    → AtRest (order r) (work 0 r)
rest_zero r (idle e p q) h = idle-AtRest 0 r e p q
rest_zero r (busy t e p c) h = absurd (omega (arith, fits r 0 t e h, one_step_at_least t))

rest_more :
    (n : ℕ) (r : Run)
    → Rests n
    → Sound r
    → Phase r.tree.is_processing r.tree.queue.items r.tasks
    → steps_left r ≤ suc n
    → AtRest (order r) (work (suc n) r)
unfolding work
rest_more n r again s (idle e p q) h = idle-AtRest (suc n) r e p q
rest_more n r again s (busy t e p c) h =
    let near = next_step-Nearer n t r e c s.known (fits r (suc n) t e h) in
    subst (λ ts. AtRest (order r) (work n (advance ts r))) (sym e)
      (subst (λ o. AtRest o (work n (step (next_step t) r))) near.same_order
        (again (step (next_step t) r) (step-Sound (next_step t) r (next_step-Calm t r) s)
          near.fewer))

work-AtRest : (n : ℕ) → Rests n
work-AtRest zero r s h = rest_zero r s.phase h
work-AtRest (suc n) r s h = rest_more n r (work-AtRest n) s s.phase h

-- After any calm history of a new tree, the live task and the tasks behind it come to an end when no
-- further call comes: after two steps for each queued node and those of the live task, no task is live,
-- the queue is empty, the tree is free, and the nodes that were queued have been started in the order
-- of the queue.
pub work-drains :
    (es : List Event) (root : Node)
    → AllCalm es (new_run (new_tree root))
    → let r = steps es (new_run (new_tree root)) in
      AtRest (r.started ++ r.tree.queue.items) (work (steps_left r) r)
work-drains es root calm =
    let r = steps es (new_run (new_tree root)) in
    work-AtRest (steps_left r) r
      (steps-Sound es (new_run (new_tree root)) calm (new_run-Sound root)) (omega arith)
