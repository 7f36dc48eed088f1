-- ===== src/Trees/Processor.antt =====
-- `TreeQueueProcessor` of proxy/messaging/trees/queue_manager.py, and the methods of
-- `TreeQueueManager` that cancel nodes. The tasks of a tree are explicit: a task that is created takes
-- its first step later, and a task that is cancelled learns it at its next step. Between two steps of a
-- task, any other call may come. The callbacks that notify the chat change nothing here.
use dvk_claude.Common.{
  ℕ, ◌+◌, String, Bool, true, false, not, Option, none, some, List, [], ◌∷◌, ◌++◌, ◌=?◌, is_empty,
  any, keep, map, member, ◌&&◌, if◌then◌else◌,
}
use dvk_claude.Table.{find}
use dvk_claude.Result.{Result, ok, err}
use dvk_claude.Trees.{
  SnapshotQueue, put, get, remove_if_present, MessageState, error, Incoming, Node, Tree, get_node,
  has_node, add_node, is_final, update_state, fail_node, set_node_error_sync, set_processing_state,
  clear_current_node, is_current_node, put_queue, drain_queue, reset_processing_state,
}

-- `begun` tasks are in the processor.
pub record Task : Type 0 where
  pub number : ℕ
  pub node_id : String
  pub begun : Bool
  pub cancelled : Bool

-- A tree with its live tasks, the number of the next one, and the nodes that were started, in order.
pub record Run : Type 0 where
  pub tree : Tree
  pub tasks : List Task
  pub next : ℕ
  pub started : List String

abbrev pub new_run : Tree → Run
new_run tree = record { tree = tree; tasks = []; next = 0; started = [] }

abbrev pub with_tree : (Tree → Tree) → Run → Run
with_tree f r = record r { tree = f r.tree }

abbrev pub has_number : ℕ → Task → Bool
has_number n t = t.number =? n

-- `asyncio.create_task(self.process_node(...))`, if the node is there.
unfoldable pub start : String → Run → Run
unfolding find
start id r =
    if has_node id r.tree
    then record r {
      tree = record r.tree { current_task = some r.next };
      tasks =
          r.tasks
          ++ record { number = r.next; node_id = id; begun = false; cancelled = false } ∷ [];
      next = r.next + 1;
      started = r.started ++ id ∷ [];
    }
    else r

abbrev pub after_get : Run → Option (String × SnapshotQueue) → Run
after_get r none = with_tree (set_processing_state none false) r
after_get r (some (id, q)) =
    if is_empty id
    then with_tree (λ t. set_processing_state none false (record t { queue = q })) r
    else start id (with_tree (λ t. set_processing_state (some id) true (record t { queue = q })) r)

-- `_process_next`
unfoldable pub process_next : Run → Run
unfolding start
process_next r = after_get r (get r.tree.queue)

-- `enqueue_and_start`: was the node queued?
unfoldable pub enqueue_and_start : String → Run → Bool × Run
unfolding start put
enqueue_and_start id r =
    if r.tree.is_processing
    then (true, with_tree (put_queue id) r)
    else (false, start id (with_tree (set_processing_state (some id) true) r))

abbrev pub is_live : ℕ → Run → Bool
is_live n r = any (has_number n) r.tasks

abbrev pub drop_task : ℕ → Run → Run
drop_task n r = record r { tasks = keep (λ t. not (has_number n t)) r.tasks }

abbrev pub set_task : ℕ → (Task → Task) → Run → Run
set_task n f r = record r { tasks = map (λ t. if has_number n t then f t else t) r.tasks }

abbrev pub cancel_number : Option ℕ → Run → Bool × Run
cancel_number none r = (false, r)
cancel_number (some n) r =
    if is_live n r then (true, set_task n (λ t. record t { cancelled = true }) r) else (false, r)

-- `cancel_current_task`
unfoldable pub cancel_current : Run → Bool × Run
unfolding any
cancel_current r = cancel_number r.tree.current_task r

abbrev pub find_task : ℕ → List Task → Option Task
find_task n [] = none
find_task n (t ∷ ts) = let rest = find_task n ts in if has_number n t then some t else rest

abbrev pub is_error : Option Node → Bool
is_error none = false
is_error (some n) = elim n.state [ error ↦ true | _ ↦ false ]

-- The first step of a task. One that was cancelled before it never enters `process_node`.
abbrev pub begin_task : Option Task → Run → Run
begin_task none r = r
begin_task (some t) r =
    if t.begun
    then r
    else if t.cancelled
    then drop_task t.number r
    else if is_error (get_node t.node_id r.tree)
    then process_next (drop_task t.number r)
    else set_task t.number (λ u. record u { begun = true }) r

-- How the processor of a task ends.
pub data Ending : Type 0 where
  returns : Ending
  fails : String → Ending
  is_cancelled : Ending

abbrev pub note_failure : ℕ → Ending → String → Tree → Tree
note_failure now (fails message) id tree = update_state now id error none (some message) tree
note_failure now _ id tree = tree

-- The rest of `process_node` behind its processor, which does not wait.
abbrev pub end_task : ℕ → Ending → Option Task → Run → Run
end_task now ending none r = r
end_task now ending (some t) r =
    if t.begun
    then process_next (
        drop_task t.number
          (with_tree (λ tree. clear_current_node (note_failure now ending t.node_id tree)) r))
    else r

-- `cancel_node`
unfoldable pub cancel_node : ℕ → String → Run → Run
unfolding find cancel_current remove_if_present set_node_error_sync
cancel_node now id r = elim (get_node id r.tree) [
  | none ↦ r
  | some n ↦
      if is_final n.state
      then r
      else with_tree
          (λ t.
            set_node_error_sync now id "Cancelled by user"
              (record t { queue = (remove_if_present id t.queue).1 }))
          (if is_current_node id r.tree then (cancel_current r).1 else r)
]

-- The node at work, unless it is final: its identifier, if it was marked.
abbrev pub fail_found : ℕ → String → Option Node → Tree → List String × Tree
fail_found now id none tree = ([], tree)
fail_found now id (some n) tree =
    if is_final n.state
    then ([], tree)
    else (id ∷ [], set_node_error_sync now id "Cancelled by user" tree)

abbrev pub fail_named : ℕ → Option String → Tree → List String × Tree
fail_named now none tree = ([], tree)
fail_named now (some id) tree =
    if is_empty id then ([], tree) else fail_found now id (get_node id tree) tree

abbrev pub fail_current : ℕ → Tree → List String × Tree
fail_current now tree = fail_named now tree.current_node_id tree

-- A node that is open and was not cancelled just now is marked.
abbrev pub sweep_node : ℕ → List String → Node → Node
sweep_node now cancelled_ids n =
    if not (is_final n.state) && not (member n.node_id cancelled_ids)
    then fail_node now "Stale task cleaned up" n
    else n

abbrev pub sweep : ℕ → List String → Tree → Tree
sweep now cancelled_ids tree = record tree { nodes = map (sweep_node now cancelled_ids) tree.nodes }

-- What is done under the lock, once the task was told.
abbrev pub close_tree : ℕ → List String × Tree → List String × Tree
close_tree now (current, tree) =
    let (queued, drained) = drain_queue now tree in
    let cancelled_ids = current ++ queued in
    (cancelled_ids, reset_processing_state (sweep now cancelled_ids drained))

-- `cancel_tree`, with the identifiers of the nodes that it returns.
unfoldable pub cancel_tree : ℕ → Run → List String × Run
unfolding cancel_current drain_queue set_node_error_sync find member
cancel_tree now r =
    let (was_live, told) = cancel_current r in
    let (cancelled_ids, tree) =
      close_tree now (if was_live then fail_current now told.tree else ([], told.tree)) in
    (cancelled_ids, record told { tree = tree })

-- A call of the manager, or a step of a task.
pub data Event : Type 0 where
  adds : ℕ → String → Incoming → String → String → Event
  enqueues : String → Event
  begins : ℕ → Event
  ends : ℕ → ℕ → Ending → Event
  marks : ℕ → String → MessageState → Option String → Option String → Event
  cancels : ℕ → String → Event
  cancels_tree : ℕ → Event

abbrev pub added : Run → Result (Node × Tree) → Run
added r (ok (n, tree)) = record r { tree = tree }
added r (err e) = r

unfoldable pub step : Event → Run → Run
unfolding process_next enqueue_and_start cancel_node cancel_tree add_node update_state keep
step (adds now id incoming status parent) r =
    added r (add_node now id incoming status parent r.tree)
step (enqueues id) r = (enqueue_and_start id r).1
step (begins n) r = begin_task (find_task n r.tasks) r
step (ends n now ending) r = end_task now ending (find_task n r.tasks) r
step (marks now id state session message) r =
    with_tree (update_state now id state session message) r
step (cancels now id) r = cancel_node now id r
step (cancels_tree now) r = (cancel_tree now r).1

unfoldable pub steps : List Event → Run → Run
unfolding step
steps [] r = r
steps (e ∷ es) r = steps es (step e r)
