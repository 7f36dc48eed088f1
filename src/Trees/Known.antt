-- ===== src/Trees/Known.antt =====
-- Runs of a tree whose queue is known, and how they go on.
use dvk_claude.Common.{
  String, ◌≡◌, refl, sym, ap, subst, Bool, true, false, not, some, List, [], ◌∷◌, ◌++◌, inl, inr,
  eq_iff, arith, is_empty, is_some, any, keep, map, Bool-cases,
}
use dvk_claude.Common.All.{All, All-mono, All-append}
use dvk_claude.Table.{find, update, upsert}
use dvk_claude.Table.Laws.{find-update, find-append}
use dvk_claude.Trees.{
  put, get_nowait, Node, node_key, Tree, has_node, set_processing_state, is_current_node,
}
use dvk_claude.Trees.Processor.{
  Task, Run, with_tree, has_number, start, after_get, process_next, enqueue_and_start, Event,
  enqueues, cancels, cancels_tree, step,
}

-- A call that keeps a tree in order: a node that is enqueued is there, with a name; the task that a node is cancelled
-- with has taken its first step; and a tree is cancelled when no task is live.
abbrev pub Calm : Event → Run → Type 0
Calm (enqueues id) r = (has_node id r.tree ≡ true) × (is_empty id ≡ false)
Calm (cancels now id) r = is_current_node id r.tree ≡ true → any (λ t. not t.begun) r.tasks ≡ false
Calm (cancels_tree now) r = r.tasks ≡ []
Calm _ r = Unit {0}

abbrev pub AllCalm : List Event → Run → Type 0
AllCalm [] r = Unit {0}
AllCalm (e ∷ es) r = Calm e r × AllCalm es (step e r)

-- Nothing is live and nothing is queued, or one task is live, which has begun if it is cancelled.
pub data Phase (is_processing : Bool) (items : List String) (tasks : List Task) : Type 0 where
  idle : tasks ≡ [] → is_processing ≡ false → items ≡ [] → Phase is_processing items tasks
  busy :
      (t : Task)
      → tasks ≡ t ∷ []
      → is_processing ≡ true
      → (t.begun ≡ false → t.cancelled ≡ false)
      → Phase is_processing items tasks

abbrev pub Known : Tree → List String → Type 0
Known tree = All (λ id. (has_node id tree ≡ true) × (is_empty id ≡ false))

pub record Sound (r : Run) : Type 0 where
  pub known : Known r.tree r.tree.queue.items
  pub phase : Phase r.tree.is_processing r.tree.queue.items r.tasks

-- Every node of the first list is in the second.
abbrev pub Grows : List Node → List Node → Type 0
Grows ns ms =
    (id : String) → is_some (find node_key id ns) ≡ true → is_some (find node_key id ms) ≡ true

pub Grows-update :
    (k : String) (f : Node → Node) (ns : List Node)
    → ((n : Node) → node_key (f n) ≡ node_key n)
    → Grows ns (update node_key k f ns)
Grows-update k f ns keeps id h = ground (arith, h, find-update node_key id k f ns keeps)

-- A node in the place of another with its identifier.
pub Grows-replace :
    (m : Node) (ns : List Node) → Grows ns (update node_key (node_key m) (λ _. m) ns)
unfolding find update
Grows-replace m [] id h = h
Grows-replace m (n ∷ ns) id h = ground (
  arith,
  h,
  Grows-replace m ns id,
  eq_iff (node_key n) (node_key m),
  eq_iff (node_key n) id,
  eq_iff (node_key m) id,
)

pub Grows-trans : (ns ms ls : List Node) → Grows ns ms → Grows ms ls → Grows ns ls
Grows-trans ns ms ls g h id x = h id (g id x)

pub Grows-append : (n : Node) (ns : List Node) → Grows ns (ns ++ n ∷ [])
Grows-append n ns id h = ground (arith, h, find-append node_key id n ns)

pub Grows-map :
    (f : Node → Node) (ns : List Node)
    → ((n : Node) → node_key (f n) ≡ node_key n)
    → Grows ns (map f ns)
unfolding find
Grows-map f [] keeps id h = h
Grows-map f (n ∷ ns) keeps id h = ground (arith, h, keeps n, Grows-map f ns keeps id)

pub known_in :
    (ns ms : List Node) (ids : List String)
    → Grows ns ms
    → All (λ id. (is_some (find node_key id ns) ≡ true) × (is_empty id ≡ false)) ids
    → All (λ id. (is_some (find node_key id ms) ≡ true) × (is_empty id ≡ false)) ids
known_in ns ms ids g = All-mono _ _ ids (λ x h. (g x h.0, h.1))

pub number_self : (t : Task) → has_number t.number t ≡ true
number_self t = ground arith

pub drop_only : (t : Task) → keep (λ u. not (has_number t.number u)) (t ∷ []) ≡ []
unfolding keep
drop_only t = rw (number_self t) refl

-- The node that a run without tasks starts.
pub start-Sound :
    (id : String) (r : Run)
    → r.tasks ≡ []
    → r.tree.is_processing ≡ true
    → has_node id r.tree ≡ true
    → Known r.tree r.tree.queue.items
    → Sound (start id r)
unfolding start
start-Sound id r n p h k = rw h (record {
  known = k;
  phase =
      busy (record { number = r.next; node_id = id; begun = false; cancelled = false })
        (ap
          (λ ts.
            ts ++ record { number = r.next; node_id = id; begun = false; cancelled = false } ∷ [])
          n)
        p (λ _. refl);
})

pub after_get-Sound :
    (index items : List String) (r : Run)
    → r.tasks ≡ []
    → Known r.tree items
    → r.tree.queue.items ≡ items
    → Sound (after_get r (get_nowait index items))
after_get-Sound index [] r n k q = record {
  known = subst (Known r.tree) (sym q) tt;
  phase = idle n refl q;
}
after_get-Sound index (id ∷ rest) r n k q = rw k.0.1 (start-Sound id _ n refl k.0.0 k.1)

pub process_next-Sound :
    (r : Run) → r.tasks ≡ [] → Known r.tree r.tree.queue.items → Sound (process_next r)
unfolding process_next
process_next-Sound r n k = after_get-Sound r.tree.queue.index r.tree.queue.items r n k refl

-- The two parts of `Sound` for a run, as arguments that can be matched on.
abbrev pub Kept : Run → Run → Type 0
Kept r new =
    Known r.tree r.tree.queue.items
    → Phase r.tree.is_processing r.tree.queue.items r.tasks
    → Sound new

pub enqueue-Kept :
    (id : String) (r : Run)
    → (has_node id r.tree ≡ true) × (is_empty id ≡ false)
    → Kept r (enqueue_and_start id r).1
unfolding enqueue_and_start put
enqueue-Kept id r h k (idle n p q) =
    rw p (start-Sound id (with_tree (set_processing_state (some id) true) r) n refl h.0 k)
enqueue-Kept id r h k (busy t n p c) = rw p (record {
  known = All-append _ r.tree.queue.items (id ∷ []) k (h, tt);
  phase = busy t n refl c;
})

-- A tree may change in its nodes, which are kept, and in its current node.
pub record SameQueue (old new : Tree) : Type 0 where
  pub grows : Grows old.nodes new.nodes
  pub same_queue : new.queue ≡ old.queue
  pub same_state : new.is_processing ≡ old.is_processing

pub tree-Kept : (r : Run) (new : Tree) → SameQueue r.tree new → Kept r (record r { tree = new })
tree-Kept r new s k ph = record {
  known =
      subst (λ q. Known new q.items) (sym s.same_queue)
        (known_in r.tree.nodes new.nodes r.tree.queue.items s.grows k);
  phase =
      subst (λ q. Phase new.is_processing q.items r.tasks) (sym s.same_queue)
        (subst (λ b. Phase b r.tree.queue.items r.tasks) (sym s.same_state) ph);
}

pub Grows-upsert : (m : Node) (ns : List Node) → Grows ns (upsert node_key m (λ _. m) ns)
unfolding upsert
Grows-upsert m ns = elim (Bool-cases (is_some (find node_key (node_key m) ns))) [
  | inl e ↦ rw e (Grows-replace m ns)
  | inr e ↦ rw e (Grows-append m ns)
]
