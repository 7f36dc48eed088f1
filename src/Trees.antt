-- ===== src/Trees.antt =====
-- proxy/messaging/trees/data.py: the queue, the nodes and the tree of a conversation. What a method
-- does under the lock of its tree happens at once, since no method waits for anything else under it.
pub mod Processor
pub mod Known
pub mod Sound
pub mod Cancelled
pub mod Exclusive
pub mod Drained
pub mod Ordered
pub mod Closed
pub mod Tests
use dvk_claude.Common.{
  ℕ, String, Bool, true, false, not, ◌&&◌, ◌||◌, Option, none, some, List, [], ◌∷◌, ◌++◌, ◌==◌,
  is_some, is_empty, keep, length, map, member, if◌then◌else◌,
}
use dvk_claude.Common.Dict.{lookup, assign}
use dvk_claude.Table.{find, update, upsert}
use dvk_claude.Result.{Result, ok, err, value_error}

-- `_SnapshotQueue`: the deque, and the set of what is in it.
pub record SnapshotQueue : Type 0 where
  pub items : List String
  pub index : List String

abbrev pub empty_queue : SnapshotQueue
empty_queue = record { items = []; index = [] }

abbrev pub discard_from : String → List String → List String
discard_from item = keep (λ x. not (x == item))

unfoldable pub put : String → SnapshotQueue → SnapshotQueue
unfolding member
put item q = record {
  items = q.items ++ item ∷ [];
  index = if member item q.index then q.index else q.index ++ item ∷ [];
}

-- `get_nowait`; asyncio.QueueEmpty is `none`.
abbrev pub get_nowait : List String → List String → Option (String × SnapshotQueue)
get_nowait index [] = none
get_nowait index (item ∷ rest) =
    some (item, record { items = rest; index = discard_from item index })

abbrev pub get : SnapshotQueue → Option (String × SnapshotQueue)
get q = get_nowait q.index q.items

abbrev pub qsize : SnapshotQueue → ℕ
qsize q = length q.items

unfoldable pub remove_if_present : String → SnapshotQueue → Bool × SnapshotQueue
unfolding member keep
remove_if_present item q =
    if member item q.index
    then (true, record { items = discard_from item q.items; index = discard_from item q.index })
    else (false, q)

pub data MessageState : Type 0 where
  pending in_progress completed error : MessageState

pub record Incoming : Type 0 where
  pub text : String
  pub chat_id : String
  pub user_id : String
  pub message_id : String
  pub platform : String

pub record Node : Type 0 where
  pub node_id : String
  pub incoming : Incoming
  pub status_message_id : String
  pub state : MessageState
  pub parent_id : Option String
  pub session_id : Option String
  pub children_ids : List String
  pub created_at : ℕ
  pub completed_at : Option ℕ
  pub error_message : Option String

abbrev pub node_key : Node → String
node_key n = n.node_id

-- `current_task` is the number of a task.
pub record Tree : Type 0 where
  pub root_id : String
  pub nodes : List Node
  pub status_to_node : List (String × String)
  pub queue : SnapshotQueue
  pub is_processing : Bool
  pub current_node_id : Option String
  pub current_task : Option ℕ

abbrev pub new_tree : Node → Tree
new_tree root = record {
  root_id = root.node_id;
  nodes = root ∷ [];
  status_to_node = (root.status_message_id, root.node_id) ∷ [];
  queue = empty_queue;
  is_processing = false;
  current_node_id = none;
  current_task = none;
}

abbrev pub get_node : String → Tree → Option Node
get_node id tree = find node_key id tree.nodes

abbrev pub has_node : String → Tree → Bool
has_node id tree = is_some (get_node id tree)

abbrev pub new_node : ℕ → String → Incoming → String → Option String → Node
new_node now id incoming status parent = record {
  node_id = id;
  incoming = incoming;
  status_message_id = status;
  state = pending;
  parent_id = parent;
  session_id = none;
  children_ids = [];
  created_at = now;
  completed_at = none;
  error_message = none;
}

abbrev pub add_child : String → Node → Node
add_child id parent = record parent { children_ids = parent.children_ids ++ id ∷ [] }

-- `add_node`
unfoldable pub add_node : ℕ → String → Incoming → String → String → Tree → Result (Node × Tree)
unfolding find update upsert assign
add_node now id incoming status parent_id tree =
    let node = new_node now id incoming status (some parent_id) in
    if has_node parent_id tree
    then ok (
      node,
      record tree {
        nodes =
            update node_key parent_id (add_child id) (upsert node_key node (λ _. node) tree.nodes);
        status_to_node = assign status id tree.status_to_node;
      },
    )
    else err (value_error "the parent node is not found in the tree")

abbrev pub get_parent : String → Tree → Option Node
get_parent id tree = elim (get_node id tree) [
  | none ↦ none
  | some n ↦ elim n.parent_id [
    | none ↦ none
    | some p ↦ if is_empty p then none else get_node p tree
  ]
]

abbrev pub get_parent_session_id : String → Tree → Option String
get_parent_session_id id tree = elim (get_parent id tree) [ none ↦ none | some p ↦ p.session_id ]

abbrev pub find_node_by_status_message : String → Tree → Option Node
find_node_by_status_message status tree = elim (lookup status tree.status_to_node) [
  | none ↦ none
  | some id ↦ if is_empty id then none else get_node id tree
]

-- `if session_id: ...`, for a text that is missing or empty.
abbrev pub or_kept : Option String → Option String → Option String
or_kept none old = old
or_kept (some s) old = if is_empty s then old else some s

abbrev pub is_final : MessageState → Bool
is_final completed = true
is_final error = true
is_final _ = false

abbrev pub set_state : ℕ → MessageState → Option String → Option String → Node → Node
set_state now state session_id error_message n = record n {
  state = state;
  session_id = or_kept session_id n.session_id;
  error_message = or_kept error_message n.error_message;
  completed_at = if is_final state then some now else n.completed_at;
}

-- `update_state`
unfoldable pub update_state :
    ℕ → String → MessageState → Option String → Option String → Tree → Tree
unfolding update
update_state now id state session_id error_message tree = record tree {
  nodes = update node_key id (set_state now state session_id error_message) tree.nodes;
}

abbrev pub fail_node : ℕ → String → Node → Node
fail_node now message n = record n {
  state = error;
  error_message = some message;
  completed_at = some now;
}

-- `set_node_error_sync`
unfoldable pub set_node_error_sync : ℕ → String → String → Tree → Tree
unfolding update
set_node_error_sync now id message tree = record tree {
  nodes = update node_key id (fail_node now message) tree.nodes;
}

abbrev pub set_processing_state : Option String → Bool → Tree → Tree
set_processing_state id is_processing tree = record tree {
  is_processing = is_processing;
  current_node_id = if is_processing then id else none;
}

abbrev pub clear_current_node : Tree → Tree
clear_current_node tree = record tree { current_node_id = none }

abbrev pub is_current_node : String → Tree → Bool
is_current_node id tree = elim tree.current_node_id [ none ↦ false | some c ↦ c == id ]

abbrev pub put_queue : String → Tree → Tree
put_queue id tree = record tree { queue = put id tree.queue }

-- The nodes that are taken from the queue are marked in its order; their identifiers are handed on.
abbrev pub mark_all : ℕ → String → List String → Tree → List String × Tree
mark_all now message [] tree = ([], tree)
mark_all now message (id ∷ ids) tree =
    let rest = mark_all now message ids (set_node_error_sync now id message tree) in
    ((if has_node id tree then id ∷ rest.0 else rest.0), rest.1)

-- `drain_queue_and_mark_cancelled`, with the identifiers of the nodes that it returns.
unfoldable pub drain_queue : ℕ → Tree → List String × Tree
unfolding set_node_error_sync
drain_queue now tree =
    let marked = mark_all now "Cancelled by user" tree.queue.items tree in
    (marked.0, record marked.1 { queue = empty_queue })

abbrev pub reset_processing_state : Tree → Tree
reset_processing_state tree = record tree { is_processing = false; current_node_id = none }
