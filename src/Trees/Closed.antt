-- ===== src/Trees/Closed.antt =====
-- What `cancel_tree` leaves, in whatever state the tree was.
use dvk_claude.Common.{
  ℕ, String, ◌≡◌, refl, Bool, true, false, ◌||◌, Option, none, some, List, [], ◌∷◌, ◌++◌, map,
  member, ◌==◌, is_empty, Bool-cases, inl, inr, arith, if◌then◌else◌, eq_iff, on_branches, sym, ◌∙◌,
}
use dvk_claude.Common.All.{All, All-mono}
use dvk_claude.Table.{update}
use dvk_claude.Trees.{
  Node, node_key, Tree, get_node, has_node, is_final, fail_node, set_node_error_sync, mark_all,
  drain_queue,
}
use dvk_claude.Trees.Processor.{
  Run, fail_found, fail_named, fail_current, sweep_node, close_tree, cancel_current, cancel_tree,
}

-- The nodes of these identifiers are final.
abbrev AreMarked : (String → Bool) → List Node → Type 0
AreMarked seen ns = All (λ n. seen n.node_id ≡ true → is_final n.state ≡ true) ns

update-AreMarked :
    (now : ℕ) (message id : String) (seen : String → Bool) (ns : List Node)
    → AreMarked seen ns
    → AreMarked (λ s. seen s || s == id) (update node_key id (fail_node now message) ns)
unfolding update
update-AreMarked now message id seen [] h = tt
update-AreMarked now message id seen (n ∷ ns) h =
    let rest = update-AreMarked now message id seen ns h.1 in
    elim (Bool-cases (n.node_id == id)) [
      | inl e ↦ rw e ((λ _. refl), rest)
      | inr e ↦ rw e ((λ k. h.0 (ground (arith, e, k))), rest)
    ]

-- A node that was handed on is the one just marked, or one of the rest.
handed_on :
    (b : Bool) (id s : String) (seen : Bool) (rest : List String)
    → (seen || member s (if b then id ∷ rest else rest)) ≡ true
    → ((seen || s == id) || member s rest) ≡ true
unfolding member
handed_on b id s true rest h = refl
handed_on true id s false rest h = elim (Bool-cases (s == id)) [
  | inl e ↦ rw e refl
  | inr e ↦ ground (arith, e, h, eq_iff s id, eq_iff id s)
]
handed_on false id s false rest h = ground (arith, h)

mark_all-AreMarked :
    (now : ℕ) (message : String) (ids : List String) (seen : String → Bool) (tree : Tree)
    → AreMarked seen tree.nodes
    → AreMarked
        (λ s. seen s || member s (mark_all now message ids tree).0)
        (mark_all now message ids tree).1.nodes
unfolding member set_node_error_sync
mark_all-AreMarked now message [] seen tree h =
    All-mono _ _ tree.nodes (λ n f k. f (ground (arith, k))) h
mark_all-AreMarked now message (id ∷ ids) seen tree h =
    All-mono _ _ _ (λ n f k. f (handed_on (has_node id tree) id n.node_id (seen n.node_id) _ k))
      (mark_all-AreMarked now message ids (λ s. seen s || s == id)
        (set_node_error_sync now id message tree)
        (update-AreMarked now message id seen tree.nodes h))

-- What is marked before the queue is drained.
Noted : List String × Tree → Type 0
Noted r = AreMarked (λ s. member s r.0) r.1.nodes

all_unmarked : (ns : List Node) → AreMarked (λ s. false) ns
all_unmarked [] = tt
all_unmarked (n ∷ ns) = ((λ k. absurd cc), all_unmarked ns)

none-AreMarked : (ns : List Node) → AreMarked (λ s. member s []) ns
unfolding member
none-AreMarked ns = all_unmarked ns

just_marked :
    (now : ℕ) (id : String) (tree : Tree)
    → Noted (id ∷ [], set_node_error_sync now id "Cancelled by user" tree)
unfolding Noted member set_node_error_sync
just_marked now id tree =
    All-mono _ _ _ (λ n f k. f (ground (arith, k, eq_iff id n.node_id, eq_iff n.node_id id)))
      (update-AreMarked now "Cancelled by user" id (λ s. false) tree.nodes
        (all_unmarked tree.nodes))

found-Noted :
    (now : ℕ) (id : String) (o : Option Node) (tree : Tree) → Noted (fail_found now id o tree)
unfolding Noted
found-Noted now id none tree = none-AreMarked tree.nodes
found-Noted now id (some n) tree =
    on_branches Noted (is_final n.state) _ _ (λ _. none-AreMarked tree.nodes)
      (λ _. just_marked now id tree)

named-Noted : (now : ℕ) (id : Option String) (tree : Tree) → Noted (fail_named now id tree)
unfolding Noted
named-Noted now none tree = none-AreMarked tree.nodes
named-Noted now (some id) tree =
    on_branches Noted (is_empty id) _ _ (λ _. none-AreMarked tree.nodes)
      (λ _. found-Noted now id (get_node id tree) tree)

member-append :
    (s : String) (xs ys : List String) → member s (xs ++ ys) ≡ (member s xs || member s ys)
unfolding member
member-append s [] ys = refl
member-append s (x ∷ xs) ys = ground (arith, member-append s xs ys)

node_swept :
    (now : ℕ) (ids : List String) (n : Node)
    → (member n.node_id ids ≡ true → is_final n.state ≡ true)
    → is_final (sweep_node now ids n).state ≡ true
node_swept now ids n h = elim (Bool-cases (is_final n.state)) [
  | inl e ↦ rw e e
  | inr e ↦ elim (Bool-cases (member n.node_id ids)) [
    | inl m ↦ let k = h m in absurd cc
    | inr m ↦ rw (e, m) refl
  ]
]

-- The sweep marks what is left.
sweep-final :
    (now : ℕ) (ids : List String) (ns : List Node)
    → AreMarked (λ s. member s ids) ns
    → All (λ n. is_final n.state ≡ true) (map (sweep_node now ids) ns)
sweep-final now ids [] h = tt
sweep-final now ids (n ∷ ns) h = (node_swept now ids n h.0, sweep-final now ids ns h.1)

-- Nothing is left to be done.
pub record Closed (r : Run) : Type 0 where
  pub nodes : All (λ n. is_final n.state ≡ true) r.tree.nodes
  pub queue : r.tree.queue.items ≡ []
  pub free : r.tree.is_processing ≡ false

close_tree-final :
    (now : ℕ) (marked : List String × Tree)
    → Noted marked
    → All (λ n. is_final n.state ≡ true) (close_tree now marked).1.nodes
unfolding drain_queue Noted
close_tree-final now (current, tree) h = sweep-final now _ _ (
    All-mono _ _ _ (λ n f k. f (sym (member-append n.node_id current _) ∙ k))
      (mark_all-AreMarked now "Cancelled by user" tree.queue.items (λ s. member s current) tree h))

-- When a tree is cancelled, in whatever state, each of its nodes is completed or an error, its queue is
-- empty, and it is marked as free.
pub cancel_tree-Closed : (now : ℕ) (r : Run) → Closed (cancel_tree now r).1
unfolding cancel_tree drain_queue Noted
cancel_tree-Closed now r =
    let (was_live, told) = cancel_current r in
    record {
      nodes =
          close_tree-final now (if was_live then fail_current now told.tree else ([], told.tree)) (
            on_branches Noted was_live (fail_current now told.tree) ([], told.tree)
              (λ _. named-Noted now told.tree.current_node_id told.tree)
              (λ _. none-AreMarked told.tree.nodes));
      queue = refl;
      free = refl;
    }
