-- ===== src/Trees/Sound.antt =====
-- The steps of the tasks of a tree, which keep its marks.
use dvk_claude.Common.{
  ℕ, String, ◌≡◌, refl, sym, ap, ◌∙◌, subst, true, false, not, Option, none, some, [], ◌∷◌, inl,
  inr, keep, Bool-cases,
}
use dvk_claude.Table.{upsert}
use dvk_claude.Trees.{
  Incoming, MessageState, node_key, Tree, get_node, has_node, add_node, add_child, new_node,
  set_state, update_state, clear_current_node,
}
use dvk_claude.Trees.Processor.{
  Task, Run, has_number, process_next, drop_task, set_task, is_error, begin_task, Ending, returns,
  fails, is_cancelled, note_failure, end_task, added,
}
use dvk_claude.Trees.Known.{
  Grows-trans, Grows-update, Grows-upsert, Kept, Known, SameQueue, Sound, busy, drop_only, known_in,
  number_self, process_next-Sound, tree-Kept,
}

pub add_node-Kept :
    (now : ℕ) (id : String) (incoming : Incoming) (status parent : String) (r : Run)
    → Kept r (added r (add_node now id incoming status parent r.tree))
unfolding add_node
add_node-Kept now id incoming status parent r k ph =
    let node = new_node now id incoming status (some parent) in
    elim (Bool-cases (has_node parent r.tree)) [
      | inl e ↦ rw e (
          tree-Kept r _
            (record {
              grows =
                  Grows-trans r.tree.nodes (upsert node_key node (λ _. node) r.tree.nodes) _
                    (Grows-upsert node r.tree.nodes)
                    (Grows-update parent (add_child id)
                      (upsert node_key node (λ _. node) r.tree.nodes) (λ n. refl));
              same_queue = refl;
              same_state = refl;
            })
            k ph)
      | inr e ↦ rw e (record { known = k; phase = ph })
    ]

pub update_state-Same :
    (now : ℕ) (id : String) (state : MessageState) (session message : Option String) (tree : Tree)
    → SameQueue tree (update_state now id state session message tree)
unfolding update_state
update_state-Same now id state session message tree = record {
  grows = Grows-update id (set_state now state session message) tree.nodes (λ n. refl);
  same_queue = refl;
  same_state = refl;
}

-- The only task of a run has ended.
pub ended-Sound :
    (t : Task) (r : Run) (new : Tree)
    → r.tasks ≡ t ∷ []
    → SameQueue r.tree new
    → Known r.tree r.tree.queue.items
    → Sound (process_next (drop_task t.number (record r { tree = new })))
ended-Sound t r new n s k =
    process_next-Sound (drop_task t.number (record r { tree = new }))
      (ap (keep (λ u. not (has_number t.number u))) n ∙ drop_only t)
      (subst (λ q. Known new q.items) (sym s.same_queue)
        (known_in r.tree.nodes new.nodes r.tree.queue.items s.grows k))

pub note-Same :
    (now : ℕ) (ending : Ending) (id : String) (tree : Tree)
    → SameQueue tree (clear_current_node (note_failure now ending id tree))
note-Same now (fails message) id tree =
    let s = update_state-Same now id MessageState.error none (some message) tree in
    record { grows = s.grows; same_queue = s.same_queue; same_state = s.same_state }
note-Same now returns id tree = record { grows = λ i h. h; same_queue = refl; same_state = refl }
note-Same now is_cancelled id tree = record {
  grows = λ i h. h;
  same_queue = refl;
  same_state = refl;
}

pub same-Kept : (r : Run) → Kept r r
same-Kept r k ph = record { known = k; phase = ph }

pub end_found-Kept :
    (now : ℕ) (ending : Ending) (t : Task) (r : Run)
    → r.tasks ≡ t ∷ []
    → Kept r (end_task now ending (some t) r)
end_found-Kept now ending t r n k ph = elim (Bool-cases t.begun) [
  | inl b ↦ rw b (ended-Sound t r _ n (note-Same now ending t.node_id r.tree) k)
  | inr b ↦ rw b (same-Kept r k ph)
]

pub begun_of :
    (t : Task) (r : Run)
    → r.tasks ≡ t ∷ []
    → (set_task t.number (λ u. record u { begun = true }) r).tasks ≡ record t { begun = true } ∷ []
begun_of t r n = rw (n, number_self t) refl

pub begin_found-Sound :
    (t : Task) (r : Run)
    → r.tasks ≡ t ∷ []
    → r.tree.is_processing ≡ true
    → (t.begun ≡ false → t.cancelled ≡ false)
    → Known r.tree r.tree.queue.items
    → Sound (begin_task (some t) r)
begin_found-Sound t r n p c k = elim (Bool-cases t.begun) [
  | inl b ↦ rw b (same-Kept r k (busy t n p c))
  | inr b ↦
      rw (b, c b)
        (elim (Bool-cases (is_error (get_node t.node_id r.tree))) [
          | inl e ↦ rw e (
              ended-Sound t r r.tree n
                (record { grows = λ i h. h; same_queue = refl; same_state = refl }) k)
          | inr e ↦ rw e (record {
            known = k;
            phase = busy (record t { begun = true }) (begun_of t r n) p (λ x. absurd cc);
          })
        ])
]
