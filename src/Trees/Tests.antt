-- ===== src/Trees/Tests.antt =====
-- Histories of a tree at concrete inputs.
use dvk_claude.Common.{
  ◌≤◌, String, ◌≡◌, refl, true, not, none, some, List, [], ◌∷◌, ◌++◌, ◌=?◌, length,
}
use dvk_claude.Trees.{Incoming, Node, new_tree, new_node, completed}
use dvk_claude.Trees.Processor.{
  Run, new_run, Event, adds, enqueues, begins, ends, marks, cancels, cancels_tree, returns,
  is_cancelled, step, steps, cancel_tree,
}
use dvk_claude.Trees.Known.{AllCalm}
use dvk_claude.Trees.Exclusive.{steps-exclusive}
use dvk_claude.Trees.Drained.{work, steps_left, AtRest, work-drains}
use dvk_claude.Trees.Ordered.{steps-FirstInFirstOut}
use dvk_claude.Trees.Closed.{Closed, cancel_tree-Closed}

abbrev message : String → Incoming
message id = record {
  text = "hello";
  chat_id = "c";
  user_id = "u";
  message_id = id;
  platform = "telegram";
}

abbrev root : Node
root = new_node 0 "m1" (message "m1") "s1" none

abbrev fresh : Run
fresh = new_run (new_tree root)

-- Two replies are queued behind the root, whose task ends.
abbrev replies : List Event
replies =
    enqueues "m1"
    ∷ begins 0
    ∷ adds 1 "m2" (message "m2") "s2" "m1"
    ∷ enqueues "m2"
    ∷ adds 2 "m3" (message "m3") "s3" "m1"
    ∷ enqueues "m3"
    ∷ marks 3 "m1" completed (some "session") none
    ∷ ends 0 4 returns
    ∷ []

replies-AllCalm : AllCalm replies fresh
unfolding step
replies-AllCalm = ((refl, refl), (tt, (tt, ((refl, refl), (tt, ((refl, refl), (tt, (tt, tt))))))))

-- The task of the first reply is created.
replies_started : (steps replies fresh).started ≡ "m1" ∷ "m2" ∷ []
unfolding steps
replies_started = refl

steps-exclusive_example :
    (length (steps replies fresh).tasks ≤ 1)
    × ((steps replies fresh).tree.is_processing ≡ not (length (steps replies fresh).tasks =? 0))
steps-exclusive_example = steps-exclusive replies root replies-AllCalm

work-drains_example :
    AtRest
      ((steps replies fresh).started ++ (steps replies fresh).tree.queue.items)
      (work (steps_left (steps replies fresh)) (steps replies fresh))
work-drains_example = work-drains replies root replies-AllCalm

steps-FirstInFirstOut_example :
    (steps replies fresh).started ++ (steps replies fresh).tree.queue.items
    ≡ "m1" ∷ "m2" ∷ "m3" ∷ []
steps-FirstInFirstOut_example =
    steps-FirstInFirstOut replies root replies-AllCalm
      (refl, (refl, (refl, (refl, (refl, (refl, (refl, (refl, tt))))))))

cancel_tree-Closed_example : Closed (cancel_tree 9 (steps replies fresh)).1
cancel_tree-Closed_example = cancel_tree-Closed 9 (steps replies fresh)

-- A tree is cancelled, a new message comes before the cancelled task has ended, and a second one after:
-- the end of the cancelled task marks the tree as free while the task of the first message is live.
abbrev overtaken : List Event
overtaken =
    enqueues "m1"
    ∷ begins 0
    ∷ cancels_tree 1
    ∷ adds 2 "m2" (message "m2") "s2" "m1"
    ∷ enqueues "m2"
    ∷ begins 1
    ∷ ends 0 3 is_cancelled
    ∷ adds 4 "m3" (message "m3") "s3" "m1"
    ∷ enqueues "m3"
    ∷ []

two_live : length (steps overtaken fresh).tasks ≡ 2
unfolding steps
two_live = refl

-- A task that is cancelled before its first step leaves its tree marked as processing.
abbrev too_early : List Event
too_early = enqueues "m1" ∷ cancels 1 "m1" ∷ begins 0 ∷ []

stuck : (steps too_early fresh).tree.is_processing ≡ true
unfolding steps
stuck = refl
