-- ===== src/TreeNode.antt =====
-- libraries/lib_dd/include/dd/util/util_intrusivetreenode.hpp: trees whose nodes stand inside their
-- objects. A node is its address, null is 0; the store gives each node's four pointers. A null that
-- is read is a fault, and `n` bounds the rounds of each loop.
pub mod Children
pub mod Append
pub mod Detach
pub mod Gaps
pub mod Further
pub mod Root
mod Tests
use dd_framework.Base.{
  ℕ, zero, suc, Bool, true, false, not, ◌||◌, Run, ok, fault, out_of_fuel, ◌>>=◌, ◌>>◌, require,
  ◌==◌, if◌then◌else◌, update,
}

pub record Tree : Type 0 where
  pub parent : ℕ → ℕ
  pub child : ℕ → ℕ
  pub sibling_next : ℕ → ℕ
  pub sibling_prev : ℕ → ℕ

abbrev pub null : ℕ
null = 0

-- `p->m_x = v` for a pointer that is not null.
abbrev pub set_parent : Tree → ℕ → ℕ → Tree
set_parent t p v = record t { parent = update t.parent p v }

abbrev pub set_child : Tree → ℕ → ℕ → Tree
set_child t p v = record t { child = update t.child p v }

abbrev pub set_next : Tree → ℕ → ℕ → Tree
set_next t p v = record t { sibling_next = update t.sibling_next p v }

abbrev pub set_prev : Tree → ℕ → ℕ → Tree
set_prev t p v = record t { sibling_prev = update t.sibling_prev p v }

-- `Clear`, which is what the constructor does as well.
unfoldable pub clear : Tree → ℕ → Tree
clear t this =
    set_prev (set_next (set_child (set_parent t this null) this null) this null) this null

-- The child of a parent that has it as a further child, or a node without a parent.
abbrev pub detach_further : Tree → ℕ → Run Tree
detach_further t this =
    let prev = t.sibling_prev this in
    let next = t.sibling_next this in
    let t1 = if prev == null then t else set_next t prev next in
    let behind = t1.sibling_next this in
    if not (behind == null)
    then ok (set_next (set_prev t1 behind (t1.sibling_prev this)) this null)
    else if t1.parent this == null
    then ok t1
    else do
      let first = t1.child (t1.parent this)
      require (not (first == null))
      ok (set_prev t1 first (t1.sibling_prev this))

-- The first child of its parent.
abbrev pub detach_first : Tree → ℕ → Tree
detach_first t this =
    let t1 = set_child t (t.parent this) (t.sibling_next this) in
    let behind = t1.sibling_next this in
    if behind == null then t1 else set_next (set_prev t1 behind (t1.sibling_prev this)) this null

unfoldable pub detach_sub_tree : Tree → ℕ → Run Tree
detach_sub_tree t this = do
  let iter = t.parent this
  t1 ←
      if iter == null || not (t.child iter == this)
      then detach_further t this
      else ok (detach_first t this)
  ok (set_parent (set_prev t1 this null) this null)

-- The only child of `this`.
abbrev pub link_only : Tree → ℕ → ℕ → Tree
link_only t this new_child =
    set_prev (set_parent (set_child t this new_child) new_child this) new_child new_child

-- Behind the last child, which the first child's back pointer names.
abbrev pub link_last : Tree → ℕ → ℕ → Run Tree
link_last t this new_child = do
  let first = t.child this
  let sibling_end = t.sibling_prev first
  require (not (sibling_end == null))
  let t1 = set_next t sibling_end new_child
  let t2 = set_prev t1 new_child sibling_end
  let t3 = set_parent t2 new_child (t2.parent sibling_end)
  ok (set_prev t3 (t3.child this) new_child)

unfoldable pub push_back_child : Tree → ℕ → ℕ → Run Tree
unfolding detach_sub_tree
push_back_child t this new_child = do
  t1 ← detach_sub_tree t new_child
  if t1.child this == null then ok (link_only t1 this new_child) else link_last t1 this new_child

-- Before the first child, which then gives the new one its back pointer.
abbrev pub link_first : Tree → ℕ → ℕ → Tree
link_first t this new_child =
    let t1 = set_next t new_child (t.child this) in
    let t2 = set_prev t1 new_child (t1.sibling_prev (t1.child this)) in
    let t3 = set_prev t2 (t2.child this) new_child in
    set_parent (set_child t3 this new_child) new_child this

unfoldable pub push_front_child : Tree → ℕ → ℕ → Run Tree
unfolding detach_sub_tree
push_front_child t this new_child = do
  t1 ← detach_sub_tree t new_child
  ok (if t1.child this == null then link_only t1 this new_child else link_first t1 this new_child)

-- The walk to the last of a row of siblings.
unfoldable pub last_sibling : ℕ → Tree → ℕ → Run ℕ
last_sibling zero t node = out_of_fuel
last_sibling (suc n) t node =
    let rest = last_sibling n t (t.sibling_next node) in
    if t.sibling_next node == null then ok node else rest

unfoldable pub push_back_sibling : ℕ → Tree → ℕ → ℕ → Run Tree
unfolding detach_sub_tree last_sibling
push_back_sibling n t this new_sibling = do
  t1 ← detach_sub_tree t new_sibling
  let parent = t1.parent this
  let first = t1.child parent
  let listed = not (parent == null || first == null)
  sibling_list_end ← if listed then ok (t1.sibling_prev first) else last_sibling n t1 this
  let t2 = if listed then set_prev t1 first new_sibling else t1
  require (not (sibling_list_end == null))
  let t3 = set_prev (set_next t2 sibling_list_end new_sibling) new_sibling sibling_list_end
  ok (set_parent t3 new_sibling (t3.parent sibling_list_end))

unfoldable pub find_root : ℕ → Tree → ℕ → Run ℕ
find_root zero t root = out_of_fuel
find_root (suc n) t root =
    let rest = find_root n t (t.parent root) in if t.parent root == null then ok root else rest

-- The loop over the children advances first and then clears the node that `m_child` names.
unfoldable mutual
  pub clear_children_recursive : ℕ → Tree → ℕ → Run Tree
  clear_children_recursive zero t this = out_of_fuel
  clear_children_recursive (suc n) t this = clear_loop n t this (t.child this)

  pub clear_loop : ℕ → Tree → ℕ → ℕ → Run Tree
  clear_loop zero t this iter = out_of_fuel
  clear_loop (suc n) t this iter = elim (iter == null) [
    | true ↦ ok t
    | false ↦ do
      let behind = t.sibling_next iter
      require (not (t.child this == null))
      t1 ← clear_children_recursive n t (t.child this)
      clear_loop n (clear t1 (t1.child this)) this behind
  ]

unfoldable pub detach_all : ℕ → Tree → ℕ → Run Tree
unfolding detach_sub_tree clear clear_children_recursive clear_loop
detach_all n t this = do
  t1 ← detach_sub_tree t this
  t2 ← clear_children_recursive n t1 this
  ok (clear t2 this)
