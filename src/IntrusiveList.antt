-- ===== src/IntrusiveList.antt =====
-- libraries/lib_dd/include/dd/util/util_intrusivelist.hpp: circular doubly linked lists whose nodes
-- stand inside their objects. A list is its root node. Nodes are told apart by their address, of a
-- type `A` with decidable equality; the store gives each node's two pointers.
pub mod Chain
pub mod Ring
pub mod Moves
pub mod PushFront
pub mod Loop
pub mod Drain
pub mod Members
mod Tests
use dd_framework.Base.{
  ℕ, zero, suc, ◌≡◌, Bool, true, false, not, List, [], ◌∷◌, Option, none, some, ite,
}
use mathlib.Core.Option

pub record Nodes (A : Type 0) : Type 0 where
  pub prev : A → A
  pub next : A → A

module _ {A : Type 0} where
  -- An iterator holds the node behind the one that it stands on.
  abbrev pub iterator : Nodes A → A → A
  iterator s node = s.next node

  abbrev pub begin : Nodes A → A → A
  begin s root = iterator s (s.next root)

  abbrev pub end : Nodes A → A → A
  end s root = iterator s root

  abbrev pub deref : Nodes A → A → A
  deref s it = s.prev it

  abbrev pub advance : Nodes A → A → A
  advance s it = s.next it

module _ {A : Type 0} (eq : Discrete A) where
  abbrev pub write : (A → A) → A → A → A → A
  write f p v a = ite (eq a p) v (f a)

  -- `p->m_prev = v` and `p->m_next = v`.
  abbrev pub set_prev : Nodes A → A → A → Nodes A
  set_prev s p v = record s { prev = write s.prev p v }

  abbrev pub set_next : Nodes A → A → A → Nodes A
  set_next s p v = record s { next = write s.next p v }

  -- The constructor: a node linked to itself.
  unfoldable pub construct : Nodes A → A → Nodes A
  construct s this = set_next (set_prev s this this) this this

  unfoldable pub is_linked : Nodes A → A → Bool
  is_linked s this = ite (eq this (s.next this)) false true

  unfoldable pub link_next : Nodes A → A → A → Nodes A
  link_next s this new_node =
      let new_prev = s.prev new_node in
      let s1 = set_prev s new_node (s.prev this) in
      let s2 = set_next s1 new_prev this in
      let s3 = set_next s2 (s2.prev this) new_node in set_prev s3 this new_prev

  unfoldable pub link_prev : Nodes A → A → A → Nodes A
  link_prev s this new_node =
      let new_prev = s.prev new_node in
      let s1 = set_prev s new_node (s.prev (s.prev this)) in
      let s2 = set_next s1 new_prev (s1.prev this) in
      let s3 = set_next s2 (s2.prev (s2.prev this)) new_node in set_prev s3 (s3.prev this) new_prev

  unfoldable pub unlink : Nodes A → A → Nodes A
  unlink s this =
      let s1 = set_next s (s.prev this) (s.next this) in
      let s2 = set_prev s1 (s1.next this) (s1.prev this) in
      let s3 = set_next s2 this this in set_prev s3 this this

  -- The methods of `IntrusiveList`, on the root `m_list`.
  unfoldable pub is_empty : Nodes A → A → Bool
  unfolding is_linked
  is_empty s root = not (is_linked s root)

  unfoldable pub push_back : Nodes A → A → A → Nodes A
  unfolding link_next
  push_back s root node = link_next s root node

  unfoldable pub push_front : Nodes A → A → A → Nodes A
  unfolding link_prev
  push_front s root node = link_prev s root node

  unfoldable pub pop_front : Nodes A → A → Nodes A × A
  unfolding unlink
  pop_front s root = let front = s.next root in (unlink s front, front)

  unfoldable pub pop_back : Nodes A → A → Nodes A × A
  unfolding unlink
  pop_back s root = let back = s.prev root in (unlink s back, back)

  unfoldable pub remove : Nodes A → A → Nodes A
  unfolding unlink
  remove s node = unlink s node

  -- The nodes that a loop from `it` up to `last` stands on; `none` if `n` rounds are too few.
  unfoldable pub visit : Nodes A → ℕ → A → A → Option (List A)
  visit s zero it last = none
  visit s (suc n) it last =
      let rest = visit s n (advance s it) last in
      ite (eq it last) (some []) (Option.map (λ xs. deref s it ∷ xs) rest)
