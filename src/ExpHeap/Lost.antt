-- ===== src/ExpHeap/Lost.antt =====
-- What `AddFreeBlock` leaves of the free list.
use dd_framework.Base.{
  ℕ, ◌<◌, ◌≤◌, ◌≡◌, ◌≢◌, fun_ext, true, false, List, [], ◌∷◌, ◌++◌, leb, ◌==◌, if◌then◌else◌, arith,
  ℕ_discrete,
}
use dd_framework.IntrusiveList as Lists
use dd_framework.IntrusiveList.{Nodes, link_prev, link_next, construct}
use dd_framework.IntrusiveList.Chain.{NotIn}
use dd_framework.IntrusiveList.Ring.{Ring, Alone, AllOut, NotIn-remove}
use dd_framework.IntrusiveList.Moves.{remove-Ring, remove-frame}
use dd_framework.IntrusiveList.Members.{In, Between, Ring-Between, construct-Ring, construct-Alone}
use dd_framework.ExpHeap.State.{Memory, ExpHeap, is_address_in_heap, unlink_block}
use dd_framework.ExpHeap.Blocks.{find_neighbours, link_free_block}

-- Linking a node that stands alone by `LinkPrev` at the next node and then by `LinkNext` at this one
-- takes it out again.
link-undone :
    (s : Nodes ℕ) (link new : ℕ)
    → Alone s new
    → Between s link
    → new ≢ link
    → new ≢ s.next link
    → new ≢ s.prev link
    → link_next ℕ_discrete (link_prev ℕ_discrete s (s.next link) new) link new ≡ s
unfolding link_next link_prev
link-undone s link new alone between ne ne_next ne_prev =
    let p = between.prev_next in
    let n = between.next_prev in
    let s' = link_next ℕ_discrete (link_prev ℕ_discrete s (s.next link) new) link new in
    let prev_same : s'.prev ≡ s.prev = fun_ext (λ c. ground arith) in
    let next_same : s'.next ≡ s.next = fun_ext (λ c. ground arith) in
    λ i. record { prev = prev_same i; next = next_same i }

pub link_free_block-nodes :
    (m : Memory) (root link new size : ℕ) (ws : List ℕ)
    → Ring m.nodes root ws
    → In link (root ∷ ws)
    → NotIn new (root ∷ ws)
    → (link_free_block m link new size).nodes ≡ construct ℕ_discrete m.nodes new
unfolding link_free_block
link_free_block-nodes m root link new size ws ring member out =
    let s1 = construct ℕ_discrete m.nodes new in
    let ring1 = construct-Ring ℕ_discrete m.nodes new root ws ring out in
    let near = Ring-Between s1 root link new ws ring1 member out in
    link-undone s1 link new (construct-Alone ℕ_discrete m.nodes new root ws) near.0 near.1 near.2
      near.3

-- A change of the nodes that takes the list of the root from `ws` to `ws'`, and keeps the others.
pub record Takes (s s' : Nodes ℕ) (root : ℕ) (ws ws' : List ℕ) : Type 0 where
  pub ring : Ring s' root ws'
  pub others :
      (other : ℕ) (us : List ℕ)
      → Ring s other us
      → AllOut (root ∷ ws) (other ∷ us)
      → Ring s' other us × AllOut (root ∷ ws') (other ∷ us)
  pub out : (c : ℕ) → NotIn c (root ∷ ws) → NotIn c (root ∷ ws')

AllOut-remove : (x : ℕ) (ys zs xs : List ℕ) → AllOut (xs ++ x ∷ ys) zs → AllOut (xs ++ ys) zs
AllOut-remove x ys zs [] o = o.1
AllOut-remove x ys zs (y ∷ xs) o = (o.0, AllOut-remove x ys zs xs o.1)

pub AllOut-middle : (x : ℕ) (ys zs xs : List ℕ) → AllOut (xs ++ x ∷ ys) zs → NotIn x zs
AllOut-middle x ys zs [] o = o.0
AllOut-middle x ys zs (y ∷ xs) o = AllOut-middle x ys zs xs o.1

pub unlink-Takes :
    (m : Memory) (root x : ℕ) (xs ys : List ℕ)
    → Ring m.nodes root (xs ++ x ∷ ys)
    → Takes m.nodes (unlink_block m x).nodes root (xs ++ x ∷ ys) (xs ++ ys)
unfolding Lists.remove
unlink-Takes m root x xs ys ring = record {
  ring = (remove-Ring ℕ_discrete m.nodes root x xs ys ring).0;
  others = λ other us r out. (
    remove-frame ℕ_discrete m.nodes root x xs ys other us ring r out,
    (out.0, AllOut-remove x ys (other ∷ us) xs out.1),
  );
  out = λ c n. (n.0, NotIn-remove c x ys xs n.1);
}

pub same-Takes : (s : Nodes ℕ) (root : ℕ) (ws : List ℕ) → Ring s root ws → Takes s s root ws ws
same-Takes s root ws ring = record {
  ring = ring;
  others = λ other us r out. (r, out);
  out = λ c n. n;
}

abbrev pub Below : ℕ → List ℕ → Type 0
Below start [] = Unit {0}
Below start (x ∷ xs) = (x < start) × Below start xs

-- The blocks that follow a range which begins at `start`: the first one does not lie before it.
abbrev pub Behind : ℕ → List ℕ → Type 0
Behind start [] = Unit {0}
Behind start (z ∷ zs) = start ≤ z

abbrev pub next_of : ℕ → List ℕ → ℕ
next_of p [] = p
next_of p (z ∷ zs) = z

pub find_neighbours-split :
    (start p : ℕ) (zs : List ℕ)
    → p < start
    → Behind start zs
    → (ys : List ℕ) (a b : ℕ) → Below start ys
    → find_neighbours start (ys ++ p ∷ zs) a b ≡ (p, next_of p zs)
unfolding find_neighbours
find_neighbours-split start p [] lt behind [] a b below = ground arith
find_neighbours-split start p (z ∷ zs) lt behind [] a b below = ground arith
find_neighbours-split start p zs lt behind (y ∷ ys) a b below =
    let e : leb start y ≡ false = ground arith in
    rw e (find_neighbours-split start p zs lt behind ys y y below.1)

-- The blocks behind, less the one that the range ends at.
abbrev pub rest_behind : ℕ → List ℕ → List ℕ
rest_behind end [] = []
rest_behind end (z ∷ zs) = if end == z then zs else z ∷ zs

abbrev pub AllInside : ExpHeap → List ℕ → Type 0
AllInside h [] = Unit {0}
AllInside h (x ∷ xs) = (is_address_in_heap h x ≡ true) × AllInside h xs
