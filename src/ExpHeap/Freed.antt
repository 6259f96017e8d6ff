-- ===== src/ExpHeap/Freed.antt =====
-- The free list after `AddFreeBlock` and `Free`.
use dd_framework.Base.{
  ℕ, suc, ◌+◌, ◌^◌, ◌<◌, ◌≤◌, ◌≡◌, sym, subst, Bool, true, false, List, [], ◌∷◌, ◌++◌, ltb,
  Bool-cases, ◌⊎◌, inl, inr, arith, ℕ_discrete, add64, sub64, ok,
}
use dd_framework.IntrusiveList.Chain.{NotIn}
use dd_framework.IntrusiveList.Ring.{Ring, AllOut, length}
use dd_framework.IntrusiveList.Members.{In, construct-Ring}
use dd_framework.ExpHeap.State.{Memory, ExpHeap, header_size, is_address_in_heap, unlink_block}
use dd_framework.ExpHeap.Blocks.{link_free_block, add_free_block}
use dd_framework.IntrusiveList as Lists
use dd_framework.IntrusiveList.Moves.{remove-Ring, remove-frame}
use dd_framework.ExpHeap.Allocate.{free}
use dd_framework.ExpHeap.Lost.{
  Takes, Behind, rest_behind, AllInside, Below, find_neighbours-split, link_free_block-nodes,
  AllOut-middle,
}
use dd_framework.ExpHeap.Coalesce.{FrontDone, coalesce_back-done, coalesce_front-done, rest_before}
use dd_framework.ExpHeap.Never.{free_blocks-Ring}

-- A range from `start` to `end` behind the free block `p`, which follows `ys` and is followed by `zs`
-- in the free list.
pub record IsRange (h : ExpHeap) (m : Memory) (ys zs : List ℕ) (p start end : ℕ) : Type 0 where
  pub ring : Ring m.nodes h.free_block_list (ys ++ p ∷ zs)
  pub below : Below start ys
  pub before : p < start
  pub behind : Behind start zs
  pub ordered : start ≤ end
  pub block_inside : is_address_in_heap h p ≡ true
  pub inside : AllInside h zs
  pub outside : NotIn start (h.free_block_list ∷ ys ++ p ∷ zs)

-- What is left of the free list.
abbrev pub rest_of : Memory → ℕ → ℕ → ℕ → List ℕ → List ℕ → List ℕ
rest_of m p start end ys zs = rest_before m p start ys (rest_behind end zs)

-- A memory in which the free list is `ws`, and every other list apart from the old one is as it was.
pub record Left (h : ExpHeap) (m : Memory) (start : ℕ) (old ws : List ℕ) (m' : Memory)
    : Type 0 where
  pub ring : Ring m'.nodes h.free_block_list ws
  pub others :
      (other : ℕ) (us : List ℕ)
      → Ring m.nodes other us
      → AllOut (h.free_block_list ∷ old) (other ∷ us)
      → NotIn start (other ∷ us)
      → Ring m'.nodes other us

Behind-weaken : (p start : ℕ) (zs : List ℕ) → p < start → Behind start zs → Behind (suc p) zs
Behind-weaken p start [] lt b = tt
Behind-weaken p start (z ∷ zs) lt b = omega arith

-- The link at the end, which leaves the lists as they are.
link_free_block-Left :
    (h : ExpHeap) (m m1 m2 : Memory) (link new start p size : ℕ) (old ws1 ws : List ℕ)
    → Takes m.nodes m1.nodes h.free_block_list old ws1
    → Takes m1.nodes m2.nodes h.free_block_list ws1 ws
    → In link (h.free_block_list ∷ ws)
    → NotIn new (h.free_block_list ∷ ws)
    → ((new ≡ p) ⊎ (new ≡ start))
    → ((other : ℕ) (us : List ℕ) → AllOut old (other ∷ us) → NotIn p (other ∷ us))
    → Left h m start old ws (link_free_block m2 link new size)
link_free_block-Left h m m1 m2 link new start p size old ws1 ws back front member out which apart =
    let e = link_free_block-nodes m2 h.free_block_list link new size ws front.ring member out in
    record {
      ring = rw e (construct-Ring ℕ_discrete m2.nodes new h.free_block_list ws front.ring out);
      others = λ other us r all_out start_out.
          let (r1, out1) = back.others other us r all_out in
          let (r2, out2) = front.others other us r1 out1 in
          let new_out : NotIn new (other ∷ us) = elim which [
            | inl q ↦ subst (λ c. NotIn c (other ∷ us)) (sym q) (apart other us all_out.1)
            | inr q ↦ subst (λ c. NotIn c (other ∷ us)) (sym q) start_out
          ] in
          rw e (construct-Ring ℕ_discrete m2.nodes new other us r2 new_out);
    }

module _ (h : ExpHeap) (m : Memory) (rounds : ℕ) (ys zs : List ℕ) (p start end : ℕ)
    (range : IsRange h m ys zs p start end) (enough : length (ys ++ p ∷ zs) < rounds) where
  -- `AddFreeBlock` of a range behind a free block returns, but it does not add the range to the free
  -- list: the free blocks that touch it leave the list, and the others stay in order. Every other
  -- list stays as it is.
  pub add_free_block_lem :
      (m' : Memory) × (b : Bool) × (add_free_block h m rounds start end ≡ ok (m', b))
      × Left h m start (ys ++ p ∷ zs) (rest_of m p start end ys zs) m'
  unfolding add_free_block
  add_free_block_lem =
      let root = h.free_block_list in
      let blocks = free_blocks-Ring h m rounds (ys ++ p ∷ zs) range.ring enough in
      let found = find_neighbours-split start p zs range.before range.behind ys 0 0 range.below in
      let back =
        coalesce_back-done h m end p root ys zs (omega (arith, range.before, range.ordered))
          (Behind-weaken p start zs range.before range.behind) range.inside range.ring in
      let same : rest_before back.memory p start ys (rest_behind end zs)
          ≡ rest_of m p start end ys zs =
        rw back.blocks_same in
      let front : FrontDone h back.memory p start root (ys ++ p ∷ rest_behind end zs)
          (rest_of m p start end ys zs) =
        rw same at (
          coalesce_front-done h back.memory p start root ys (rest_behind end zs) range.block_inside
            back.takes.ring (back.takes.out start range.outside)) in
      let size = sub64 back.new_end front.new_start in
      elim (Bool-cases (ltb size header_size)) [
        | inl small ↦ (
          front.memory,
          false,
          rw (blocks, found, back.returns, front.returns, small),
          record {
            ring = front.takes.ring;
            others = λ other us r out start_out.
                let (r1, out1) = back.takes.others other us r out in
                (front.takes.others other us r1 out1).0;
          },
        )
        | inr large ↦ (
          link_free_block front.memory front.link front.new_start size,
          true,
          rw (blocks, found, back.returns, front.returns, large),
          link_free_block-Left h m back.memory front.memory front.link front.new_start start p size
              (ys ++ p ∷ zs) (ys ++ p ∷ rest_behind end zs) (rest_of m p start end ys zs) back.takes
              front.takes front.member front.outside front.which
              (λ other us out. AllOut-middle p zs (other ∷ us) ys out),
        )
      ]

-- An allocated block: its header, what its alignment took before it, and its memory.
abbrev pub start_of : Memory → ℕ → ℕ
start_of m block = sub64 block (m.blocks block).alignment

abbrev pub end_of : Memory → ℕ → ℕ
end_of m block = add64 (block + header_size) (m.blocks block).block_size

module _ (h : ExpHeap) (m : Memory) (rounds : ℕ) (ys zs us vs : List ℕ) (p block : ℕ)
    (range : IsRange h m ys zs p (start_of m block) (end_of m block))
    (enough : length (ys ++ p ∷ zs) < rounds)
    (allocated : Ring m.nodes h.allocated_block_list (us ++ block ∷ vs))
    (apart : AllOut (h.allocated_block_list ∷ us ++ block ∷ vs) (h.free_block_list ∷ ys ++ p ∷ zs))
    (apart' : AllOut (h.free_block_list ∷ ys ++ p ∷ zs) (h.allocated_block_list ∷ us ++ vs))
    (start_out : NotIn (start_of m block) (h.allocated_block_list ∷ us ++ vs))
    (block_inside : is_address_in_heap h block ≡ true) (fits : block + header_size < 2 ^ 64) where
  -- Where the two lists are well formed and apart, the header lies in the heap's range, and the
  -- block's range lies between two neighbours of the free list, of which the one before exists:
  -- `Free` of the allocated block returns: the block leaves the allocated
  -- list, but it is not added to the free list, from which the free blocks that touch it are taken.
  pub free_lem :
      (m' : Memory) × (free h m rounds (block + header_size) ≡ ok m')
      × Ring m'.nodes h.free_block_list (rest_of m p (start_of m block) (end_of m block) ys zs)
      × Ring m'.nodes h.allocated_block_list (us ++ vs)
  unfolding free Lists.remove
  free_lem =
      let m1 = unlink_block m block in
      let ring1 =
        remove-frame ℕ_discrete m.nodes h.allocated_block_list block us vs h.free_block_list
          (ys ++ p ∷ zs) allocated range.ring apart in
      let removed = remove-Ring ℕ_discrete m.nodes h.allocated_block_list block us vs allocated in
      let range1 : IsRange h m1 ys zs p (start_of m block) (end_of m block) = record {
        ring = ring1;
        below = range.below;
        before = range.before;
        behind = range.behind;
        ordered = range.ordered;
        block_inside = range.block_inside;
        inside = range.inside;
        outside = range.outside;
      } in
      let (m', b, returns, left) =
        add_free_block_lem h m1 rounds ys zs p (start_of m block) (end_of m block) range1 enough in
      let header : sub64 (block + header_size) header_size ≡ block = omega arith in
      (
        m',
        rw (header, block_inside, returns),
        left.ring,
        left.others h.allocated_block_list (us ++ vs) removed.0 apart' start_out,
      )
