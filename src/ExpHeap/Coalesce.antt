-- ===== src/ExpHeap/Coalesce.antt =====
-- How `AddFreeBlock` joins the freed range with its neighbours.
use dd_framework.Base.{
  ℕ, suc, ◌<◌, ◌≡◌, refl, sym, true, false, List, [], ◌∷◌, ◌++◌, ◌==◌, if◌then◌else◌, Bool-cases,
  inl, inr, arith, add64, ok, ◌⊎◌,
}
use dd_framework.IntrusiveList.Chain.{NotIn, Chain-prefix, Distinct, NotIn-append}
use dd_framework.IntrusiveList.Ring.{Ring}
use dd_framework.IntrusiveList.Members.{In, In-append, In-middle, Chain-last}
use dd_framework.ExpHeap.State.{Memory, ExpHeap, header_size, is_address_in_heap, unlink_block}
use dd_framework.ExpHeap.Blocks.{coalesce_back, coalesce_front}
use dd_framework.ExpHeap.Lost.{
  Takes, unlink-Takes, same-Takes, next_of, Behind, rest_behind, AllInside,
}
use mathlib.Core.List.{append_assoc}

pub record BackDone (h : ExpHeap) (m : Memory) (end next root : ℕ) (ws ws' : List ℕ) : Type 0 where
  pub memory : Memory
  pub new_end : ℕ
  pub returns : coalesce_back h m next end ≡ ok (memory, new_end)
  pub takes : Takes m.nodes memory.nodes root ws ws'
  pub blocks_same : memory.blocks ≡ m.blocks

pub coalesce_back-done :
    (h : ExpHeap) (m : Memory) (end p root : ℕ) (ys zs : List ℕ)
    → p < end
    → Behind (suc p) zs
    → AllInside h zs
    → Ring m.nodes root (ys ++ p ∷ zs)
    → BackDone h m end (next_of p zs) root (ys ++ p ∷ zs) (ys ++ p ∷ rest_behind end zs)
unfolding coalesce_back
coalesce_back-done h m end p root ys [] lt behind inside ring = record {
  memory = m;
  new_end = end;
  returns = let e : end == p ≡ false = ground arith in rw e (ground arith);
  takes = same-Takes m.nodes root (ys ++ p ∷ []) ring;
  blocks_same = refl;
}
coalesce_back-done h m end p root ys (z ∷ zs) lt behind inside ring = elim (Bool-cases (end == z)) [
  | inl e ↦ rw e record {
    memory = unlink_block m z;
    new_end = add64 (add64 z (m.blocks z).block_size) header_size;
    returns = let z_null : z == 0 ≡ false = ground arith in rw (e, z_null, inside.0);
    takes =
        rw (append_assoc ys (p ∷ []) (z ∷ zs), append_assoc ys (p ∷ []) zs) at
          (unlink-Takes m root z (ys ++ p ∷ []) zs (rw (append_assoc ys (p ∷ []) (z ∷ zs)) ring));
    blocks_same = refl;
  }
  | inr e ↦ rw e record {
    memory = m;
    new_end = end;
    returns = rw e (ground arith);
    takes = same-Takes m.nodes root (ys ++ p ∷ z ∷ zs) ring;
    blocks_same = refl;
  }
]

-- The blocks before, less the last one if the range begins where it ends.
abbrev pub rest_before : Memory → ℕ → ℕ → List ℕ → List ℕ → List ℕ
rest_before m p start ys zs =
    if start == add64 (add64 p (m.blocks p).block_size) header_size then ys ++ zs else ys ++ p ∷ zs

pub record FrontDone (h : ExpHeap) (m : Memory) (p start root : ℕ) (ws ws' : List ℕ) : Type 0 where
  pub memory : Memory
  pub new_start : ℕ
  pub link : ℕ
  pub returns : coalesce_front h m p start ≡ ok (memory, new_start, link)
  pub takes : Takes m.nodes memory.nodes root ws ws'
  pub member : In link (root ∷ ws')
  pub outside : NotIn new_start (root ∷ ws')
  pub which : (new_start ≡ p) ⊎ (new_start ≡ start)

Distinct-middle : (x : ℕ) (ys xs : List ℕ) → Distinct (xs ++ x ∷ ys) → NotIn x (xs ++ ys)
Distinct-middle x ys [] d = d.0
Distinct-middle x ys (y ∷ xs) d =
    let parts = NotIn-append y xs (x ∷ ys) d.0 in
    ((λ e. parts.1.0 (sym e)), Distinct-middle x ys xs d.1)

pub coalesce_front-done :
    (h : ExpHeap) (m : Memory) (p start root : ℕ) (ys zs : List ℕ)
    → is_address_in_heap h p ≡ true
    → Ring m.nodes root (ys ++ p ∷ zs)
    → NotIn start (root ∷ ys ++ p ∷ zs)
    → FrontDone h m p start root (ys ++ p ∷ zs) (rest_before m p start ys zs)
unfolding coalesce_front
coalesce_front-done h m p start root ys zs inside ring out =
    elim (Bool-cases (start == add64 (add64 p (m.blocks p).block_size) header_size)) [
      | inl e ↦ rw e record {
        memory = unlink_block m p;
        new_start = p;
        link = m.nodes.prev p;
        returns = rw (inside, e);
        takes = unlink-Takes m root p ys zs ring;
        member =
            In-append (m.nodes.prev p) zs (root ∷ ys)
              (Chain-last m.nodes p ys root (Chain-prefix m.nodes p root zs ys root ring.path));
        outside = (
          (λ q. (NotIn-append root ys (p ∷ zs) ring.root_out).1.0 (sym q)),
          Distinct-middle p zs ys ring.distinct,
        );
        which = inl refl;
      }
      | inr e ↦ rw e record {
        memory = m;
        new_start = start;
        link = p;
        returns = rw (inside, e);
        takes = same-Takes m.nodes root (ys ++ p ∷ zs) ring;
        member = inr (In-middle p zs ys);
        outside = out;
        which = inr refl;
      }
    ]
