-- ===== src/ExpHeap/State.antt =====
-- The memory and the heap object of mem_expheap.hpp. A block is named by the address of its header,
-- and so is the list node in it; a list is named by its root. A header outside of the range from
-- `m_start_address` to `m_end_address` cannot be read.
use Prim.Native.Nat.{bit_or}
use dd_framework.Base.{
  ℕ, ◌*◌, ◌^◌, Bool, ◌&&◌, List, Option, none, some, ltb, leb, update, ℕ_discrete, Run, ok,
  out_of_fuel, ◌>>◌, require,
}
use dd_framework.IntrusiveList as Lists
use dd_framework.IntrusiveList.{Nodes, begin, end, visit}

-- `TCharCode16` of a text of two characters.
abbrev pub tchar_code16 : ℕ → ℕ → ℕ
tchar_code16 c1 c2 = bit_or c1 (c2 * 2 ^ 8)

abbrev pub free_magic : ℕ
free_magic = tchar_code16 b'F' b'R'

abbrev pub alloc_magic_used : ℕ
alloc_magic_used = tchar_code16 b'U' b'D'

-- `sizeof(ExpHeapMemoryBlock)`: two bytes, a byte, padding, a size and two pointers.
abbrev pub header_size : ℕ
header_size = 32

abbrev pub minimum_alignment : ℕ
minimum_alignment = 4

abbrev pub minimum_granularity : ℕ
minimum_granularity = 4

pub record Block : Type 0 where
  pub alloc_magic : ℕ
  pub alignment : ℕ
  pub block_size : ℕ

-- The list nodes and the other fields of each header, and the nodes in the lists of child heaps,
-- which are named by their heap.
pub record Memory : Type 0 where
  pub nodes : Nodes ℕ
  pub blocks : ℕ → Block
  pub child_nodes : Nodes ℕ

pub record ExpHeap : Type 0 where
  pub start_address : ℕ
  pub end_address : ℕ
  pub free_block_list : ℕ
  pub allocated_block_list : ℕ
  pub child_list : ℕ
  pub best_fit : Bool

abbrev pub is_address_in_heap : ExpHeap → ℕ → Bool
is_address_in_heap h address = leb h.start_address address && ltb address h.end_address

-- The header at an address.
abbrev pub read_block : ExpHeap → Memory → ℕ → Run Block
read_block h m address = do require (is_address_in_heap h address); ok (m.blocks address)

abbrev pub write_block : Memory → ℕ → Block → Memory
write_block m address block = record m { blocks = update m.blocks address block }

abbrev pub unlink_block : Memory → ℕ → Memory
unlink_block m block = record m { nodes = Lists.unlink ℕ_discrete m.nodes block }

-- `std::construct_at`: the node is linked to itself, and the fields are what the memory held.
abbrev pub construct_block : Memory → ℕ → Memory
construct_block m block = record m { nodes = Lists.construct ℕ_discrete m.nodes block }

-- `PushBack` on the list with this root.
abbrev pub push_back_block : Memory → ℕ → ℕ → Memory
push_back_block m root block = record m { nodes = Lists.push_back ℕ_discrete m.nodes root block }

abbrev pub of_rounds {ℓ} : {A : Type ℓ} → Option A → Run A
of_rounds none = out_of_fuel
of_rounds (some a) = ok a

-- The blocks that a loop over the free list stands on.
unfoldable pub free_blocks : ExpHeap → Memory → ℕ → Run (List ℕ)
free_blocks h m rounds = of_rounds (
    visit ℕ_discrete m.nodes rounds (begin m.nodes h.free_block_list)
      (end m.nodes h.free_block_list))
