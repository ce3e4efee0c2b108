-- ===== src/Stage2/Detect.antt =====
-- The memory map of the BIOS: src/bootloader/stage2/memdetects.c.
use toy_kernel.Common.{
  ℕ, ◌≡◌, refl, ap, ◌≢◌, Bool, true, false, ◌&&◌, List, [], ◌∷◌, ◌++◌, map, arith, ◌!=◌,
  if◌then◌else◌,
}
use toy_kernel.Boot.{MemoryRegion}

-- `E820MemoryBlock`
pub record E820MemoryBlock : Type 0 where
  pub base_low : ℕ
  pub base_high : ℕ
  pub length_low : ℕ
  pub length_high : ℕ
  pub kind : ℕ
  pub acpi : ℕ

-- What a call of `x86_E820GetNextBlock` returns and fills in: whether its result is positive, where
-- to go on, and the block.
pub record E820Answer : Type 0 where
  pub positive : Bool
  pub continuation : ℕ
  pub block : E820MemoryBlock

unfoldable pub region_of : E820Answer → MemoryRegion
region_of a = record {
  begin_low = a.block.base_low;
  begin_high = a.block.base_high;
  length_low = a.block.length_low;
  length_high = a.block.length_high;
  kind = a.block.kind;
  acpi = a.block.acpi;
}

-- The regions that `Memory_Detect` stores, from the answers that the BIOS gives in turn. The array
-- has room for 256 of them, which the code does not test.
unfoldable pub memory_detect : List E820Answer → List MemoryRegion
memory_detect [] = []
memory_detect (a ∷ answers) =
    if a.positive && a.continuation != 0 then region_of a ∷ memory_detect answers else []

-- Blocks with more behind them.
abbrev pub All : (E820Answer → Type 0) → List E820Answer → Type 0
All P [] = Unit
All P (a ∷ answers) = P a × All P answers

abbrev pub HasMore : E820Answer → Type 0
HasMore a = (a.positive ≡ true) × (a.continuation ≢ 0)

-- The BIOS marks its last block by a continuation of 0. `Memory_Detect` stores the blocks in front
-- of that one, in their order, and not the last one itself.
pub memory_detect_lem :
    (answers later : List E820Answer) (last : E820Answer)
    → All HasMore answers
    → last.continuation ≡ 0
    → memory_detect (answers ++ last ∷ later) ≡ map region_of answers
unfolding memory_detect
memory_detect_lem [] later last h e =
    let ends : (last.positive && last.continuation != 0) ≡ false = ground arith in rw ends refl
memory_detect_lem (a ∷ answers) later last h e =
    let goes : (a.positive && a.continuation != 0) ≡ true = ground arith in
    rw goes (ap (λ l. region_of a ∷ l) (memory_detect_lem answers later last h.1 e))
