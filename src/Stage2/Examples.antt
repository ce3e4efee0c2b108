-- ===== src/Stage2/Examples.antt =====
-- A memory map of three blocks and a chunk of three bytes, and the theorems about the boot loader at
-- them.
use toy_kernel.Common.{
  ℕ, zero, suc, ◌+◌, ◌-◌, ◌/◌, ◌≤◌, ◌<◌, ◌≡◌, refl, true, ◌&&◌, some, List, [], ◌∷◌, ◌++◌, map,
  arith, ltb, leb, if◌then◌else◌, u16, get_or,
}
use Prim.{tt}
use toy_kernel.Memory.{Mem}
use toy_kernel.Stage2.Detect.{E820Answer, region_of, memory_detect, memory_detect_lem}
use toy_kernel.Stage2.Load.{load_chunk}
use toy_kernel.Stage2.Chunks.{load_chunk_lem}
use toy_kernel.Fat.{fat_cluster_to_lba, fat_next_cluster, Fat, file_of}
use toy_kernel.Fat.Chain.{InReach, chain, file_lba, file_sector}
use toy_kernel.Fat.Stream.{content}
use toy_kernel.Fat.Sample.{
  floppy, image, fat, steady, steady-NeverFails, steady-Serves, file-IsOpen,
}
use toy_kernel.Stage2.Load.{load_loop}
use toy_kernel.Stage2.Whole.{Whole, load_loop-Whole}

abbrev answer : ℕ → ℕ → E820Answer
answer base next = record {
  positive = true;
  continuation = next;
  block = record {
    base_low = base;
    base_high = 0;
    length_low = 0x1000;
    length_high = 0;
    kind = 1;
    acpi = 1;
  };
}

abbrev first_blocks : List E820Answer
first_blocks = answer 0 1 ∷ answer 0x1000 2 ∷ []

abbrev last_block : E820Answer
last_block = answer 0x100000 0

memory_detect_three :
    memory_detect (first_blocks ++ last_block ∷ [])
    ≡ region_of (answer 0 1) ∷ region_of (answer 0x1000 2) ∷ []
unfolding memory_detect
memory_detect_three = refl

memory_detect_example : memory_detect (first_blocks ++ last_block ∷ []) ≡ map region_of first_blocks
memory_detect_example =
    memory_detect_lem first_blocks [] last_block ((refl, omega arith), ((refl, omega arith), tt))
      refl

abbrev blank : Mem
blank a = 0

load_chunk_example : load_chunk blank 0x100000 (7 ∷ 8 ∷ 9 ∷ []) 0x100001 ≡ (
    if leb 0x100000 0x100001 && ltb 0x100001 (0x100000 + u16 3)
    then get_or (7 ∷ 8 ∷ 9 ∷ []) (0x100001 - 0x100000) 0
    else blank 0x100001)
load_chunk_example =
    load_chunk_lem blank 0x100000 (7 ∷ 8 ∷ 9 ∷ []) 0x100001 (omega arith) (omega arith)
      (omega arith)

reach_all : (k : ℕ) → k ≤ 3 → InReach floppy (file_lba fat 2 k)
unfolding fat_cluster_to_lba fat_next_cluster
reach_all zero h = omega arith
reach_all (suc zero) h = omega arith
reach_all (suc (suc zero)) h = omega arith
reach_all (suc (suc (suc zero))) h = omega arith
reach_all (suc (suc (suc (suc k)))) h = absurd (omega arith)

its_clusters : (k : ℕ) → k ≤ 3 → chain fat 2 (k / 2) < 0xff8
unfolding fat_next_cluster
its_clusters zero h = omega arith
its_clusters (suc zero) h = omega arith
its_clusters (suc (suc zero)) h = omega arith
its_clusters (suc (suc (suc zero))) h = omega arith
its_clusters (suc (suc (suc (suc k)))) h = absurd (omega arith)

file-Whole : Whole steady fat image 2 0 2000
unfolding file_of
file-Whole = record {
  open_file = file-IsOpen;
  no_root = λ e. omega (arith, e);
  at_first = refl;
  all = refl;
  some_bytes = omega arith;
  reach = reach_all;
  clusters = λ k h. its_clusters k (omega (arith, h));
}

load_loop-Whole_example :
    (n : Mem) × (t : Fat) × (load_loop steady 2 blank fat 0 0x100000 0 ≡ some (n, t, 2000))
    × ((i : ℕ) → i < 2000 → n (0x100000 + i) ≡ content (file_sector fat image 2) i)
load_loop-Whole_example =
    load_loop-Whole steady fat image 2 0 2000 steady-Serves steady-NeverFails (omega arith)
      file-Whole 0 blank 0x100000 (omega arith) (omega arith)
