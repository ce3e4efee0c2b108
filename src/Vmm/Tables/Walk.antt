-- ===== src/Vmm/Tables/Walk.antt =====
-- How the processor translates an address through the tables that src/kernel/mm/vmm/vmm.c keeps,
-- stated by itself with arithmetic, not with the macros of the code.
use toy_kernel.Common.{
  ℕ, ◌+◌, ◌*◌, ◌/◌, ◌%◌, ◌^◌, Bool, ◌&&◌, Option, none, some, ◌==◌, if◌then◌else◌,
}
use toy_kernel.Memory.{read32}
use toy_kernel.Vmm.Tables.{Vmm}

-- Entry `i` of the directory, and entry `j` of the table that it names.
abbrev pub pde : Vmm → ℕ → ℕ
pde s i = read32 s.pmm.mem (s.current_page_directory + 4 * i)

abbrev pub pte : Vmm → ℕ → ℕ → ℕ
pte s i j = read32 s.pmm.mem (pde s i / 4096 * 4096 + 4 * j)

abbrev pub pd_of : ℕ → ℕ
pd_of v = v / 2 ^ 22

abbrev pub pt_of : ℕ → ℕ
pt_of v = v / 4096 % 1024

-- The physical address of `v`, if its page is present.
unfoldable pub walk : Vmm → ℕ → Option ℕ
walk s v =
    let e = pte s (pd_of v) (pt_of v) in
    if pde s (pd_of v) % 2 == 1
    then if e % 2 == 1 then some (e / 4096 * 4096 + v % 4096) else none
    else none

-- Whether ring 3 may read and write the page of `v`: the flags at 2 and 4 are set at both levels.
unfoldable pub user_walk : Vmm → ℕ → Bool
user_walk s v = pde s (pd_of v) / 2 % 4 == 3 && pte s (pd_of v) (pt_of v) / 2 % 4 == 3
