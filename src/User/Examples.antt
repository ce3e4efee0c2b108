-- ===== src/User/Examples.antt =====
-- A line with a correction in it, and the theorems about the user library at concrete inputs.
use toy_kernel.Common.{
  ℕ, ◌+◌, ◌-◌, ◌≡◌, refl, true, false, Option, none, some, List, [], ◌∷◌, ◌++◌, arith,
}
use Prim.{tt}
use toy_kernel.Pmm.Sample.{small_pmm}
use toy_kernel.Sched.Syscall.{System}
use toy_kernel.User.{calloc}
use toy_kernel.User.Line.{Reading, is_enter, is_erase, is_control, readline}
use toy_kernel.User.Edit.{edited, ReadsLine, readline-ReadsLine}
use toy_kernel.User.Output.{text_of, println, println-put_s}
use toy_kernel.Screen.{put_s}

-- `ab`, a backspace, `cde`, in a buffer of four bytes.
abbrev keys : List ℕ
keys = 0x61 ∷ 0x62 ∷ 0x08 ∷ 0x63 ∷ 0x64 ∷ 0x65 ∷ []

edit_keys : edited 3 [] keys ≡ 0x61 ∷ 0x63 ∷ 0x64 ∷ []
unfolding is_erase is_control
edit_keys = refl

shown_of : Option (Reading × List ℕ) → List ℕ
shown_of none = []
shown_of (some (r, rest)) = r.shown

readline_shows :
    shown_of (readline (λ _. 0) 4 (keys ++ 0x0a ∷ []))
    ≡ 0x61 ∷ 0x62 ∷ 0x08 ∷ 0x20 ∷ 0x08 ∷ 0x63 ∷ 0x64 ∷ 0x0a ∷ []
unfolding readline shown_of
readline_shows = refl

readline-ReadsLine_example :
    ReadsLine 4 (λ _. 0) (edited (4 - 1) [] keys) [] (readline (λ _. 0) 4 (keys ++ 0x0a ∷ []))
unfolding is_enter
readline-ReadsLine_example =
    readline-ReadsLine 4 (λ _. 0) keys [] 0x0a (omega arith) (omega arith)
      (refl, (refl, (refl, (refl, (refl, (refl, tt)))))) refl

-- 65536 times 65536 bytes wrap to none.
calloc_wraps : (calloc (λ size. size + 16) (λ _. 7) 0x10000 0x10000).0 ≡ 16
unfolding calloc
calloc_wraps = refl

abbrev system : System
system = record {
  kernel = record {
    heap = record {
      vmm = record {
        pmm = small_pmm;
        current_page_directory = 0x2000;
        cr3 = 0x2000;
        paging = true;
      };
      malloc_list = [];
      malloc_virt_address = 0xd1000000;
      malloc_phys_address = 0;
      total_malloc_pages = 0;
    };
    tasks = [];
    current_task = 0;
    next_task_id = 3;
    kernel_timer_ms = 100;
    esp0 = 0;
  };
  screen = record { buffer = λ _. 0; x = 0; y = 0; cursor = 0 };
  key_info = record { key = 0; shift = false; ctrl = false };
  codes = [];
}

println-put_s_example :
    println (λ _. 0) (some (0x68 ∷ 0x69 ∷ [])) system
    ≡ some (record system {
      screen = put_s (put_s system.screen (text_of (some (0x68 ∷ 0x69 ∷ [])))) (0x0a ∷ []);
    })
println-put_s_example =
    println-put_s (λ _. 0) (some (0x68 ∷ 0x69 ∷ [])) system (omega arith, (omega arith, tt))
