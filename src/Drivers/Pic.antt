-- ===== src/Drivers/Pic.antt =====
-- The two interrupt controllers and the timer chip, src/kernel/interrupts/pic.c.
use toy_kernel.Common.{ℕ, ◌+◌, ◌-◌, ◌*◌, ◌/◌, ◌^◌, bit_and, bit_or, ltb, leb, if◌then◌else◌, u8}
use toy_kernel.Drivers.Ports.{Ports, outb, inb, io_wait}

abbrev pub pic_1_cmd : ℕ
pic_1_cmd = 0x20

abbrev pub pic_1_data : ℕ
pic_1_data = 0x21

abbrev pub pic_2_cmd : ℕ
pic_2_cmd = 0xa0

abbrev pub pic_2_data : ℕ
pic_2_data = 0xa1

abbrev pub pic_eoi : ℕ
pic_eoi = 0x20

unfoldable pub send_pic_eoi : Ports → ℕ → Ports
unfolding outb
send_pic_eoi s irq =
    let t = if leb 8 irq then outb s pic_2_cmd pic_eoi else s in outb t pic_1_cmd pic_eoi

unfoldable pub disable_pic : Ports → Ports
unfolding outb
disable_pic s = outb (outb s pic_2_data 0xff) pic_1_data 0xff

-- The data port and the line on it that the functions on the masks compute first.
unfoldable pub data_port : ℕ → ℕ
data_port irq = if ltb irq 8 then pic_1_data else pic_2_data

unfoldable pub line_of : ℕ → ℕ
line_of irq = if ltb irq 8 then irq else irq - 8

unfoldable pub set_irq_mask : Ports → ℕ → Ports
unfolding outb inb data_port line_of
set_irq_mask s irq =
    let port = data_port irq in outb s port (u8 (bit_or (inb s port) (2 ^ line_of irq)))

-- `~(1 << irq)` has 32 bits, of which the `uint8_t` keeps 8.
unfoldable pub clear_irq_mask : Ports → ℕ → Ports
unfolding outb inb data_port line_of
clear_irq_mask s irq =
    let port = data_port irq in
    outb s port (u8 (bit_and (inb s port) (2 ^ 32 - 1 - 2 ^ line_of irq)))

unfoldable pub remap_pic : Ports → Ports
unfolding outb inb io_wait
remap_pic s =
    let pic_1_mask = inb s pic_1_data in
    let pic_2_mask = inb s pic_2_data in
    let icw1 = io_wait (outb (io_wait (outb s pic_1_cmd 0x11)) pic_2_cmd 0x11) in
    let icw2 = io_wait (outb (io_wait (outb icw1 pic_1_data 0x20)) pic_2_data 0x28) in
    let icw3 = io_wait (outb (io_wait (outb icw2 pic_1_data 0x4)) pic_2_data 0x2) in
    let icw4 = io_wait (outb (io_wait (outb icw3 pic_1_data 0x1)) pic_2_data 0x1) in
    outb (outb icw4 pic_1_data pic_1_mask) pic_2_data pic_2_mask

unfoldable pub set_pit_channel_mode_frequency : Ports → (channel operating_mode divisor : ℕ) → Ports
unfolding outb
set_pit_channel_mode_frequency s channel operating_mode divisor =
    if ltb 2 channel
    then s
    else let command =
        outb s 0x43 (u8 (bit_or (bit_or (channel * 2 ^ 6) (3 * 2 ^ 4)) (operating_mode * 2))) in
      outb (outb command (0x40 + channel) (u8 divisor)) (0x40 + channel) (u8 (divisor / 2 ^ 8))
