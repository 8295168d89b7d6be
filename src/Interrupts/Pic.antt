-- ===== src/Interrupts/Pic.antt =====
-- The two interrupt controllers: `remap_pic`, `pic_end_master` and `pic_end_slave` of
-- kernel/src/interrupts/interrupts.cpp, as the list of their port writes.
pub mod Chip
use eta_os.Base.{ℕ, List, [], ◌∷◌}
use eta_os.Timer.{PortWrite}

abbrev pub pic1_cmd : ℕ
pic1_cmd = 0x20

abbrev pub pic1_data : ℕ
pic1_data = 0x21

abbrev pub pic2_cmd : ℕ
pic2_cmd = 0xA0

abbrev pub pic2_data : ℕ
pic2_data = 0xA1

-- `outb(port, value)`, and `io_wait()` behind each.
abbrev pub outb_wait : ℕ → ℕ → List PortWrite → List PortWrite
outb_wait port value rest =
    record { port = port; value = value } ∷ record { port = 0x80; value = 0 } ∷ rest

unfoldable pub pic_end_master : List PortWrite
pic_end_master = record { port = pic1_cmd; value = 0x20 } ∷ []

unfoldable pub pic_end_slave : List PortWrite
pic_end_slave =
    record { port = pic2_cmd; value = 0x20 } ∷ record { port = pic1_cmd; value = 0x20 } ∷ []

-- `remap_pic`, after the reads of the two masks `a1` and `a2`, with a wait behind each.
unfoldable pub remap_pic : ℕ → ℕ → List PortWrite
remap_pic a1 a2 =
    record { port = 0x80; value = 0 }
    ∷ record { port = 0x80; value = 0 }
    ∷ outb_wait pic1_cmd 0x11 (
        outb_wait pic2_cmd 0x11 (
          outb_wait pic1_data 0x20 (
            outb_wait pic2_data 0x28 (
              outb_wait pic1_data 4 (
                outb_wait pic2_data 2 (
                  outb_wait pic1_data 1 (
                    outb_wait pic2_data 1
                      (outb_wait pic1_data a1 (record { port = pic2_data; value = a2 } ∷ [])))))))))
