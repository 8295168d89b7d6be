-- ===== src/Tests/StartTest.antt =====
-- The start of the kernel: the machine of the page tables' tests, and the handlers of a boot.
use eta_os.Base.{◌+◌, ◌^◌, ◌≤◌, ◌≡◌, true, false, arith}
use eta_os.Bitmap.{get}
use eta_os.Tests.PagingTest.{machine}
use eta_os.Start.Gates.{HasGates, prepare_interrupts-HasGates}
use eta_os.Start.{Handlers, prepare_interrupts}
use eta_os.Frames.{request_scan, request_page}
use eta_os.Interrupts.Pic.Chip.{
  ready, wants_offset, wants_mode, Chips, receive_all, remap_pic-receive_all,
}
use eta_os.Interrupts.Pic.{remap_pic}

abbrev handlers : Handlers
handlers = record {
  page_fault_handler = 0x10_0100;
  double_fault_handler = 0x10_0200;
  gp_fault_handler = 0x10_0300;
  keyboard_int_handler = 0x10_0400;
  pit_int_handler = 0x10_0500;
}

room : (request_page machine).1 + 4096 ≤ 2 ^ 64
unfolding request_page request_scan get
room = omega arith

prepare_interrupts-HasGates_example :
    HasGates
      (prepare_interrupts machine handlers 0b1111_1000 0b1110_1111).0.mem
      (prepare_interrupts machine handlers 0b1111_1000 0b1110_1111).1
      handlers
prepare_interrupts-HasGates_example =
    prepare_interrupts-HasGates machine handlers 0b1111_1000 0b1110_1111 room (record {
      page_fault_fits = omega arith;
      double_fault_fits = omega arith;
      gp_fault_fits = omega arith;
      keyboard_int_fits = omega arith;
      pit_int_fits = omega arith;
    })

-- Controllers that were left in the middle of an initialisation.
abbrev stuck : Chips
stuck = record {
  master = record {
    stage = wants_mode;
    single = true;
    has_mode = true;
    vector_offset = 8;
    wiring = 4;
    mode = 0;
    mask = 0;
  };
  slave = record {
    stage = wants_offset;
    single = false;
    has_mode = false;
    vector_offset = 0x70;
    wiring = 2;
    mode = 0;
    mask = 0;
  };
}

remap_pic-receive_all_example : receive_all stuck (remap_pic 0b1111_1000 0b1110_1111) ≡ record {
  master = record {
    stage = ready;
    single = false;
    has_mode = true;
    vector_offset = 0x20;
    wiring = 4;
    mode = 1;
    mask = 0b1111_1000;
  };
  slave = record {
    stage = ready;
    single = false;
    has_mode = true;
    vector_offset = 0x28;
    wiring = 2;
    mode = 1;
    mask = 0b1110_1111;
  };
}
remap_pic-receive_all_example = remap_pic-receive_all stuck 0b1111_1000 0b1110_1111
