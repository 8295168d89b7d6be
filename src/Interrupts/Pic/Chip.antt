-- ===== src/Interrupts/Pic/Chip.antt =====
-- What the port writes do to the two 8259 controllers, by the protocol of their data sheet: a
-- command with bit 4 set starts the initialisation, and data bytes follow it: the vector offset, the
-- wiring unless bit 1 of the command says that the chip is alone, and the mode if bit 0 announces it,
-- without which the mode is 0. Any other data byte is the interrupt mask.
use eta_os.Base.{ℕ, ◌/◌, ◌%◌, ◌≡◌, refl, Bool, true, false, List, [], ◌∷◌, ◌==◌, if◌then◌else◌}
use eta_os.Timer.{PortWrite}
use eta_os.Interrupts.Pic.{pic1_cmd, pic1_data, pic2_cmd, pic2_data, remap_pic}

pub data Stage : Type 0 where
  ready : Stage
  wants_offset : Stage
  wants_wiring : Stage
  wants_mode : Stage

pub record Chip : Type 0 where
  pub stage : Stage
  pub single : Bool
  pub has_mode : Bool
  pub vector_offset : ℕ
  pub wiring : ℕ
  pub mode : ℕ
  pub mask : ℕ

-- The start of the initialisation clears the mask, and the mode until it is told anew.
abbrev pub command : Chip → ℕ → Chip
command c value =
    if value / 16 % 2 == 1
    then record c {
      stage = wants_offset;
      single = value / 2 % 2 == 1;
      has_mode = value % 2 == 1;
      mode = 0;
      mask = 0;
    }
    else c

-- What follows the wiring.
abbrev pub wired : Chip → Stage
wired c = if c.has_mode then wants_mode else ready

abbrev pub data_byte : Stage → Chip → ℕ → Chip
data_byte ready c value = record c { mask = value }
data_byte wants_offset c value = record c {
  stage = if c.single then wired c else wants_wiring;
  vector_offset = value;
}
data_byte wants_wiring c value = record c { stage = wired c; wiring = value }
data_byte wants_mode c value = record c { stage = ready; mode = value }

pub record Chips : Type 0 where
  pub master : Chip
  pub slave : Chip

abbrev pub receive : Chips → PortWrite → Chips
receive s w =
    if w.port == pic1_cmd
    then record s { master = command s.master w.value }
    else if w.port == pic1_data
    then record s { master = data_byte s.master.stage s.master w.value }
    else if w.port == pic2_cmd
    then record s { slave = command s.slave w.value }
    else if w.port == pic2_data
    then record s { slave = data_byte s.slave.stage s.slave w.value }
    else s

unfoldable pub receive_all : Chips → List PortWrite → Chips
receive_all s [] = s
receive_all s (w ∷ ws) = receive_all (receive s w) ws

-- Whatever state the controllers are in, remap_pic tells both that they are not alone and that
-- a mode follows, and leaves them ready, the master with the vectors from 0x20 on and the slave
-- on its line 2, the slave with the vectors from 0x28 on, both in 8086 mode, and with the masks
-- that were read.
pub remap_pic-receive_all :
    (s : Chips) (a1 a2 : ℕ)
    → receive_all s (remap_pic a1 a2) ≡ record {
      master = record {
        stage = ready;
        single = false;
        has_mode = true;
        vector_offset = 0x20;
        wiring = 4;
        mode = 1;
        mask = a1;
      };
      slave = record {
        stage = ready;
        single = false;
        has_mode = true;
        vector_offset = 0x28;
        wiring = 2;
        mode = 1;
        mask = a2;
      };
    }
unfolding receive_all remap_pic
remap_pic-receive_all s a1 a2 = refl
