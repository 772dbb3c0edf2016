-- ===== src/SocketCan/SameBuffer.antt =====
-- The commands that add devices and objects do not touch the write buffer.
use e3_ecmc_plugin_socketcan.Common.{ℕ, ◌≡◌, arith}
use e3_ecmc_plugin_socketcan.Common.Int.{ℤ}
use e3_ecmc_plugin_socketcan.Common.Attempt.{Attempt, ok, thrown, crashed}
use e3_ecmc_plugin_socketcan.Defs.{Direction}
use e3_ecmc_plugin_socketcan.SocketCan.{SocketCan}
use e3_ecmc_plugin_socketcan.SocketCan.Table.{
  add_master, add_device, add_pdo, add_sdo, found, constructed, put_device, check_master,
}

-- A command that ends, with an exception or not, has the write buffer of before.
abbrev pub SameBuffer : SocketCan → Attempt SocketCan → Type 0
SameBuffer s (ok s') = s'.write_buffer ≡ s.write_buffer
SameBuffer s (thrown e) = Unit {0}
SameBuffer s crashed = Unit {0}

pub add_device-SameBuffer :
    (node_id timeout : ℕ) (s : SocketCan) → SameBuffer s (add_device node_id timeout s)
unfolding add_device
add_device-SameBuffer node_id timeout s = ground arith

pub add_master-SameBuffer :
    (node_id : ℕ) (lss sync heart : ℤ) (s : SocketCan)
    → SameBuffer s (add_master node_id lss sync heart s)
unfolding add_master check_master constructed
add_master-SameBuffer node_id lss sync heart s = ground arith

pub add_pdo-SameBuffer :
    (node_id cob_id od_size timeout period : ℕ) (rw : Direction) (s : SocketCan)
    → SameBuffer s (add_pdo node_id cob_id rw od_size timeout period s)
unfolding add_pdo found put_device
add_pdo-SameBuffer node_id cob_id od_size timeout period dir s = ground arith

pub add_sdo-SameBuffer :
    (node_id tx id_rx index sub size sample : ℕ) (rw : Direction) (s : SocketCan)
    → SameBuffer s (add_sdo node_id tx id_rx rw index sub size sample s)
unfolding add_sdo found put_device
add_sdo-SameBuffer node_id tx id_rx index sub size sample dir s = ground arith
