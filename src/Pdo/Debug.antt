-- ===== src/Pdo/Debug.antt =====
-- An ecmcCANOpenPDO in debug mode, which prints the data of each frame.
use e3_ecmc_plugin_socketcan.Common.{◌%◌, ◌≤◌, ◌≡◌, true, arith, length, take, length-take}
use e3_ecmc_plugin_socketcan.Common.Memory.{fault}
use e3_ecmc_plugin_socketcan.Frame.{Frame, IsFrame}
use e3_ecmc_plugin_socketcan.Printing.{print_if-fault}
use e3_ecmc_plugin_socketcan.Pdo.{Pdo, new_rx_frame}
use e3_ecmc_plugin_socketcan.Pdo.Values.{Fits, cleared_and_copied}

-- In debug mode, a PDO of 1, 3, 5 or 7 bytes reads behind the end of its data with every frame that it
-- takes: printBuffer reads the last byte as one of two.
pub odd_sizes_fault :
    (f : Frame) (p : Pdo)
    → IsFrame f
    → Fits f p
    → p.dbg_mode ≡ true
    → p.od_size ≤ 8
    → length p.data_buffer ≡ p.od_size
    → p.od_size % 2 ≡ 1
    → new_rx_frame f p ≡ fault
unfolding new_rx_frame
odd_sizes_fault f p w fits debug small buffered odd = ground (
  arith,
  cleared_and_copied f p w fits.2 small buffered,
  print_if-fault p.od_size (take p.od_size f.payload) odd
      (omega (arith, length-take p.od_size f.payload, small, w)),
)
