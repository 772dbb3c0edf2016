-- ===== src/Sdo/Tests.antt =====
-- Transfers of a value of two bytes.
use e3_ecmc_plugin_socketcan.Common.{◌≡◌, refl, true, false, some, List, [], ◌∷◌, arith}
use e3_ecmc_plugin_socketcan.Common.Memory.{done, fault}
use e3_ecmc_plugin_socketcan.Defs.{
  Direction, dir_write, dir_read, read_idle, read_wait_for_conf, read_wait_for_data, write_idle,
  write_wait_for_conf,
}
use e3_ecmc_plugin_socketcan.Frame.{Frame}
use e3_ecmc_plugin_socketcan.WriteBuffer.{WriteBuffer, new_write_buffer}
use e3_ecmc_plugin_socketcan.Sink.{write_buffer_sink}
use e3_ecmc_plugin_socketcan.SdoFrames.{
  SdoConfig, read_slave_conf_frame, write_data_frame_base, write_slave_conf_cmd_frame,
  write_req_transfer_frame,
}
use e3_ecmc_plugin_socketcan.Sdo.{Sdo, Shared, new_sdo}
use e3_ecmc_plugin_socketcan.Sdo.Methods.{send, execute, new_rx_frame, asyn_write_sdo_value}
use e3_ecmc_plugin_socketcan.Sdo.Invariant.{IsValid, Ends, new_sdo-IsValid}
use e3_ecmc_plugin_socketcan.Sdo.Upload
use e3_ecmc_plugin_socketcan.Sdo.Awaits.{Awaits, IsSegment}
use e3_ecmc_plugin_socketcan.Sdo.Upload.{rx_all, upload}
use e3_ecmc_plugin_socketcan.Sdo.Slave.{receive}
use e3_ecmc_plugin_socketcan.Sdo.Download.{confirmations, put_all, download}
use e3_ecmc_plugin_socketcan.Sdo.Timeout.{executes, timeout_releases, timeout_writes_zeros}
use e3_ecmc_plugin_socketcan.Sdo.Run.{
  written, handle, handle-Ends, empty_frame_faults, short_value_faults,
}

abbrev config_of : Direction → SdoConfig
config_of dir = record {
  node_id = 3;
  cob_id_tx = 0x583;
  cob_id_rx = 0x603;
  rw = dir;
  od_index = 0x2690;
  od_sub_index = 1;
  od_size = 2;
  read_sample_time_ms = 10;
  exe_sample_time_ms = 1;
  dbg_mode = true;
}

-- Shared state with the lock held.
abbrev locked : Shared WriteBuffer
locked = record { sdo1_lock = true; write_buffer = new_write_buffer }

-- An object whose read, or whose write, has been requested.
abbrev reader : Sdo
reader = record (new_sdo (config_of dir_read)) { busy = true; read_state = read_wait_for_conf }

abbrev writer : Sdo
writer = record (new_sdo (config_of dir_write)) { busy = true; write_state = write_wait_for_conf }

reader-IsValid : IsValid WriteBuffer reader locked
unfolding new_sdo write_data_frame_base
reader-IsValid = record { sizes = ground arith; in_step = ground arith; holds = λ e. refl }

writer-IsValid : IsValid WriteBuffer writer locked
unfolding new_sdo write_data_frame_base
writer-IsValid = record { sizes = ground arith; in_step = ground arith; holds = λ e. refl }

abbrev segment : Frame
segment = record { can_id = 0x583; can_dlc = 3; payload = 1 ∷ 10 ∷ 20 ∷ 0 ∷ 0 ∷ 0 ∷ 0 ∷ 0 ∷ [] }

segment-IsSegment : IsSegment (config_of dir_read) segment
segment-IsSegment = record {
  frame = record { framed = refl; low = omega arith; high = omega arith };
  sender = refl;
  some_data = omega arith;
}

upload_example :
    (s' : Sdo) × (w' : Shared WriteBuffer) × (rx_all
        (read_slave_conf_frame (config_of dir_read) ∷ segment ∷ [])
        reader
        locked
      ≡ done (s', w'))
    × (s'.data_buffer ≡ 10 ∷ 20 ∷ [])
    × (s'.busy ≡ false)
    × (s'.read_state ≡ read_idle)
    × (s'.refresh_needed ≡ true)
    × (w'.sdo1_lock ≡ false)
    × (w'.write_buffer
        ≡ Upload.requested (config_of dir_read) false (segment ∷ []) new_write_buffer)
unfolding new_sdo
upload_example =
    upload segment [] reader locked reader-IsValid refl refl refl refl (segment-IsSegment, tt) refl

download_example :
    (frames : List Frame) × (s' : Sdo) × (w' : Shared WriteBuffer) × (rx_all
        (write_slave_conf_cmd_frame (config_of dir_write)
          ∷ confirmations (config_of dir_write) false 1)
        writer
        locked
      ≡ done (s', w'))
    × (w'.write_buffer ≡ put_all frames new_write_buffer)
    × (receive 0x603 false frames ≡ some (0 ∷ 0 ∷ []))
    × (s'.busy ≡ false)
    × (s'.write_state ≡ write_idle)
    × (s'.data_buffer ≡ 0 ∷ 0 ∷ [])
    × (w'.sdo1_lock ≡ false)
unfolding new_sdo
download_example =
    download 0 writer locked writer-IsValid refl refl refl (omega arith) (omega arith)

abbrev late_reader : Sdo
late_reader = record reader { busy_counter = 998 }

late_reader-IsValid : IsValid WriteBuffer late_reader locked
unfolding new_sdo write_data_frame_base
late_reader-IsValid = record { sizes = ground arith; in_step = ground arith; holds = λ e. refl }

timeout_releases_example :
    (s' : Sdo) × (executes 3 late_reader locked ≡ done (s', record locked { sdo1_lock = false }))
    × (s'.busy ≡ false)
    × (s'.read_state ≡ read_idle)
    × (s'.error_code ≡ 111)
    × (s'.error_param ≡ 111)
unfolding new_sdo
timeout_releases_example =
    timeout_releases 2 late_reader locked late_reader-IsValid refl refl (omega arith) (omega arith)

abbrev late_writer : Sdo
late_writer = record writer {
  busy_counter = 1000;
  write_pending = true;
  temp_data_buffer = 7 ∷ 8 ∷ [];
}

late_writer-IsValid : IsValid WriteBuffer late_writer locked
unfolding new_sdo write_data_frame_base
late_writer-IsValid = record { sizes = ground arith; in_step = ground arith; holds = λ e. refl }

timeout_writes_zeros_example :
    (s' : Sdo) × (execute late_writer locked
      ≡ done (s', send (write_req_transfer_frame (config_of dir_write)) locked))
    × (s'.data_buffer ≡ 0 ∷ 0 ∷ [])
    × (s'.write_state ≡ write_wait_for_conf)
    × (s'.write_pending ≡ false)
unfolding new_sdo
timeout_writes_zeros_example =
    timeout_writes_zeros late_writer locked late_writer-IsValid refl refl refl refl

-- A write that comes while a transfer runs.
handle-Ends_example : Ends (handle (written (5 ∷ 6 ∷ [])) writer locked)
unfolding new_sdo
handle-Ends_example =
    handle-Ends (written (5 ∷ 6 ∷ [])) writer locked writer-IsValid (refl, omega arith)

abbrev waiting_reader : Sdo
waiting_reader = record reader { read_state = read_wait_for_data; recived_bytes = 1 }

waiting_reader-Awaits : Awaits waiting_reader
unfolding new_sdo
waiting_reader-Awaits =
    let z = (new_sdo-IsValid (config_of dir_read) locked (omega arith) refl).sizes in
    record {
      sizes = record {
        small = z.small;
        buffered = z.buffered;
        temp = z.temp;
        framed = z.framed;
        addressed = z.addressed;
        recived = omega arith;
        written = z.written;
        printable = z.printable;
      };
      busy = refl;
      reads = refl;
      state = refl;
    }

empty_frame_faults_example :
    new_rx_frame (record segment { can_dlc = 0 }) waiting_reader locked ≡ fault
unfolding new_sdo
empty_frame_faults_example =
    empty_frame_faults (record segment { can_dlc = 0 }) waiting_reader locked waiting_reader-Awaits
      refl refl (omega arith)

short_value_faults_example : asyn_write_sdo_value (5 ∷ []) writer locked ≡ fault
unfolding new_sdo
short_value_faults_example =
    short_value_faults (5 ∷ []) writer locked (omega arith) (omega arith) (omega arith)
