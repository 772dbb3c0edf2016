-- ===== src/Frame.antt =====
-- CAN frames as the plugin handles them: the fields of `struct can_frame` that it reads and writes,
-- and ecmcCANOpenSDO::frameEqual (ecmc_plugin_socketcanApp/src/ecmcCANOpenSDO.cpp).
pub mod Equal
pub mod Tests
use e3_ecmc_plugin_socketcan.Common.{
  ℕ, suc, ◌+◌, ◌/◌, ◌%◌, ◌≤◌, ◌≡◌, refl, Bool, true, false, ◌&&◌, ◌==◌, ==_iff, ==_refl, List, [],
  ◌∷◌, ◌↔◌, arith, length, get_or,
}

-- `payload` is `data`, 8 bytes long in the C structure.
pub record Frame : Type 0 where
  pub can_id : ℕ
  pub can_dlc : ℕ
  pub payload : List ℕ

-- frame->data[i]
abbrev pub byte : Frame → ℕ → ℕ
byte f i = get_or f.payload i 0

pub frame_equal : Frame → Frame → Bool
frame_equal frame1 frame2 =
    frame1.can_id == frame2.can_id
    && (frame1.can_dlc == frame2.can_dlc
        && (byte frame1 0 == byte frame2 0
            && (byte frame1 1 == byte frame2 1
                && (byte frame1 2 == byte frame2 2
                    && (byte frame1 3 == byte frame2 3
                        && (byte frame1 4 == byte frame2 4
                            && (byte frame1 5 == byte frame2 5
                                && (byte frame1 6 == byte frame2 6
                                    && byte frame1 7 == byte frame2 7))))))))

-- The C structure has room for eight bytes.
abbrev pub IsFrame : Frame → Type 0
IsFrame f = length f.payload ≡ 8

abbrev pub zero_frame : Frame
zero_frame = record { can_id = 0; can_dlc = 0; payload = 0 ∷ 0 ∷ 0 ∷ 0 ∷ 0 ∷ 0 ∷ 0 ∷ 0 ∷ [] }
