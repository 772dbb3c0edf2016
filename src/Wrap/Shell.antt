-- ===== src/Wrap/Shell.antt =====
-- The commands of the EPICS shell in ecmcSocketCANWrap.cpp: ecmcCANOpenAddMaster, AddDevice, AddSDO and
-- AddPDO. A name is the bytes before its NUL, and `none` is NULL; an int is an integer.
-- `asyn_success` and `asyn_error` are the two values of asynStatus that are returned.
use e3_ecmc_plugin_socketcan.Common.{
  ℕ, ◌%◌, ◌^◌, Bool, true, false, ◌||◌, Option, none, some, List, [], ◌∷◌, ltb, ◌==◌, if◌then◌else◌,
}
use e3_ecmc_plugin_socketcan.Common.Int.{ℤ, pos, negsuc, is_neg, pos_part, to_uint32}
use e3_ecmc_plugin_socketcan.Common.Memory.{Outcome, done, fault}
use e3_ecmc_plugin_socketcan.Common.Attempt.{Attempt, ok, thrown, crashed}
use e3_ecmc_plugin_socketcan.Defs.{Direction, dir_write, dir_read}
use e3_ecmc_plugin_socketcan.Config.{codes}
use e3_ecmc_plugin_socketcan.SocketCan.{SocketCan}
use e3_ecmc_plugin_socketcan.SocketCan.Table.{add_master, add_device, add_pdo, add_sdo}
use e3_ecmc_plugin_socketcan.Wrap.{Can, null, deleted, live}

pub data AsynStatus : Type 0 where
  asyn_success asyn_error : AsynStatus

-- strcmp(a, b) == 0
abbrev pub same_text : List ℕ → List ℕ → Bool
same_text [] [] = true
same_text [] (y ∷ ys) = false
same_text (x ∷ xs) [] = false
same_text (x ∷ xs) (y ∷ ys) = if x == y then same_text xs ys else false

abbrev pub is_help : List ℕ → Bool
is_help name = same_text name (codes "-h") || same_text name (codes "--help")

-- Every exception that the call throws is caught.
unfoldable pub report : SocketCan → Attempt SocketCan → Outcome (AsynStatus × Can)
report s (ok s') = done (asyn_success, live s')
report s (thrown e) = done (asyn_error, live s)
report s crashed = fault

-- A call through the pointer, without a test for NULL.
unfoldable pub through : (SocketCan → Attempt SocketCan) → Can → Outcome (AsynStatus × Can)
unfolding report
through call null = fault
through call deleted = fault
through call (live s) = report s (call s)

-- The same call, behind `if(!can)`.
unfoldable pub through_checked : (SocketCan → Attempt SocketCan) → Can → Outcome (AsynStatus × Can)
unfolding through
through_checked call null = done (asyn_error, null)
through_checked call deleted = through call deleted
through_checked call (live s) = through call (live s)

-- The two tests that every command starts with.
unfoldable pub with_name :
    Option (List ℕ) → Can → Outcome (AsynStatus × Can) → Outcome (AsynStatus × Can)
with_name none can rest = done (asyn_error, can)
with_name (some name) can rest = if is_help name then done (asyn_success, can) else rest

-- A test that ends the command with an error.
abbrev pub refuse_if : Bool → Can → Outcome (AsynStatus × Can) → Outcome (AsynStatus × Can)
refuse_if test can rest = if test then done (asyn_error, can) else rest

-- `dir > 2 || dir <= 0`
abbrev pub invalid_dir : ℤ → Bool
invalid_dir (pos n) = ltb 2 n || (n == 0)
invalid_dir (negsuc n) = true

-- `dir == 1`
abbrev pub temp_dir : ℤ → Direction
temp_dir (pos n) = if n == 1 then dir_write else dir_read
temp_dir (negsuc n) = dir_read

unfoldable pub ecmc_can_open_add_master :
    Option (List ℕ) → ℤ → ℤ → ℤ → ℤ → Can → Outcome (AsynStatus × Can)
ecmc_can_open_add_master name node_id lss sync heart can =
    with_name name can (through_checked (λ s. add_master (to_uint32 node_id) lss sync heart s) can)

-- The test for NULL stands before that of the timeout.
unfoldable pub ecmc_can_open_add_device : Option (List ℕ) → ℤ → ℤ → Can → Outcome (AsynStatus × Can)
ecmc_can_open_add_device name node_id heart_time_out_ms can =
    let rest : Outcome (AsynStatus × Can) =
      refuse_if (is_neg heart_time_out_ms) can
        (through (λ s. add_device (to_uint32 node_id) (pos_part heart_time_out_ms) s) can) in
    with_name name can
      (elim can [ null ↦ done (asyn_error, null) | deleted ↦ rest | live s ↦ rest ])

-- ODIndex becomes a uint16_t and ODSubIndex a uint8_t.
unfoldable pub ecmc_can_open_add_sdo :
    Option (List ℕ) → ℤ → ℤ → ℤ → ℤ → ℤ → ℤ → ℤ → ℤ → Can → Outcome (AsynStatus × Can)
ecmc_can_open_add_sdo name node_id tx id_rx dir od_index od_sub_index od_size sample can =
    with_name name can (
      refuse_if (is_neg id_rx) can (
        refuse_if (is_neg tx) can (
          refuse_if (invalid_dir dir) can (
            refuse_if (is_neg od_index) can (
              refuse_if (is_neg od_sub_index) can (
                refuse_if (is_neg od_size) can (
                  refuse_if (is_neg sample) can (
                    through
                      (λ s.
                        add_sdo (to_uint32 node_id) (pos_part tx) (pos_part id_rx) (temp_dir dir)
                          (pos_part od_index % 2 ^ 16) (pos_part od_sub_index % 2 ^ 8)
                          (pos_part od_size) (pos_part sample) s)
                      can))))))))

unfoldable pub ecmc_can_open_add_pdo :
    Option (List ℕ) → ℤ → ℤ → ℤ → ℤ → ℤ → ℤ → Can → Outcome (AsynStatus × Can)
ecmc_can_open_add_pdo name node_id cob_id dir od_size read_timeout_ms write_cycle_ms can =
    with_name name can (
      refuse_if (invalid_dir dir) can (
        refuse_if (is_neg od_size) can (
          refuse_if (is_neg read_timeout_ms) can (
            refuse_if (is_neg write_cycle_ms) can (
              through
                (λ s.
                  add_pdo (to_uint32 node_id) (to_uint32 cob_id) (temp_dir dir) (pos_part od_size)
                    (pos_part read_timeout_ms) (pos_part write_cycle_ms) s)
                can)))))
