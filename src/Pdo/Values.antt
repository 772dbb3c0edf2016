-- ===== src/Pdo/Values.antt =====
-- The data that an ecmcCANOpenPDO receives and sends.
use e3_ecmc_plugin_socketcan.Common.{
  ℕ, ◌+◌, ◌-◌, ◌%◌, ◌≤◌, ◌<◌, ◌≡◌, sym, ap, ◌∙◌, ◌⊎◌, inl, inr, Bool, true, List, ◌++◌, arith, ltb,
  if◌then◌else◌, length, replicate, take, drop, length-append, length-take, length-drop,
  length-replicate, take-append, take-all, drop-replicate, nil_of_length, Bool-cases, ltb→lt,
}
use e3_ecmc_plugin_socketcan.Common.Memory.{
  done, fault, ◌>>=◌, memcpy, memset, memcpy-done, memcpy-prefix, memcpy-head, memset-all,
}
use e3_ecmc_plugin_socketcan.Common.Bytes.{
  le_bytes, of_le_bytes, AreBytes, le_bytes-of_le_bytes, AreBytes-append, AreBytes-take,
  AreBytes-zeros,
}
use e3_ecmc_plugin_socketcan.Defs.{Direction, dir_read, dir_write}
use e3_ecmc_plugin_socketcan.Frame.{Frame, IsFrame}
use e3_ecmc_plugin_socketcan.Sink.{FrameSink, put}
use e3_ecmc_plugin_socketcan.Printing.{IsPrintable, print_if, print_if-done}
use e3_ecmc_plugin_socketcan.Pdo.{
  Pdo, new_pdo, new_rx_frame, set_value, write_value, asyn_write_pdo_value,
}

-- The sizes of the blocks that a PDO copies between; one that reads in debug mode has an even size.
pub record IsValid (p : Pdo) : Type 0 where
  pub small : p.od_size ≤ 8
  pub buffered : length p.data_buffer ≡ p.od_size
  pub framed : IsFrame p.write_frame
  pub sized : p.write_frame.can_dlc ≡ p.od_size
  pub printable : (p.rw ≡ dir_write) ⊎ IsPrintable p.dbg_mode p.od_size

-- A PDO that is made for at most 8 bytes is valid, if it is written or can be printed.
pub new_pdo-IsValid :
    (node_id cob_id : ℕ) (rw : Direction) (od_size timeout cycle sample : ℕ) (dbg_mode : Bool)
    → od_size ≤ 8
    → (rw ≡ dir_write) ⊎ IsPrintable dbg_mode od_size
    → IsValid (new_pdo node_id cob_id rw od_size timeout cycle sample dbg_mode)
unfolding new_pdo
new_pdo-IsValid node_id cob_id dir od_size timeout cycle sample dbg h p =
    ground (arith, length-replicate {A = ℕ} od_size 0, length-replicate {A = ℕ} 8 0, p)

-- The frame is for this PDO: it reads, and both the id and the length fit.
abbrev pub Fits : Frame → Pdo → Type 0
Fits f p = (p.rw ≡ dir_read) × (f.can_id ≡ p.cob_id) × (f.can_dlc ≡ p.od_size)

abbrev pub received : Frame → Pdo → Pdo
received f p = record p {
  data_buffer = take p.od_size f.payload;
  error_code = 0;
  refresh_needed = true;
}

pub received-IsValid : (f : Frame) (p : Pdo) → IsValid p → IsFrame f → IsValid (received f p)
received-IsValid f p v w = record {
  small = v.small;
  buffered = omega (arith, length-take p.od_size f.payload, v.small);
  framed = v.framed;
  sized = v.sized;
  printable = v.printable;
}

pub cleared_and_copied :
    (f : Frame) (p : Pdo)
    → IsFrame f
    → f.can_dlc ≡ p.od_size
    → p.od_size ≤ 8
    → length p.data_buffer ≡ p.od_size
    → (memset p.data_buffer 0 p.od_size >>= λ c. memcpy c 0 f.payload 0 f.can_dlc)
      ≡ done (take p.od_size f.payload)
cleared_and_copied f p w e small buffered =
    rw (memset-all p.data_buffer 0 p.od_size buffered, e)
      (memcpy-prefix _ f.payload p.od_size (length-replicate p.od_size 0) (omega (arith, small, w)))

clear_and_copy :
    (f : Frame) (p : Pdo)
    → IsValid p
    → IsFrame f
    → f.can_dlc ≡ p.od_size
    → (memset p.data_buffer 0 p.od_size >>= λ c. memcpy c 0 f.payload 0 f.can_dlc)
      ≡ done (take p.od_size f.payload)
clear_and_copy f p v w e = cleared_and_copied f p w e v.small v.buffered

-- The data that a frame leaves is printed inside its block.
printed :
    (f : Frame) (p : Pdo)
    → IsValid p
    → IsFrame f
    → p.rw ≡ dir_read
    → print_if p.dbg_mode p.od_size (take p.od_size f.payload) ≡ done tt
printed f p v w r = elim v.printable [
  | inl e ↦ absurd (ground (arith, e, r))
  | inr e ↦
      print_if-done p.dbg_mode p.od_size (take p.od_size f.payload) e
        (omega (arith, length-take p.od_size f.payload, v.small, w))
]

-- In a valid object, a frame that fits replaces the data by exactly its bytes, clears the error and
-- asks for a refresh; any other frame changes nothing. No copy leaves its block.
pub new_rx_frame_lem :
    (f : Frame) (p : Pdo)
    → IsValid p
    → IsFrame f
    → (Fits f p × (new_rx_frame f p ≡ done (received f p)))
      ⊎ ((¬ Fits f p) × (new_rx_frame f p ≡ done p))
unfolding new_rx_frame
new_rx_frame_lem f p v w = ground (arith, clear_and_copy f p v w, printed f p v w)

sent_payload : Pdo → List ℕ
sent_payload p = p.data_buffer ++ drop p.od_size p.write_frame.payload

copy_to_frame :
    (p : Pdo)
    → IsValid p
    → (if ltb 0 p.write_frame.can_dlc
        then memcpy p.write_frame.payload 0 p.data_buffer 0 p.write_frame.can_dlc
        else done p.write_frame.payload)
      ≡ done (sent_payload p)
unfolding sent_payload
copy_to_frame p v = ground (
  arith,
  memcpy-head p.write_frame.payload p.data_buffer p.od_size v.buffered
      (omega (arith, v.framed, v.small)),
  nil_of_length p.data_buffer,
)

-- The frame that a write sends: the id, the length and the data of the object.
abbrev pub data_frame : Pdo → Frame
data_frame p = record (p.write_frame) {
  payload = p.data_buffer ++ drop p.od_size p.write_frame.payload;
}

pub data_frame-IsValid :
    (p : Pdo) → IsValid p → IsValid (record p { write_frame = data_frame p; refresh_needed = true })
data_frame-IsValid p v = record {
  small = v.small;
  buffered = v.buffered;
  framed = omega (
    arith,
    length-append p.data_buffer (drop p.od_size p.write_frame.payload),
    length-drop p.od_size p.write_frame.payload,
    v.buffered,
    v.framed,
    v.small,
  );
  sized = v.sized;
  printable = v.printable;
}

-- The bytes that a value of any length leaves in a zeroed uint64_t.
abbrev pub as_uint64 : List ℕ → List ℕ
as_uint64 value = take 8 value ++ replicate (8 - length value) 0

as_uint64-AreBytes : (value : List ℕ) → AreBytes value → AreBytes (as_uint64 value)
as_uint64-AreBytes value a =
    AreBytes-append (take 8 value) _ (AreBytes-take 8 value a) (AreBytes-zeros (8 - length value))

length-as_uint64 : (value : List ℕ) → length (as_uint64 value) ≡ 8
length-as_uint64 value = omega (
  arith,
  length-append (take 8 value) (replicate (8 - length value) 0),
  length-take 8 value,
  length-replicate {A = ℕ} (8 - length value) 0,
)

copy_bytes :
    (value : List ℕ) (n : ℕ)
    → n ≤ 8
    → n ≤ length value
    → memcpy (le_bytes 8 0) 0 value 0 n ≡ done (take n value ++ replicate (8 - n) 0)
copy_bytes value n p q =
    memcpy-done (le_bytes 8 0) 0 value 0 n (omega arith) (omega arith)
    ∙ let e : 0 + n ≡ n = omega arith in
      ap (λ l. done (take n value ++ l)) (rw e (drop-replicate n 8 0))

uint64_copy :
    (value : List ℕ)
    → memcpy (le_bytes 8 0) 0 value 0 (if ltb 8 (length value) then 8 else length value)
      ≡ done (as_uint64 value)
uint64_copy value = elim (Bool-cases (ltb 8 (length value))) [
  | inl e ↦
      let h : 8 < length value = ltb→lt 8 (length value) e in
      let z : 8 - length value ≡ 8 - 8 = omega arith in
      rw (e, z) (copy_bytes value 8 (omega arith) (omega arith))
  | inr e ↦
      let h : length value ≤ 8 = ground arith in
      rw (e, take-all 8 value h)
        (copy_bytes value (length value) h (omega arith)
          ∙ ap (λ l. done (l ++ replicate (8 - length value) 0))
              (take-all (length value) value (omega arith)))
]

module _ {B : Type 0} ⦃k : FrameSink B⦄ where
  -- writeValue of a valid object sends one frame, whose bytes are the object's data; it returns the
  -- buffer's code, and leaves the data as it is. No copy leaves its block.
  pub write_value_lem :
      (p : Pdo) (b : B)
      → IsValid p
      → let p' : Pdo = record p { write_frame = data_frame p; refresh_needed = true } in
        (write_value p b ≡ done ((k.add_write_can (data_frame p) b).0, p', put (data_frame p) b))
        × (take p.od_size (data_frame p).payload ≡ p.data_buffer)
        × IsValid p'
  unfolding write_value sent_payload
  write_value_lem p b v = (
    rw (copy_to_frame p v, sent_payload),
    take-append p.od_size p.data_buffer _ (sym v.buffered),
    data_frame-IsValid p v,
  )

  -- A PDO for more than 8 bytes (and no multiple of 256) keeps the full number as the length of
  -- its frame, and its first write copies past the ends of the 8 data bytes.
  pub write_value-oversized :
      (node_id cob_id : ℕ) (rw : Direction) (od_size timeout cycle sample : ℕ) (dbg : Bool) (b : B)
      → 8 < od_size % 256
      → write_value (new_pdo node_id cob_id rw od_size timeout cycle sample dbg) b ≡ fault
  unfolding write_value new_pdo memcpy
  write_value-oversized node_id cob_id dir od_size timeout cycle sample dbg b h = ground arith

  -- A value of bytes that is written over asyn to a valid object goes out as the first bytes of the
  -- next frame: at most 8 bytes are taken, and zeros fill up a shorter value.
  pub asyn_write_pdo_value_lem :
      (value : List ℕ) (p : Pdo) (b : B)
      → IsValid p
      → AreBytes value
      → (q : Pdo) × (asyn_write_pdo_value value p b
          ≡ done (
            record q { write_frame = data_frame q; refresh_needed = true },
            put (data_frame q) b,
          ))
        × (take p.od_size (data_frame q).payload ≡ take p.od_size (as_uint64 value))
        × (IsValid q)
  unfolding asyn_write_pdo_value set_value
  asyn_write_pdo_value_lem value p b v a =
      let temp : List ℕ = as_uint64 value in
      let q : Pdo = record p { data_buffer = take p.od_size temp } in
      let bytes : le_bytes 8 (of_le_bytes temp) ≡ temp =
        le_bytes-of_le_bytes 8 temp (as_uint64-AreBytes value a) (length-as_uint64 value) in
      let copied : memcpy p.data_buffer 0 (le_bytes 8 (of_le_bytes temp)) 0 p.od_size
          ≡ done (take p.od_size temp) =
        rw bytes (
          memcpy-prefix p.data_buffer temp p.od_size v.buffered
            (omega (arith, v.small, length-as_uint64 value))) in
      let valid : IsValid q = record {
        small = v.small;
        buffered = omega (arith, length-take p.od_size temp, length-as_uint64 value, v.small);
        framed = v.framed;
        sized = v.sized;
        printable = v.printable;
      } in
      (
        q,
        rw (uint64_copy value, copied, (write_value_lem q b valid).0),
        (write_value_lem q b valid).1,
        valid,
      )
