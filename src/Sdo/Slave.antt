-- ===== src/Sdo/Slave.antt =====
-- A slave that decodes the segments of ecmcCANOpenSDO's writeNextDataToSlave, as the comment there
-- states them: command byte 000tnnnc; and what it makes of the frames.
use e3_ecmc_plugin_socketcan.Common.{
  ℕ, zero, suc, ◌+◌, ◌*◌, ◌-◌, ◌/◌, ◌%◌, ◌^◌, ◌≤◌, ◌<◌, ◌≡◌, refl, ap, ◌∙◌, Bool, true, false, not,
  Option, none, some, List, [], ◌∷◌, ◌++◌, arith, leb, ◌==◌, if◌then◌else◌, length, take, drop, set,
  get_or, length-take, length-drop, take-append, take-all, drop-drop, take-append-drop, le→leb,
  ==_iff,
}
use e3_ecmc_plugin_socketcan.Defs.{write_data}
use e3_ecmc_plugin_socketcan.Frame.{Frame, byte}
use e3_ecmc_plugin_socketcan.Sdo.{Sdo, write_cmd_byte}
use e3_ecmc_plugin_socketcan.Sdo.Invariant.{HasSizes}
use e3_ecmc_plugin_socketcan.Sdo.Segments.{next_size, command_of, sent_frame, with_sent}

-- The fields of the command byte 000tnnnc.
abbrev pub is_last : Frame → Bool
is_last f = byte f 0 % 2 == 1

abbrev pub unused : Frame → ℕ
unused f = byte f 0 / 2 % 8

abbrev pub toggle : Frame → Bool
toggle f = byte f 0 / 16 % 2 == 1

abbrev pub chunk : Frame → List ℕ
chunk f = take (7 - unused f) (drop 1 f.payload)

abbrev same_bool : Bool → Bool → Bool
same_bool true b = b
same_bool false b = not b

abbrev behind : List ℕ → Option (List ℕ) → Option (List ℕ)
behind bs none = none
behind bs (some cs) = some (bs ++ cs)

abbrev alone : List ℕ → List Frame → Option (List ℕ)
alone bs [] = some bs
alone bs (f ∷ fs) = none

-- A slave that receives a segmented write: the toggle must alternate, the length must fit, and the
-- last segment, and no other, must be marked. The value is then complete.
pub receive : ℕ → Bool → List Frame → Option (List ℕ)
receive can_id t [] = none
receive can_id t (f ∷ fs) =
    let rest = receive can_id (not t) fs in
    if same_bool t (toggle f)
    then (if f.can_id == can_id
        then (if f.can_dlc == 8 - unused f
            then (if is_last f then alone (chunk f) fs else behind (chunk f) rest)
            else none)
        else none)
    else none

same_bool_self : (t : Bool) → same_bool t t ≡ true
same_bool_self true = refl
same_bool_self false = refl

receive-last :
    (can_id : ℕ) (t : Bool) (f : Frame)
    → toggle f ≡ t
    → f.can_id ≡ can_id
    → f.can_dlc ≡ 8 - unused f
    → is_last f ≡ true
    → receive can_id t (f ∷ []) ≡ some (chunk f)
unfolding receive
receive-last can_id t f g i d l =
    rw (g, same_bool_self t, l, (==_iff f.can_id can_id).1 i, (==_iff f.can_dlc (8 - unused f)).1 d)

receive-more :
    (can_id : ℕ) (t : Bool) (f : Frame) (fs : List Frame) {bs : List ℕ}
    → toggle f ≡ t
    → f.can_id ≡ can_id
    → f.can_dlc ≡ 8 - unused f
    → is_last f ≡ false
    → receive can_id (not t) fs ≡ some bs
    → receive can_id t (f ∷ fs) ≡ some (chunk f ++ bs)
unfolding receive
receive-more can_id t f fs g i d l h =
    rw (
      g,
      same_bool_self t,
      l,
      (==_iff f.can_id can_id).1 i,
      (==_iff f.can_dlc (8 - unused f)).1 d,
      h,
    )

command_fields :
    (l : Bool) (n : ℕ) (t : Bool)
    → n ≤ 7
    → ((write_cmd_byte l n t % 2 == 1) ≡ l)
      × (write_cmd_byte l n t / 2 % 8 ≡ n)
      × ((write_cmd_byte l n t / 16 % 2 == 1) ≡ t)
unfolding write_cmd_byte
command_fields true n true h = ground arith
command_fields true n false h = ground arith
command_fields false n true h = ground arith
command_fields false n false h = ground arith

first_byte :
    (p : List ℕ) (c : ℕ) (rest : List ℕ)
    → length p ≡ 8
    → (get_or (take 1 (set p 0 c) ++ rest) 0 0 ≡ c) × (drop 1 (take 1 (set p 0 c) ++ rest) ≡ rest)
first_byte [] c rest h = absurd (omega arith)
first_byte (x ∷ p) c rest h = (refl, refl)

-- What the slave reads from a segment.
record Decodes (t : Bool) (s : Sdo) (f : Frame) : Type 0 where
  last : is_last f ≡ leb s.od_size (s.written_bytes + next_size s)
  toggled : toggle f ≡ t
  unused_bytes : unused f ≡ 7 - next_size s
  bytes : chunk f ≡ take (next_size s) (drop s.written_bytes s.data_buffer)

sent_frame-Decodes :
    (t : Bool) (s : Sdo) → HasSizes s → s.written_bytes < s.od_size → Decodes t s (sent_frame t s)
sent_frame-Decodes t s z h =
    let n : ℕ = next_size s in
    let p : List ℕ = s.write_data_frame.payload in
    let seg : List ℕ = take n (drop s.written_bytes s.data_buffer) in
    let sum : (s.written_bytes + n) % 2 ^ 32 ≡ s.written_bytes + n = omega (arith, z.small) in
    let (first, behind_first) =
      first_byte p (command_of t s) (seg ++ drop (1 + n) (set p 0 (command_of t s))) z.framed in
    let (l, u, g) =
      command_fields (leb s.od_size ((s.written_bytes + n) % 2 ^ 32)) (7 - n) t (omega arith) in
    let uf : unused (sent_frame t s) ≡ 7 - n = rw first u in
    let k : 7 - unused (sent_frame t s) ≡ n = omega (arith, uf) in
    let full : n ≡ length seg = omega (
      arith,
      length-take n (drop s.written_bytes s.data_buffer),
      length-drop s.written_bytes s.data_buffer,
      z.buffered,
    ) in
    record {
      last = rw first (l ∙ rw sum);
      toggled = rw first g;
      unused_bytes = uf;
      bytes = rw (k, behind_first) (take-append n seg _ full);
    }

-- What is left to send is `m` segments: nothing, or what the slave then receives.
abbrev pub Decoded : ℕ → Bool → Sdo → List Frame → Type 0
Decoded zero t s fs = fs ≡ []
Decoded (suc m) t s fs = receive s.cob_id_rx t fs ≡ some (drop s.written_bytes s.data_buffer)

-- A segment, and the rest behind it.
pub receive_next :
    (m : ℕ) (t : Bool) (s : Sdo) (fs : List Frame)
    → HasSizes s
    → s.od_size - s.written_bytes ≤ 7 * suc m
    → 7 * suc m < s.od_size - s.written_bytes + 7
    → Decoded m (not t) (with_sent t s) fs
    → receive s.cob_id_rx t (sent_frame t s ∷ fs) ≡ some (drop s.written_bytes s.data_buffer)
receive_next zero t s fs z hi lo d =
    let h : s.written_bytes < s.od_size = omega arith in
    let e = sent_frame-Decodes t s z h in
    let l : leb s.od_size (s.written_bytes + next_size s) ≡ true = le→leb _ _ (omega arith) in
    let all : take (next_size s) (drop s.written_bytes s.data_buffer)
        ≡ drop s.written_bytes s.data_buffer =
      take-all (next_size s) (drop s.written_bytes s.data_buffer)
        (omega (arith, length-drop s.written_bytes s.data_buffer, z.buffered)) in
    rw d (
      receive-last s.cob_id_rx t (sent_frame t s) e.toggled z.addressed
        (omega (arith, e.unused_bytes)) (e.last ∙ l)
      ∙ ap some (e.bytes ∙ all))
receive_next (suc m) t s fs z hi lo d =
    let h : s.written_bytes < s.od_size = omega arith in
    let e = sent_frame-Decodes t s z h in
    let l : leb s.od_size (s.written_bytes + next_size s) ≡ false = ground arith in
    receive-more s.cob_id_rx t (sent_frame t s) fs e.toggled z.addressed
      (omega (arith, e.unused_bytes)) (e.last ∙ l) d
    ∙ ap some (
        rw (e.bytes, ← drop-drop s.written_bytes (next_size s) s.data_buffer)
          (take-append-drop (next_size s) (drop s.written_bytes s.data_buffer)))

pub moved-Decoded :
    (m : ℕ) (t : Bool) (s : Sdo) (fs : List Frame)
    → Decoded m t (record s { write_state = write_data }) fs
    → Decoded m t s fs
moved-Decoded zero t s fs d = d
moved-Decoded (suc m) t s fs d = d
