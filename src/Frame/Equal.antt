-- ===== src/Frame/Equal.antt =====
-- What ecmcCANOpenSDO::frameEqual decides.
use e3_ecmc_plugin_socketcan.Common.{
  ℕ, zero, suc, ◌<◌, ◌≡◌, refl, ap₂, true, ==_refl, List, [], ◌∷◌, ◌↔◌, arith, length, get_or,
}
use e3_ecmc_plugin_socketcan.Frame.{Frame, byte, frame_equal, IsFrame}

eq_of_get :
    (xs ys : List ℕ)
    → length xs ≡ length ys
    → ((i : ℕ) → i < length xs → get_or xs i 0 ≡ get_or ys i 0)
    → xs ≡ ys
eq_of_get [] [] p h = refl
eq_of_get [] (y ∷ ys) p h = absurd (omega arith)
eq_of_get (x ∷ xs) [] p h = absurd (omega arith)
eq_of_get (x ∷ xs) (y ∷ ys) p h =
    ap₂ ◌∷◌ (h 0 (omega arith)) (eq_of_get xs ys (omega arith) λ i q. h (suc i) (omega arith))

-- The eight comparisons, as one statement on indices.
bytes_equal : (f g : Frame) → frame_equal f g ≡ true → (i : ℕ) → i < 8 → byte f i ≡ byte g i
unfolding frame_equal
bytes_equal f g h zero q = ground arith
bytes_equal f g h (suc zero) q = ground arith
bytes_equal f g h (suc (suc zero)) q = ground arith
bytes_equal f g h (suc (suc (suc zero))) q = ground arith
bytes_equal f g h (suc (suc (suc (suc zero)))) q = ground arith
bytes_equal f g h (suc (suc (suc (suc (suc zero))))) q = ground arith
bytes_equal f g h (suc (suc (suc (suc (suc (suc zero)))))) q = ground arith
bytes_equal f g h (suc (suc (suc (suc (suc (suc (suc zero))))))) q = ground arith
bytes_equal f g h (suc (suc (suc (suc (suc (suc (suc (suc i)))))))) q = absurd (omega arith)

header_equal :
    (f g : Frame) → frame_equal f g ≡ true → (f.can_id ≡ g.can_id) × (f.can_dlc ≡ g.can_dlc)
unfolding frame_equal
header_equal f g h = ground arith

pub frame_equal_self : (f : Frame) → frame_equal f f ≡ true
unfolding frame_equal
frame_equal_self f = simp ==_refl

frame_eq :
    (f g : Frame) → f.can_id ≡ g.can_id → f.can_dlc ≡ g.can_dlc → f.payload ≡ g.payload → f ≡ g
frame_eq f g p q r = λ i. record { can_id = p i; can_dlc = q i; payload = r i }

-- Two frames of eight bytes compare equal exactly when they agree in id, length and all bytes, that
-- is, when they are the same frame.
pub frame_equal_iff : (f g : Frame) → IsFrame f → IsFrame g → (frame_equal f g ≡ true) ↔ (f ≡ g)
frame_equal_iff f g p q = (to, λ e. rw e (frame_equal_self g))
  where
    to : frame_equal f g ≡ true → f ≡ g
    to h =
        frame_eq f g (header_equal f g h).0 (header_equal f g h).1
          (eq_of_get f.payload g.payload (omega arith) λ i r. bytes_equal f g h i (omega arith))
