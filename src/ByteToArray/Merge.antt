-- ===== src/ByteToArray/Merge.antt =====
-- What the routine merges, while the number of bytes is at most 12.
use e3_ecmc_plugin_socketcan.Common.{
  ℕ, zero, suc, ◌+◌, ◌≤◌, ◌<◌, ◌≡◌, refl, ap, ◌∙◌, List, [], ◌∷◌, ◌++◌, arith, ◌==◌, if◌then◌else◌,
  length, set-append, get_or, length-append, append_assoc,
}
use e3_ecmc_plugin_socketcan.Common.Memory.{done}
use e3_ecmc_plugin_socketcan.ByteToArray.{
  Input, no_input, ASubRecord, store_input, store_inputs, byte_to_array,
}

-- The array with each element replaced whose input has exactly one element.
abbrev pub merged : List Input → List ℕ → List ℕ
merged [] vs = vs
merged (x ∷ xs) [] = []
merged (x ∷ xs) (v ∷ vs) = (if x.count == 1 then x.first else v) ∷ merged xs vs

-- `m` tests from the index `i` on, each of which compares with its index plus 1.
abbrev regular : ℕ → ℕ → List (ℕ × ℕ)
regular zero i = []
regular (suc m) i = (i + 1, i) ∷ regular m (i + 1)

abbrev Above : ℕ → List (ℕ × ℕ) → Type 0
Above n [] = Unit {0}
Above n ((t, i) ∷ ts) = (n < t) × Above n ts

get-append : {A : Type 0} (xs ys : List A) (x d : A) → get_or (xs ++ (x ∷ ys)) (length xs) d ≡ x
get-append [] ys x d = refl
get-append (a ∷ xs) ys x d = get-append xs ys x d

-- Tests that compare with more bytes than there are store nothing.
store_inputs-skips :
    (ts : List (ℕ × ℕ)) (r : ASubRecord) (vala : List ℕ)
    → r.nova < 256
    → Above r.nova ts
    → store_inputs ts r vala ≡ done vala
unfolding store_inputs store_input
store_inputs-skips [] r vala small a = refl
store_inputs-skips ((t, i) ∷ ts) r vala small (h, a) =
    ground (arith, store_inputs-skips ts r vala small a)

regular-Above : (m i n : ℕ) → n ≤ i → Above n (regular m i)
regular-Above zero i n h = tt
regular-Above (suc m) i n h = (omega arith, regular-Above m (i + 1) n (omega arith))

append-Above : (ss ts : List (ℕ × ℕ)) (n : ℕ) → Above n ss → Above n ts → Above n (ss ++ ts)
append-Above [] ts n a b = b
append-Above (s ∷ ss) ts n (h, a) b = (h, append-Above ss ts n a b)

merged-nil : (xs : List Input) → [] ≡ merged xs []
merged-nil [] = refl
merged-nil (x ∷ xs) = refl

store-one :
    (ys xs : List Input) (x : Input) (us vs : List ℕ) (v n : ℕ)
    → length us ≡ length ys
    → length us + length (v ∷ vs) ≡ n
    → n < 256
    → store_input
        (length us + 1, length us)
        (record { nova = n; inputs = ys ++ (x ∷ xs) })
        (us ++ (v ∷ vs))
      ≡ done (us ++ ((if x.count == 1 then x.first else v) ∷ vs))
unfolding store_input
store-one ys xs x us vs v n e s small =
    ground
      (arith, get-append ys xs x no_input, set-append us vs v x.first, length-append us (v ∷ vs))

-- The regular tests from an index on replace the elements from there on.
store_inputs-regular :
    (m : ℕ) (ys xs : List Input) (us vs : List ℕ) (n : ℕ) (ts : List (ℕ × ℕ))
    → length us ≡ length ys
    → length us + length vs ≡ n
    → length vs ≤ length xs
    → length vs ≤ m
    → n < 256
    → Above n ts
    → store_inputs (regular m (length us) ++ ts) (record { nova = n; inputs = ys ++ xs }) (us ++ vs)
      ≡ done (us ++ merged xs vs)
unfolding store_inputs
store_inputs-regular m ys xs us [] n ts e s l k small a =
    store_inputs-skips (regular m (length us) ++ ts) (record { nova = n; inputs = ys ++ xs })
      (us ++ []) small
      (append-Above (regular m (length us)) ts n (regular-Above m (length us) n (omega arith)) a)
    ∙ ap (λ v. done (us ++ v)) (merged-nil xs)
store_inputs-regular zero ys xs us (v ∷ vs) n ts e s l k small a = absurd (omega arith)
store_inputs-regular (suc m) ys [] us (v ∷ vs) n ts e s l k small a = absurd (omega arith)
store_inputs-regular (suc m) ys (x ∷ xs) us (v ∷ vs) n ts e s l k small a =
    let b : ℕ = if x.count == 1 then x.first else v in
    let size : length (us ++ (b ∷ [])) ≡ length us + 1 = length-append us (b ∷ []) in
    let rest =
      store_inputs-regular m (ys ++ (x ∷ [])) xs (us ++ (b ∷ [])) vs n ts
        (omega (arith, size, length-append {0} ys (x ∷ []))) (omega (arith, size)) (omega arith)
        (omega arith) small a in
    rw (store-one ys xs x us vs v n e s small) (
      rw
        (
          size,
          append_assoc us (b ∷ []) vs,
          append_assoc ys (x ∷ []) xs,
          append_assoc us (b ∷ []) (merged xs vs),
        )
        at rest)

-- Up to 12 bytes: the first NOVA inputs are merged in their order. An output of NOVA elements, with
-- NOVA at most 12, gets the byte of every input that has one element, keeps its old element where
-- an input has not, and nothing is written outside it.
pub byte_to_array_lem :
    (r : ASubRecord) (vala : List ℕ)
    → r.nova ≤ 12
    → length vala ≡ r.nova
    → length r.inputs ≡ 19
    → byte_to_array r vala ≡ done (merged r.inputs vala)
unfolding byte_to_array
byte_to_array_lem r vala h s l =
    store_inputs-regular 13 [] r.inputs [] vala r.nova
      ((13, 13) ∷ (14, 14) ∷ (15, 15) ∷ (16, 16) ∷ (17, 17) ∷ (18, 18) ∷ []) refl (omega arith)
      (omega arith) (omega arith) (omega arith) (omega arith)
