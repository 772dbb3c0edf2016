-- ===== src/Config/Ends.antt =====
-- The loop over the options ends.
use e3_ecmc_plugin_socketcan.Common.{
  ℕ, zero, suc, ◌<◌, ◌≡◌, refl, subst, ◌⊎◌, inl, inr, Option, none, some, List, [], ◌∷◌, ◌++◌,
  arith, ◌==◌, length, get_or, Bool-cases,
}
use e3_ecmc_plugin_socketcan.Common.Memory.{Outcome, done, fault, Outcome-cases}
use e3_ecmc_plugin_socketcan.Config.{Config, find_semicolon, read_option, parse_loop}

-- What strchr finds in a block that ends with a NUL: nothing, or a shorter such block.
abbrev Shorter : List ℕ → Option (List ℕ × List ℕ) → Type 0
Shorter s none = Unit {0}
Shorter s (some r) = (t : List ℕ) × (r.1 ≡ t ++ (0 ∷ [])) × (length t < length s)

Shorter-cons :
    (c x : ℕ) (s : List ℕ) (r : Option (List ℕ × List ℕ))
    → Shorter s r
    → Shorter (x ∷ s) (elim r [ none ↦ none | some q ↦ some (c ∷ q.0, q.1) ])
Shorter-cons c x s none h = tt
Shorter-cons c x s (some q) (t, e, l) = (t, e, omega arith)

find_semicolon-Shorter : (s : List ℕ) → Shorter s (find_semicolon (s ++ (0 ∷ [])))
unfolding find_semicolon
find_semicolon-Shorter [] = tt
find_semicolon-Shorter (c ∷ s) = elim (Bool-cases (c == 0)) [
  | inl e ↦ rw e tt
  | inr e ↦ elim (Bool-cases (c == b';')) [
    | inl f ↦ rw (e, f) (s, refl, omega arith)
    | inr f ↦
        rw (e, f) (Shorter-cons c c s (find_semicolon (s ++ (0 ∷ []))) (find_semicolon-Shorter s))
  ]
]

option_cases {ℓ} : {A : Type ℓ} (o : Option A) → (o ≡ none) ⊎ ((a : A) × (o ≡ some a))
option_cases none = inl refl
option_cases (some a) = inr (a, refl)

-- The loop over the options ends, for every configuration string, in as many rounds as the string
-- has bytes, and one: with that much fuel it has a result.
pub parse_loop-ends :
    (fuel : ℕ) (s : List ℕ) (c : Config)
    → length s < fuel
    → (r : Outcome Config) × (parse_loop fuel (s ++ (0 ∷ [])) c ≡ some r)
unfolding parse_loop
parse_loop-ends zero s c h = absurd (omega arith)
parse_loop-ends (suc fuel) s c h = elim (Bool-cases (get_or (s ++ (0 ∷ [])) 0 0 == 0)) [
  | inl z ↦ (done c, rw z)
  | inr z ↦ elim (option_cases (find_semicolon (s ++ (0 ∷ [])))) [
    | inl e ↦ (read_option (s ++ (0 ∷ [])) c, rw (z, e))
    | inr (q, e) ↦
        let (t, behind, shorter) = subst (Shorter s) e (find_semicolon-Shorter s) in
        elim (Outcome-cases (read_option (q.0 ++ (0 ∷ q.1)) c)) [
          | inr f ↦ (fault, rw (z, e, f))
          | inl (c1, f) ↦
              let (r, g) = parse_loop-ends fuel t c1 (omega arith) in
              (r, rw (z, e, f) (rw behind g))
        ]
  ]
]
