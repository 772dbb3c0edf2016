-- ===== src/Config/Options.antt =====
-- The options as their description in ecmcPluginSocketCAN.c gives them: a list with `;` between.
use e3_ecmc_plugin_socketcan.Common.{
  ℕ, zero, suc, ◌+◌, ◌<◌, ◌≡◌, refl, sym, ap, subst, ◌⊎◌, inl, inr, false, none, some, List, [],
  ◌∷◌, ◌++◌, arith, ◌==◌, if◌then◌else◌, length, drop, Bool-cases,
}
use e3_ecmc_plugin_socketcan.Common.Memory.{done}
use e3_ecmc_plugin_socketcan.Common.Attempt.{ok, thrown, invalid_argument}
use e3_ecmc_plugin_socketcan.Common.CString.{starts_with}
use e3_ecmc_plugin_socketcan.Common.CString.Terminated.{
  NoNul, number, starts_with-terminated, length-starts_with, advance-inside, c_string-terminated,
  atoi-terminated,
}
use e3_ecmc_plugin_socketcan.Config.{
  Config, new_config, dbg_print_option_cmd, if_option_cmd, connect_option_cmd, find_semicolon,
  read_dbg_print, read_connect_or_if, read_option, parse_loop, parse_config_str,
}

-- What one option sets, `CONNECT=` apart.
abbrev pub set_option : List ℕ → Config → Config
set_option o c =
    if starts_with dbg_print_option_cmd o
    then record c { dbg_mode = number (drop 10 o) }
    else (if starts_with if_option_cmd o then record c { can_if_str = some (drop 3 o) } else c)

abbrev onto_first : ℕ → List (List ℕ) → List (List ℕ)
onto_first c [] = (c ∷ []) ∷ []
onto_first c (o ∷ os) = (c ∷ o) ∷ os

-- The options of a text.
abbrev pub split : List ℕ → List (List ℕ)
split [] = [] ∷ []
split (c ∷ cs) = if c == b';' then [] ∷ split cs else onto_first c (split cs)

abbrev pub set_options : List (List ℕ) → Config → Config
set_options [] c = c
set_options (o ∷ os) c = set_options os (set_option o c)

-- An option that is not `CONNECT=`, nor has it or `IF=` as the value of `DBG_PRINT=`.
pub record IsPlain (o : List ℕ) : Type 0 where
  pub no_connect : starts_with connect_option_cmd o ≡ false
  pub no_nested_connect : starts_with connect_option_cmd (drop 10 o) ≡ false
  pub no_nested_if : starts_with if_option_cmd (drop 10 o) ≡ false

abbrev pub ArePlain : List (List ℕ) → Type 0
ArePlain [] = Unit {0}
ArePlain (o ∷ os) = IsPlain o × ArePlain os

NoNul-drop : (n : ℕ) (o : List ℕ) → NoNul o → NoNul (drop n o)
NoNul-drop zero o h = h
NoNul-drop (suc n) [] h = tt
NoNul-drop (suc n) (c ∷ o) (h, t) = NoNul-drop n o t

-- The tests of a round on an option that is followed by a NUL.
read_dbg_print-terminated :
    (o r : List ℕ) (c : Config)
    → read_dbg_print (o ++ (0 ∷ r)) c
      ≡ done (
          if starts_with dbg_print_option_cmd o
          then (drop 10 o ++ (0 ∷ r), record c { dbg_mode = number (drop 10 o) })
          else (o ++ (0 ∷ r), c))
unfolding read_dbg_print
read_dbg_print-terminated o r c =
    let same = starts_with-terminated dbg_print_option_cmd o r (omega arith) in
    elim (Bool-cases (starts_with dbg_print_option_cmd o)) [
      | inr e ↦ rw (same, e)
      | inl e ↦ rw (
        same,
        e,
        advance-inside 10 o (0 ∷ r) (length-starts_with dbg_print_option_cmd o e),
        atoi-terminated (drop 10 o) r,
      )
    ]

read_connect_or_if-terminated :
    (o r : List ℕ) (c : Config)
    → NoNul o
    → starts_with connect_option_cmd o ≡ false
    → read_connect_or_if (o ++ (0 ∷ r)) c
      ≡ done (if starts_with if_option_cmd o then record c { can_if_str = some (drop 3 o) } else c)
unfolding read_connect_or_if
read_connect_or_if-terminated o r c n h =
    let connect = starts_with-terminated connect_option_cmd o r (omega arith) in
    let same = starts_with-terminated if_option_cmd o r (omega arith) in
    elim (Bool-cases (starts_with if_option_cmd o)) [
      | inr e ↦ rw (connect, h, same, e)
      | inl e ↦ rw (
        connect,
        h,
        same,
        e,
        advance-inside 3 o (0 ∷ r) (length-starts_with if_option_cmd o e),
        c_string-terminated (drop 3 o) r (NoNul-drop 3 o n),
      )
    ]

read_option-plain :
    (o r : List ℕ) (c : Config)
    → NoNul o
    → IsPlain o
    → read_option (o ++ (0 ∷ r)) c ≡ done (set_option o c)
unfolding read_option
read_option-plain o r c n p = elim (Bool-cases (starts_with dbg_print_option_cmd o)) [
  | inl e ↦ rw (
    read_dbg_print-terminated o r c,
    e,
    read_connect_or_if-terminated (drop 10 o) r (record c { dbg_mode = number (drop 10 o) })
        (NoNul-drop 10 o n) p.no_nested_connect,
    p.no_nested_if,
  )
  | inr e ↦
      rw (read_dbg_print-terminated o r c, e, read_connect_or_if-terminated o r c n p.no_connect)
]

-- What strchr finds in a text with a NUL behind it.
abbrev Found : List ℕ → Type 0
Found s =
    ((find_semicolon (s ++ (0 ∷ [])) ≡ none) × (split s ≡ s ∷ []))
    ⊎ ((o : List ℕ) × (rest : List ℕ) × (find_semicolon (s ++ (0 ∷ []))
          ≡ some (o, rest ++ (0 ∷ [])))
        × (split s ≡ o ∷ split rest)
        × NoNul o
        × NoNul rest
        × (length rest < length s))

find_semicolon-Found : (s : List ℕ) → NoNul s → Found s
unfolding find_semicolon
find_semicolon-Found [] n = inl (refl, refl)
find_semicolon-Found (c ∷ s) (h, n) = elim (Bool-cases (c == b';')) [
  | inl e ↦ inr ([], s, ground arith, rw e, tt, n, omega arith)
  | inr e ↦ elim (find_semicolon-Found s n) [
    | inl (f, q) ↦ inl (ground (arith, f), rw (e, q))
    | inr (o, rest, f, q, no_nul, nr, l) ↦
        inr (c ∷ o, rest, ground (arith, f), rw (e, q), (h, no_nul), nr, omega arith)
  ]
]

set_option-nil : (c : Config) → set_option [] c ≡ c
unfolding starts_with
set_option-nil c = refl

pub parse_loop-options :
    (fuel : ℕ) (s : List ℕ) (c : Config)
    → length s < fuel
    → NoNul s
    → ArePlain (split s)
    → parse_loop fuel (s ++ (0 ∷ [])) c ≡ some (done (set_options (split s) c))
unfolding parse_loop
parse_loop-options zero s c l n p = absurd (omega arith)
parse_loop-options (suc fuel) [] c l n p = ap (λ d. some (done d)) (sym (set_option-nil c))
parse_loop-options (suc fuel) (x ∷ s) c l n p = elim (find_semicolon-Found (x ∷ s) n) [
  | inl (f, q) ↦
      let plain = subst ArePlain q p in
      let z : (x == 0) ≡ false = ground arith in
      rw (z, f, read_option-plain (x ∷ s) [] c n plain.0, q)
  | inr (o, rest, f, q, no_nul, nr, k) ↦
      let plain = subst ArePlain q p in
      let z : (x == 0) ≡ false = ground arith in
      rw (z, f, read_option-plain o (rest ++ (0 ∷ [])) c no_nul plain.0, q)
        (parse_loop-options fuel rest (set_option o c) (omega arith) nr plain.1)
]

-- A configuration string without `CONNECT=` means what its options say, in their order, wherever
-- they stand in the string; an interface has to be among them. (An option `DBG_PRINT=` whose value
-- starts like another option is left out.)
pub parse_config_str-options :
    (s : List ℕ)
    → NoNul s
    → ArePlain (split s)
    → parse_config_str (some s) ≡ (
        let c = set_options (split s) new_config in
        elim c.can_if_str [ none ↦ thrown invalid_argument | some name ↦ ok c ])
unfolding parse_config_str
parse_config_str-options s n p =
    rw (parse_loop-options (length s + 1) s new_config (omega arith) n p)
