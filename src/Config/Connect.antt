-- ===== src/Config/Connect.antt =====
-- The option `CONNECT=`, whose value is looked for two bytes too far.
use e3_ecmc_plugin_socketcan.Common.{
  ℕ, suc, ◌+◌, ◌<◌, ◌≡◌, ◌≢◌, refl, none, some, List, [], ◌∷◌, ◌++◌, arith, length, length-append,
  append_assoc,
}
use e3_ecmc_plugin_socketcan.Common.Memory.{done, fault, ◌>>=◌}
use e3_ecmc_plugin_socketcan.Common.Attempt.{ok, thrown, crashed, invalid_argument}
use e3_ecmc_plugin_socketcan.Common.CString.{starts_with, advance, atoi}
use e3_ecmc_plugin_socketcan.Common.CString.Terminated.{
  NoNul, number, atoi-terminated, c_string-terminated,
}
use e3_ecmc_plugin_socketcan.Config.{
  Config, new_config, if_option_cmd, connect_option_cmd, find_semicolon, read_dbg_print,
  read_connect_or_if, read_option, parse_loop, parse_config_str,
}
use e3_ecmc_plugin_socketcan.Config.Options.{ArePlain, split, set_options, parse_loop-options}

-- An option `CONNECT=` with a value of one character, as in the description, takes the number at the
-- start of what follows the option.
read_option-connect :
    (d : ℕ) (r : List ℕ) (c : Config)
    → read_option ((connect_option_cmd ++ (d ∷ [])) ++ (0 ∷ r)) c
      ≡ (atoi r >>= λ n. done (record c { auto_connect = n }))
unfolding read_option read_dbg_print read_connect_or_if starts_with advance
read_option-connect d r c = ground arith

find_semicolon-connect :
    (d : ℕ) (r : List ℕ)
    → 0 < d
    → d ≢ b';'
    → find_semicolon (connect_option_cmd ++ (d ∷ b';' ∷ r))
      ≡ some (connect_option_cmd ++ (d ∷ []), r)
unfolding find_semicolon
find_semicolon-connect d r h n = ground arith

parse_loop-connect :
    (fuel d : ℕ) (s : List ℕ) (c : Config)
    → 0 < d
    → d ≢ b';'
    → length s < fuel
    → NoNul s
    → ArePlain (split s)
    → parse_loop (suc fuel) (connect_option_cmd ++ (d ∷ b';' ∷ (s ++ (0 ∷ [])))) c
      ≡ some (done (set_options (split s) (record c { auto_connect = number s })))
unfolding parse_loop
parse_loop-connect fuel d s c h n l nul plain =
    rw
      (
        find_semicolon-connect d (s ++ (0 ∷ [])) h n,
        read_option-connect d (s ++ (0 ∷ [])) c,
        atoi-terminated s [],
      )
      (parse_loop-options fuel s (record c { auto_connect = number s }) l nul plain)

-- `CONNECT=` with a value of one character, before other options: the value is never looked at. The
-- plugin connects at the start, or not, by the number that the next option starts with, which is 0
-- for every option that starts with a letter.
pub connect_value_ignored :
    (d : ℕ) (s : List ℕ)
    → 0 < d
    → d ≢ b';'
    → NoNul s
    → ArePlain (split s)
    → parse_config_str (some (connect_option_cmd ++ (d ∷ b';' ∷ s))) ≡ (
        let c = set_options (split s) (record new_config { auto_connect = number s }) in
        elim c.can_if_str [ none ↦ thrown invalid_argument | some name ↦ ok c ])
unfolding parse_config_str
connect_value_ignored d s h n nul plain =
    let fuel : length (connect_option_cmd ++ (d ∷ b';' ∷ s)) + 1 ≡ suc (length s + 10) =
      omega arith in
    rw (fuel, parse_loop-connect (length s + 10) d s new_config h n (omega arith) nul plain)

abbrev pub NoSemicolon : List ℕ → Type 0
NoSemicolon [] = Unit {0}
NoSemicolon (c ∷ cs) = (c ≢ b';') × NoSemicolon cs

find_semicolon-append :
    (o r : List ℕ) → NoNul o → NoSemicolon o → find_semicolon (o ++ (b';' ∷ r)) ≡ some (o, r)
unfolding find_semicolon
find_semicolon-append [] r n s = refl
find_semicolon-append (c ∷ o) r (h, n) (k, s) = ground (arith, find_semicolon-append o r n s)

read_option-if :
    (name r : List ℕ) (c : Config)
    → NoNul name
    → read_option ((if_option_cmd ++ name) ++ (0 ∷ r)) c
      ≡ done (record c { can_if_str = some name })
unfolding read_option read_dbg_print read_connect_or_if starts_with advance
read_option-if name r c n = ground (arith, c_string-terminated name r n)

parse_loop-last_connect :
    (fuel d : ℕ) (c : Config)
    → 0 < d
    → d ≢ b';'
    → parse_loop (suc fuel) (connect_option_cmd ++ (d ∷ 0 ∷ [])) c ≡ some fault
unfolding parse_loop find_semicolon atoi
parse_loop-last_connect fuel d c h n = ground (arith, read_option-connect d [] c)

parse_loop-if :
    (fuel : ℕ) (name r : List ℕ) (c : Config)
    → NoNul name
    → NoSemicolon name
    → parse_loop (suc fuel) (if_option_cmd ++ (name ++ (b';' ∷ r))) c
      ≡ parse_loop fuel r (record c { can_if_str = some name })
unfolding parse_loop
parse_loop-if fuel name r c n s = rw (
  find_semicolon-append (if_option_cmd ++ name) r (omega arith, (omega arith, (omega arith, n)))
      (ground arith),
  read_option-if name r c n,
)

-- `CONNECT=` with a value of one character as the last option, behind the interface: atoi is handed a
-- pointer past the end of the copy of the string.
pub last_connect_faults :
    (name : List ℕ) (d : ℕ)
    → 0 < d
    → d ≢ b';'
    → NoNul name
    → NoSemicolon name
    → parse_config_str (some (if_option_cmd ++ (name ++ (b';' ∷ (connect_option_cmd ++ (d ∷ []))))))
      ≡ crashed
unfolding parse_config_str
last_connect_faults name d h n nul semi =
    let size = length-append name (b';' ∷ (connect_option_cmd ++ (d ∷ []))) in
    let fuel : length (if_option_cmd ++ (name ++ (b';' ∷ (connect_option_cmd ++ (d ∷ []))))) + 1
        ≡ suc (suc (length name + 12)) =
      omega (arith, size) in
    rw (
      fuel,
      append_assoc name (b';' ∷ (connect_option_cmd ++ (d ∷ []))) (0 ∷ []),
      parse_loop-if (suc (length name + 12)) name (connect_option_cmd ++ (d ∷ 0 ∷ [])) new_config
          nul semi,
      parse_loop-last_connect (length name + 12) d (record new_config { can_if_str = some name }) h
          n,
    )
