-- ===== src/Plugin/Life.antt =====
-- The life of the plugin: making it, using it, and unloading it.
use e3_ecmc_plugin_socketcan.Common.{
  ℕ, ◌≡◌, refl, sym, ap, ◌∙◌, inl, inr, Bool, true, false, Option, none, some, List, arith,
  Bool-cases,
}
use e3_ecmc_plugin_socketcan.Common.Int.{ℤ}
use e3_ecmc_plugin_socketcan.Common.Memory.{done, fault, Outcome-cases, done-injective}
use e3_ecmc_plugin_socketcan.Common.Attempt.{thrown, Exception}
use e3_ecmc_plugin_socketcan.SocketCan.{SocketCan, Interface, new_socket_can}
use e3_ecmc_plugin_socketcan.Wrap
use e3_ecmc_plugin_socketcan.Wrap.{
  Can, null, deleted, live, create_socket_can, assign_created, connect_socket_can,
  get_socket_can_connectd, getlast_writes_error, add_write_socket_can, delete_socket_can,
}
use e3_ecmc_plugin_socketcan.Plugin.{
  Plugin, copied, freed, unloaded, can_construct, can_destruct, can_realtime, can_connect,
  can_connected, can_last_writes_error, can_add_write, plc_result, free_copy,
}

created-loaded :
    (text : List ℕ) (ms : ℕ) (rd cn wr : Bool) (i : Interface) (p p' : Plugin) (code : ℕ)
    → p.already_loaded ≡ false
    → can_construct (some text) ms rd cn wr i p ≡ done (code, p')
    → p'.already_loaded ≡ true
unfolding can_construct
created-loaded text ms rd cn wr i p p' code a h =
    elim (Outcome-cases (create_socket_can (some text) ms rd cn wr i p.can)) [
      | inr e ↦ absurd (ground (arith, a, e, h))
      | inl (r, e) ↦
          let q : Plugin = record p {
            already_loaded = true;
            last_conf_str = copied text;
            can = r.1;
          } in
          let result : can_construct (some text) ms rd cn wr i p ≡ done (r.0, q) = rw (a, e) in
          let same = done-injective (sym result ∙ h) in ap (λ x. (x.1).already_loaded) (sym same)
    ]

already-loaded :
    (str : Option (List ℕ)) (ms : ℕ) (rd cn wr : Bool) (i : Interface) (p : Plugin)
    → p.already_loaded ≡ true
    → can_construct str ms rd cn wr i p ≡ done (1, p)
unfolding can_construct
already-loaded str ms rd cn wr i p a = ground (arith, a)

first-loaded :
    (str : Option (List ℕ)) (ms : ℕ) (rd cn wr : Bool) (i : Interface) (p p' : Plugin) (code : ℕ)
    → p.already_loaded ≡ false
    → can_construct str ms rd cn wr i p ≡ done (code, p')
    → p'.already_loaded ≡ true
unfolding can_construct
first-loaded none ms rd cn wr i p p' code a h = absurd (ground (arith, a, h))
first-loaded (some text) ms rd cn wr i p p' code a h =
    created-loaded text ms rd cn wr i p p' code a h

loaded :
    (str : Option (List ℕ)) (ms : ℕ) (rd cn wr : Bool) (i : Interface) (p p' : Plugin) (code : ℕ)
    → can_construct str ms rd cn wr i p ≡ done (code, p')
    → p'.already_loaded ≡ true
loaded str ms rd cn wr i p p' code h = elim (Bool-cases p.already_loaded) [
  | inl a ↦
      let same = done-injective (sym (already-loaded str ms rd cn wr i p a) ∙ h) in
      ap (λ x. (x.1).already_loaded) (sym same) ∙ a
  | inr a ↦ first-loaded str ms rd cn wr i p p' code a h
]

-- The plugin is made at most once: when a call of canConstruct has ended, whatever it returned, every
-- later call with any configuration returns 1 and changes nothing.
pub construct_once :
    (str str' : Option (List ℕ)) (ms ms' : ℕ) (rd cn wr rd' cn' wr' : Bool) (i i' : Interface)
    (p p' : Plugin) (code : ℕ)
    → can_construct str ms rd cn wr i p ≡ done (code, p')
    → can_construct str' ms' rd' cn' wr' i' p' ≡ done (1, p')
construct_once str str' ms ms' rd cn wr rd' cn' wr' i i' p p' code h =
    already-loaded str' ms' rd' cn' wr' i' p' (loaded str ms rd cn wr i p p' code h)

-- If the object cannot be made, since its constructor throws, canConstruct returns 1, and there is no
-- object. Then canRealtime does nothing, the PLC functions can_connect and can_last_writes_error
-- report an error, and can_connected no connection; and canDestruct works once.
pub failed_construct :
    {D : Type 0} (to_double : ℕ → D) (text : List ℕ) (ms : ℕ) (rd cn wr : Bool) (i : Interface)
    (x : Exception) (ecmc_error : ℤ)
    → new_socket_can (some text) ms rd cn wr i ≡ thrown x
    → (p : Plugin) × (can_construct (some text) ms rd cn wr i unloaded ≡ done (1, p))
      × (can_realtime ecmc_error p ≡ done (0, record p { last_ecmc_error = ecmc_error }))
      × (can_connect to_double p ≡ done (to_double 1, p))
      × (can_connected to_double p ≡ done (to_double 0, p))
      × (can_last_writes_error to_double p ≡ done (to_double 1, p))
      × (p' : Plugin) × (can_destruct p ≡ done p')
      × (can_destruct p' ≡ fault)
unfolding can_construct create_socket_can assign_created can_realtime can_connect can_connected
    can_last_writes_error can_destruct free_copy plc_result Wrap.execute connect_socket_can
    get_socket_can_connectd getlast_writes_error delete_socket_can Wrap.delete_object
failed_construct to_double text ms rd cn wr i x ecmc_error h =
    let p : Plugin = record unloaded { already_loaded = true; last_conf_str = copied text } in
    (p, rw h refl, refl, refl, refl, refl, record p { last_conf_str = freed }, refl, refl)

-- A plugin that was made, with an object, is unloaded by canDestruct without a fault. But both
-- pointers keep their values, and the plugin counts as loaded: from then on canRealtime, every PLC
-- function and canDestruct use what was freed, and canConstruct returns 1 and makes nothing.
pub destruct_is_final :
    {D : Type 0} (to_double : ℕ → D) (to_uint32 to_uint8 : D → ℕ)
    (can_id len d0 d1 d2 d3 d4 d5 d6 d7 : D) (text : List ℕ) (s : SocketCan) (ecmc_error : ℤ)
    (str : Option (List ℕ)) (ms : ℕ) (rd cn wr : Bool) (i : Interface) (p : Plugin)
    → p.already_loaded ≡ true
    → p.last_conf_str ≡ copied text
    → p.can ≡ live s
    → (p' : Plugin) × (can_destruct p ≡ done p')
      × (can_realtime ecmc_error p' ≡ fault)
      × (can_connect to_double p' ≡ fault)
      × (can_connected to_double p' ≡ fault)
      × (can_last_writes_error to_double p' ≡ fault)
      × (can_add_write to_double to_uint32 to_uint8 can_id len d0 d1 d2 d3 d4 d5 d6 d7 p' ≡ fault)
      × (can_destruct p' ≡ fault)
      × (can_construct str ms rd cn wr i p' ≡ done (1, p'))
unfolding can_construct can_realtime can_connect can_connected can_last_writes_error can_add_write
    can_destruct free_copy plc_result Wrap.execute connect_socket_can get_socket_can_connectd
    getlast_writes_error add_write_socket_can delete_socket_can Wrap.delete_object
destruct_is_final to_double to_uint32 to_uint8 can_id len d0 d1 d2 d3 d4 d5 d6 d7 text s ecmc_error
      str ms rd cn wr i p l c o =
    let p' : Plugin = record p { last_conf_str = freed; can = deleted } in
    (p', ground (arith, c, o), refl, refl, refl, refl, refl, refl, rw l)
