-- ===== src/Device/Registry.antt =====
-- What becomes of the table of devices in a sequence of operations, and when `stop` ends.
use ocpp_gw.Base.{
  ℕ, String, ◌≡◌, ◌↔◌, refl, inl, inr, Bool, true, false, Option, none, some, Bool-cases, List, [],
  ◌∷◌, ◌++◌, ◌⊎◌, ap, arith, any,
}
use ocpp_gw.Base.Dict.{Dict, lookup}
use ocpp_gw.Device.Types.{DeviceProtocol, DeviceInfo}
use ocpp_gw.Device.Adapter.{
  Adapter, create, start, add_device, remove_device, set_device_status_callback, update,
  update_device_status, mark_offline, stop,
}
use ocpp_gw.Device.Sound.{
  IsRegistry, create-IsRegistry, add_device-IsRegistry, remove_device-IsRegistry,
  set_device_status_callback-IsRegistry, update-IsRegistry, start-IsRegistry, update_unlocked,
}

pub data Operation : Type 0 where
  starts : Operation
  adds : DeviceInfo → Operation
  removes : String → Operation
  watches : String → Bool → Operation
  updates : String → Bool → ℕ → Operation
  stops : ℕ → Operation

-- The operation and what it leaves; `none` if its thread blocks. The first argument is `stopDiscovery`, which
-- `stop` calls.
unfoldable pub perform :
    (Adapter → Adapter) → (DeviceInfo → Bool) → Operation → Adapter → Option Adapter
perform stop_discovery validate starts s = some (start s).0
perform stop_discovery validate (adds d) s = some (add_device validate d s).0
perform stop_discovery validate (removes id) s = some (remove_device id s).0
perform stop_discovery validate (watches id callback) s =
    some (set_device_status_callback id callback s).0
perform stop_discovery validate (updates id online now) s = update_device_status id online now s
perform stop_discovery validate (stops now) s = stop stop_discovery now s

unfoldable pub run :
    (Adapter → Adapter) → (DeviceInfo → Bool) → List Operation → Adapter → Option Adapter
unfolding perform
run stop_discovery validate [] s = some s
run stop_discovery validate (o ∷ os) s = elim (perform stop_discovery validate o s) [
  | none ↦ none
  | some s' ↦ run stop_discovery validate os s'
]

mark_offline_blocks_iff :
    (m : Dict DeviceInfo) (now : ℕ) (s : Adapter)
    → s.devices_locked ≡ true
    → (mark_offline m now s ≡ none) ↔ (any (λ p. p.1.online) m ≡ true)
unfolding mark_offline update_device_status
mark_offline_blocks_iff [] now s h = ground arith
mark_offline_blocks_iff ((id, d) ∷ rest) now s h = elim (Bool-cases d.online) [
  | inl q ↦ rw (q, h) (λ e. refl, λ e. refl)
  | inr q ↦ rw q (mark_offline_blocks_iff rest now s h)
]

-- `stop` blocks for ever exactly when the adapter runs and some device is online: it holds the mutex on the
-- devices when it reports the device offline, which takes the mutex again.
pub stop_blocks_iff :
    (stop_discovery : Adapter → Adapter) (now : ℕ) (s : Adapter)
    → (stop stop_discovery now s ≡ none)
      ↔ ((s.running ≡ true) × (any (λ p. p.1.online) (stop_discovery s).devices ≡ true))
unfolding stop
stop_blocks_iff sd now s =
    let held = record (sd s) { devices_locked = true } in
    ground (arith, mark_offline_blocks_iff (sd s).devices now held refl)

mark_offline-same :
    (m : Dict DeviceInfo) (now : ℕ) (s : Adapter)
    → any (λ p. p.1.online) m ≡ false
    → mark_offline m now s ≡ some s
unfolding mark_offline
mark_offline-same [] now s h = refl
mark_offline-same ((id, d) ∷ rest) now s h = ground (arith, mark_offline-same rest now s)

-- A sound table with the mutex on the devices free.
abbrev IsReady : Adapter → Type 0
IsReady s = (s.devices_locked ≡ false) × IsRegistry s

relock :
    (s : Adapter) (held running : Bool)
    → IsRegistry s
    → IsRegistry (record s { devices_locked = held; running = running })
relock s held running w = record { keyed = λ k d h. w.keyed k d h; owned = λ k h. w.owned k h }

module _ (stop_discovery : Adapter → Adapter) (validate : DeviceInfo → Bool) where
  -- The adapter runs and some device is online once discovery has stopped.
  abbrev pub HasOnline : Adapter → Type 0
  HasOnline s = (s.running ≡ true) × (any (λ p. p.1.online) (stop_discovery s).devices ≡ true)

  -- The operation is done and leaves a sound table, or it is a `stop` that blocks.
  abbrev Performs : Operation → Adapter → Type 0
  Performs o s =
      ((s' : Adapter) × ((perform stop_discovery validate o s ≡ some s') × IsReady s'))
      ⊎ ((now : ℕ) × ((o ≡ stops now)
            × ((perform stop_discovery validate o s ≡ none) × HasOnline s)))

  -- A part of the sequence runs to its end, and the `stop` after it blocks.
  abbrev pub IsStuck : List Operation → Adapter → Type 0
  IsStuck os s =
      (before after : List Operation) × ((now : ℕ) × ((s' : Adapter) × ((os
              ≡ before ++ (stops now ∷ after))
            × ((run stop_discovery validate before s ≡ some s') × HasOnline s'))))

  module _ (keeps : (s : Adapter) → IsRegistry s → IsRegistry (stop_discovery s)) where
    stop-Performs : (now : ℕ) (s : Adapter) → IsReady s → Performs (stops now) s
    unfolding perform stop
    stop-Performs now s (free, w) = elim (Bool-cases s.running) [
      | inr idle ↦ inl (s, (ground arith, (free, w)))
      | inl running ↦ elim (Bool-cases (any (λ p. p.1.online) (stop_discovery s).devices)) [
        | inl online ↦ inr (
          now,
          (refl, ((stop_blocks_iff stop_discovery now s).1 (running, online), (running, online))),
        )
        | inr offline ↦
            let held = record (stop_discovery s) { devices_locked = true } in
            inl (
              record (stop_discovery s) { devices_locked = false; running = false },
              (
                ground (arith, mark_offline-same (stop_discovery s).devices now held offline),
                (refl, relock (stop_discovery s) false false (keeps s w)),
              ),
            )
      ]
    ]

    perform-Performs : (o : Operation) (s : Adapter) → IsReady s → Performs o s
    unfolding perform update_device_status start add_device remove_device set_device_status_callback
    perform-Performs starts s (free, w) = inl (_, (refl, (ground arith, start-IsRegistry s w)))
    perform-Performs (adds d) s (free, w) =
        inl (_, (refl, (ground arith, add_device-IsRegistry validate d s w)))
    perform-Performs (removes id) s (free, w) =
        inl (_, (refl, (ground arith, remove_device-IsRegistry id s w)))
    perform-Performs (watches id callback) s (free, w) =
        inl (_, (refl, (ground arith, set_device_status_callback-IsRegistry id callback s w)))
    perform-Performs (updates id online now) s (free, w) = inl (
      update id online now (lookup id s.devices) s,
      (
        rw free refl,
        (
          update_unlocked id online now (lookup id s.devices) s free,
          update-IsRegistry id online now s w,
        ),
      ),
    )
    perform-Performs (stops now) s r = stop-Performs now s r

    run-Performs :
        (os : List Operation) (s : Adapter)
        → IsReady s
        → ((s' : Adapter) × ((run stop_discovery validate os s ≡ some s') × IsRegistry s'))
          ⊎ ((run stop_discovery validate os s ≡ none) × IsStuck os s)
    unfolding run
    run-Performs [] s (free, w) = inl (s, (refl, w))
    run-Performs (o ∷ os) s r = elim (perform-Performs o s r) [
      | inl (s', (done, ready)) ↦ elim (run-Performs os s' ready) [
        | inl (end, (e, w)) ↦ inl (end, (rw (run, done) e, w))
        | inr (e, (before, after, (now, (t, (same, (ran, online)))))) ↦ inr (
          rw (run, done) e,
          (o ∷ before, after, (now, (t, (ap (o ∷◌) same, (rw (run, done) ran, online))))),
        )
      ]
      | inr (now, (same, (blocked, online))) ↦
          inr
            (rw (run, blocked) refl, ([], os, (now, (s, (ap (λ x. x ∷ os) same, (refl, online))))))
    ]

    -- From a new adapter, with callbacks that do not call the adapter back, a sequence of operations either
    -- runs to its end, and then every device stands under its own identifier and every callback belongs to a
    -- known device; or it blocks, and then at a `stop` that finds the adapter running with a device online. It
    -- is taken that stopping the discovery keeps the table sound.
    pub run-IsRegistry :
        (protocol : DeviceProtocol) (os : List Operation)
        → ((s : Adapter) × ((run stop_discovery validate os (create protocol) ≡ some s)
              × IsRegistry s))
          ⊎ ((run stop_discovery validate os (create protocol) ≡ none)
              × IsStuck os (create protocol))
    unfolding create
    run-IsRegistry protocol os =
        run-Performs os (create protocol) (refl, create-IsRegistry protocol)
