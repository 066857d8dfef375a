-- ===== src/Loop/Frame.antt =====
-- apexd/apexd_loop.cpp: loop devices beside the database of mounted packages.
use android_system_apex.Common.{
  ℕ, ℤ, zero, suc, ◌+◌, Text, ◌≡◌, refl, arith, inl, inr, Option-cases, codes, ◌++◌, to_string, pos,
}
use android_system_apex.Os.{Os}
use android_system_apex.Daemon.{Daemon}
use android_system_apex.Process.{wait_for_file}
use android_system_apex.Process.Frame.{mounted_apexes-wait_for_file}
use android_system_apex.Loop.{
  configure_read_ahead, open_with_retries, set_up, open_and_set_up, create_loop_device,
  destroy_loop_device, add_devices, pre_allocate_loop_devices, loop_control_timeout,
}

module _ {W : Type 0} (os : Os W) where
  pub mounted_apexes-configure_read_ahead :
      (device : Text) (d : Daemon W)
      → (configure_read_ahead os device d).1.mounted_apexes ≡ d.mounted_apexes
  unfolding configure_read_ahead
  mounted_apexes-configure_read_ahead device d = ground arith

  mounted_apexes-open_with_retries :
      (n : ℕ) (device : Text) (d : Daemon W)
      → (open_with_retries os n device d).1.mounted_apexes ≡ d.mounted_apexes
  unfolding open_with_retries
  mounted_apexes-open_with_retries zero device d = refl
  mounted_apexes-open_with_retries (suc n) device d =
      grind (arith, mounted_apexes-open_with_retries n)

  mounted_apexes-set_up :
      (device target : Text) (a : ℤ) (b : ℕ) (d : Daemon W)
      → (set_up os device target a b d).1.mounted_apexes ≡ d.mounted_apexes
  unfolding set_up
  mounted_apexes-set_up device target a b d = grind (arith, mounted_apexes-configure_read_ahead)

  mounted_apexes-open_and_set_up :
      (device target : Text) (a : ℤ) (b : ℕ) (d : Daemon W)
      → (open_and_set_up os device target a b d).1.mounted_apexes ≡ d.mounted_apexes
  unfolding open_and_set_up
  mounted_apexes-open_and_set_up device target a b d =
      grind (arith, mounted_apexes-set_up, mounted_apexes-open_with_retries)

  pub mounted_apexes-create_loop_device :
      (target : Text) (a : ℤ) (b : ℕ) (d : Daemon W)
      → (create_loop_device os target a b d).1.mounted_apexes ≡ d.mounted_apexes
  unfolding create_loop_device
  mounted_apexes-create_loop_device target a b d =
      let (r, w) = os.open_device (codes "/dev/loop-control") d.world in
      let (free, w') = os.loop_get_free w in
      elim (Option-cases free) [
        | inl e ↦ ground arith
        | inr (n, e) ↦ ground (
          arith,
          mounted_apexes-open_and_set_up (codes "/dev/block/loop" ++ to_string (pos n)) target a b
              (record d { world = w' }),
        )
      ]

  pub mounted_apexes-destroy_loop_device :
      (path : Text) (d : Daemon W)
      → (destroy_loop_device os path d).1.mounted_apexes ≡ d.mounted_apexes
  unfolding destroy_loop_device
  mounted_apexes-destroy_loop_device path d = ground arith

  mounted_apexes-add_devices :
      (id n : ℕ) (d : Daemon W) → (add_devices os id n d).1.mounted_apexes ≡ d.mounted_apexes
  unfolding add_devices
  mounted_apexes-add_devices id zero d = refl
  mounted_apexes-add_devices id (suc n) d = ground (
    arith,
    mounted_apexes-add_devices (id + 1) n (record d { world = (os.loop_add id d.world).1 }),
  )

  pub mounted_apexes-pre_allocate_loop_devices :
      (n : ℕ) (d : Daemon W)
      → (pre_allocate_loop_devices os n d).1.mounted_apexes ≡ d.mounted_apexes
  unfolding pre_allocate_loop_devices
  mounted_apexes-pre_allocate_loop_devices n d =
      let control = codes "/dev/loop-control" in
      let d1 = (wait_for_file os control loop_control_timeout d).1 in
      let d2 = record d1 { world = (os.open_device control d1.world).1 } in
      ground (
        arith,
        mounted_apexes-wait_for_file os control loop_control_timeout d,
        mounted_apexes-add_devices 0 n d2,
      )
