-- ===== src/Tools/RegisterVmBackend.antt =====
-- pvsched-shmem/host/usr/register_vm_backend.c: the tool that asks the host driver for a region.
pub mod Granted
use phantom_tracker.Common.{
  ℕ, ◌+◌, ◌-◌, ◌*◌, ◌^◌, ◌≤◌, ◌<◌, ◌≡◌, refl, arith, Bool, true, false, not, ◌&&◌, Option, none,
  some, List, [], ◌∷◌, ltb, ◌==◌, if◌then◌else◌, u32,
}
use phantom_tracker.Abi.{Ret, ok, err, msg_size}
use phantom_tracker.Shmem.Host.{Backend, Registry, g2h_offset, set_device}
use phantom_tracker.Shmem.Host.Register.{
  VmRegReq, Answers, phant_reg, host_registry_ioctl, host_register_vm,
}
use phantom_tracker.Tools.Text.{Bytes, is_digit, skip_space}

-- The number that the digits at the front spell behind `n`, and the rest.
unfoldable pub split_digits : Bytes → ℕ → ℕ × Bytes
split_digits [] n = (n, [])
split_digits (c ∷ s) n =
    let more = split_digits s (n * 10 + (c - b'0')) in if is_digit c then more else (n, c ∷ s)

-- `strtol` on a text that is a number from 1 to LONG_MAX, and nothing else behind it.
unfoldable pub whole_number : ℕ × Bytes → Option ℕ
whole_number (n, []) = if ltb 0 n && ltb n (2 ^ 63) then some n else none
whole_number (n, c ∷ s) = none

-- A text with a minus sign is refused: it is not a number, or it is not positive.
unfoldable pub signed_cpus : Bytes → Option ℕ
unfolding split_digits whole_number
signed_cpus [] = none
signed_cpus (c ∷ s) =
    if c == b'-'
    then none
    else if c == b'+'
    then whole_number (split_digits s 0)
    else whole_number (split_digits (c ∷ s) 0)

unfoldable pub nb_cpu_of : Bytes → Option ℕ
unfolding signed_cpus
nb_cpu_of s = signed_cpus (skip_space s)

-- The exit code, what is printed (the id and the size), and the registry.
pub record BackendExit : Type 0 where
  pub ret : ℕ
  pub printed : Option (ℕ × ℕ)
  pub registry : Registry

abbrev pub refused : Registry → BackendExit
refused r = record { ret = 1; printed = none; registry = r }

-- The ioctl answers with the request that it has filled in.
unfoldable pub report : Ret × Option VmRegReq × Registry → BackendExit
report (err e, req, r) = refused r
report (ok, none, r) = record { ret = 0; printed = none; registry = r }
report (ok, some req, r) = record { ret = 0; printed = some (req.vm_id, req.size); registry = r }

-- `roundup_pow_of_two` is the kernel's; `open` is true where the device can be opened.
module _ (roundup_pow_of_two : ℕ → ℕ) (a : Answers) (open_device : Bool) where
  unfoldable pub request : ℕ → Registry → BackendExit
  unfolding report
  request nb_cpu r =
      if not open_device
      then refused r
      else report (
          host_registry_ioctl roundup_pow_of_two a phant_reg r
            (record { nb_cpu = u32 nb_cpu; vm_id = 0; size = 0 }))

  unfoldable pub request_if : Option ℕ → Registry → BackendExit
  unfolding request
  request_if none r = refused r
  request_if (some nb_cpu) r = request nb_cpu r

  unfoldable pub register_vm_backend : List Bytes → Registry → BackendExit
  unfolding request_if nb_cpu_of
  register_vm_backend [] r = refused r
  register_vm_backend (prog ∷ []) r = refused r
  register_vm_backend (prog ∷ nb ∷ []) r = request_if (nb_cpu_of nb) r
  register_vm_backend (prog ∷ nb ∷ other ∷ more) r = refused r
