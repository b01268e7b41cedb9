-- ===== src/Tracker/Switch/Spec.antt =====
-- create_maps.bpf.c: the handler of context switches as a program on a set of threads, the phantoms.
use mathlib.Core.Path.{fun_ext}
use phantom_tracker.Common.{
  ℕ, ◌+◌, ◌≡◌, refl, ap, Bool, true, false, not, ◌&&◌, ◌||◌, none, some, List, [], ◌∷◌, arith,
  lookup, modify, count_if, bit, if◌then◌else◌, ◌==◌, ℕ_discrete,
}
use phantom_tracker.Tracker.State.{Name, Vcpu}
use phantom_tracker.Tracker.Switch.{Event, task_running, task_waking}
use phantom_tracker.Tracker.Switch.Exact.{is_of, is_phantom_of}

abbrev pub Phantoms : Type 0
Phantoms = ℕ → Bool

-- What the specification is told: which threads are vCPUs, and for which of them the guest reports
-- an OpenMP thread.
pub record Oracle : Type 0 where
  pub is_vcpu : ℕ → Bool
  pub reports : ℕ → Bool

-- The incoming thread is taken out of the set, if the guest reports for it.
unfoldable pub spec_in : Oracle → Event → Phantoms → Phantoms
spec_in w e s pid = s pid && not (pid == e.next_pid && w.reports pid)

-- The outgoing thread is put into the set, if the guest reports for it, and it was preempted.
unfoldable pub preempted : Oracle → Event → Bool
preempted w e =
    let state = if w.is_vcpu e.next_pid then e.prev_state else 0 in
    state == task_running || state == task_waking

unfoldable pub spec_out : Oracle → Event → Phantoms → Phantoms
unfolding preempted
spec_out w e s pid = s pid || (pid == e.prev_pid && w.reports pid && preempted w e)

unfoldable pub spec_step : Oracle → Event → Phantoms → Phantoms
unfolding spec_in spec_out
spec_step w e s = spec_out w e (spec_in w e s)

unfoldable pub spec_run : Oracle → List Event → Phantoms → Phantoms
unfolding spec_step
spec_run w [] s = s
spec_run w (e ∷ es) s = spec_run w es (spec_step w e s)

-- The number of a VM's vCPUs in the set.
unfoldable pub members : Name → Phantoms → List (ℕ × Vcpu) → ℕ
members n s [] = 0
members n s ((k, v) ∷ m) = bit (is_of n v && s k) + members n s m

-- The table of vCPUs with the flags that the set says.
unfoldable pub flag_all : Phantoms → List (ℕ × Vcpu) → List (ℕ × Vcpu)
flag_all s [] = []
flag_all s ((k, v) ∷ m) = (k, record v { is_phantom = bit (s k) }) ∷ flag_all s m

-- A thread is one vCPU.
abbrev pub Unique : List (ℕ × Vcpu) → Type 0
Unique [] = Unit
Unique ((k, v) ∷ m) = (lookup ℕ_discrete k m ≡ none) × Unique m

unfoldable pub put : ℕ → Bool → Phantoms → Phantoms
put k b s j = if j == k then b else s j

pub lookup-flag_all :
    (k : ℕ) (s : Phantoms) (m : List (ℕ × Vcpu)) (v : Vcpu)
    → lookup ℕ_discrete k m ≡ some v
    → lookup ℕ_discrete k (flag_all s m) ≡ some (record v { is_phantom = bit (s k) })
unfolding lookup flag_all
lookup-flag_all k s [] v h = absurd (cc)
lookup-flag_all k s ((j, w) ∷ m) v h = ground (arith, lookup-flag_all k s m v)

pub lookup-flag_all-none :
    (k : ℕ) (s : Phantoms) (m : List (ℕ × Vcpu))
    → lookup ℕ_discrete k m ≡ none
    → lookup ℕ_discrete k (flag_all s m) ≡ none
unfolding lookup flag_all
lookup-flag_all-none k s [] h = refl
lookup-flag_all-none k s ((j, w) ∷ m) h = ground (arith, lookup-flag_all-none k s m)

flag_all-put :
    (k : ℕ) (b : Bool) (s : Phantoms) (m : List (ℕ × Vcpu))
    → lookup ℕ_discrete k m ≡ none
    → flag_all (put k b s) m ≡ flag_all s m
unfolding lookup flag_all put
flag_all-put k b s [] h = refl
flag_all-put k b s ((j, w) ∷ m) h = ground (arith, flag_all-put k b s m)

-- Writing one flag is putting one thread into the set or taking it out.
pub modify-flag_all :
    (k : ℕ) (b : Bool) (s : Phantoms) (m : List (ℕ × Vcpu))
    → Unique m
    → modify ℕ_discrete k (λ v. record v { is_phantom = bit b }) (flag_all s m)
      ≡ flag_all (put k b s) m
unfolding modify flag_all put
modify-flag_all k b s [] u = refl
modify-flag_all k b s ((j, w) ∷ m) (new, u) =
    ground (arith, modify-flag_all k b s m u, flag_all-put j b s m)

pub count_if-flag_all :
    (n : Name) (s : Phantoms) (m : List (ℕ × Vcpu))
    → count_if (is_phantom_of n) (flag_all s m) ≡ members n s m
unfolding count_if flag_all members
count_if-flag_all n s [] = refl
count_if-flag_all n s ((k, v) ∷ m) = ground (arith, count_if-flag_all n s m)

pub put_same : (k : ℕ) (b : Bool) (s : Phantoms) → s k ≡ b → put k b s ≡ s
unfolding put
put_same k b s h =
    fun_ext λ j. elim (ℕ_discrete j k) [ yes e ↦ ground (arith, ap s e) | no e ↦ ground arith ]

module _ (w : Oracle) (e : Event) (s : Phantoms) where
  pub spec_in-put : w.reports e.next_pid ≡ true → spec_in w e s ≡ put e.next_pid false s
  unfolding spec_in put
  spec_in-put h = fun_ext λ j. elim (ℕ_discrete j e.next_pid) [
    | yes same ↦ ground (arith, ap w.reports same)
    | no other ↦ ground arith
  ]

  pub spec_in_same : w.reports e.next_pid ≡ false → spec_in w e s ≡ s
  unfolding spec_in
  spec_in_same h = fun_ext λ j. elim (ℕ_discrete j e.next_pid) [
    | yes same ↦ ground (arith, ap w.reports same)
    | no other ↦ ground arith
  ]

  pub spec_out-put :
      w.reports e.prev_pid ≡ true → preempted w e ≡ true → spec_out w e s ≡ put e.prev_pid true s
  unfolding spec_out put
  spec_out-put h p = fun_ext λ j. elim (ℕ_discrete j e.prev_pid) [
    | yes same ↦ ground (arith, ap w.reports same)
    | no other ↦ ground arith
  ]

  pub spec_out_same : (w.reports e.prev_pid && preempted w e) ≡ false → spec_out w e s ≡ s
  unfolding spec_out
  spec_out_same h = fun_ext λ j. elim (ℕ_discrete j e.prev_pid) [
    | yes same ↦ ground (arith, ap w.reports same)
    | no other ↦ ground arith
  ]
